-- ===== src/Encryption/Plain.antt =====
-- Events of classes that have no encrypted field.
use python_event_sourcery.Prelude.{some, [], ◌≡◌, refl, arith}
use python_event_sourcery.Prelude.Dict.{lookup}
use python_event_sourcery.Errors.{ok}
use python_event_sourcery.StreamId.{StreamId}
use python_event_sourcery.Event.{Event}
use python_event_sourcery.Event.Json.{Fields}
use python_event_sourcery.Event.Class.{EventClass}
use python_event_sourcery.Registry.{Registry, class_key, encrypted_fields_of}
use python_event_sourcery.Encryption.{
  Cipher, KeyStorage, encrypt, decrypt, encrypt_loop, decrypt_loop,
}

module _ (c : Cipher) (storage : KeyStorage) (registry : Registry) where
  pub encrypt-plain :
      (event : Event) (sid : StreamId)
      → encrypted_fields_of event.event_type registry ≡ ok []
      → encrypt c storage registry event sid ≡ ok event.attributes
  unfolding encrypt encrypt_loop
  encrypt-plain event sid h = rw h refl

  pub decrypt-plain :
      (event_type : EventClass) (raw : Fields) (sid : StreamId)
      → encrypted_fields_of event_type registry ≡ ok []
      → decrypt c storage registry event_type raw sid ≡ ok raw
  unfolding decrypt decrypt_loop
  decrypt-plain event_type raw sid h = rw h refl

pub encrypted_fields_of-found :
    (cls : EventClass) (registry : Registry)
    → lookup cls registry.encrypted_fields ≡ some []
    → encrypted_fields_of cls registry ≡ ok []
unfolding encrypted_fields_of
encrypted_fields_of-found cls registry h = ground (arith)
