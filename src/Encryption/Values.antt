-- ===== src/Encryption/Values.antt =====
-- Round trips of one value.
use python_event_sourcery.Prelude.{String, some, ◌≡◌, ◌∙◌, ap, refl}
use python_event_sourcery.Errors.{ok}
use python_event_sourcery.Event.Json.{Json, text}
use python_event_sourcery.Encryption.{
  Cipher, KeyStorage, key_of, serialized, loads_or_text, loads_or_same, encrypt_value,
  decrypt_value,
}

-- What a value is after its text was read back: a text that happens to be JSON is not itself.
abbrev pub read_back : Cipher → Json → Json
read_back c v = loads_or_text c (serialized c v)

module _ (c : Cipher) (storage : KeyStorage) (value subject_id mask_value : Json)
    (key : String) where
  pub decrypt_value-encrypt_value :
      key_of subject_id storage ≡ some key
      → c.decipher (text (c.encipher (serialized c value) key)) key ≡ ok (text (serialized c value))
      → (encrypted : Json) × (encrypt_value c storage value subject_id ≡ ok encrypted)
        × (decrypt_value c storage encrypted subject_id mask_value ≡ ok (read_back c value))
  unfolding encrypt_value decrypt_value loads_or_same
  decrypt_value-encrypt_value found inverse = (
    text (c.encipher (serialized c value) key),
    rw (found, encrypt_value),
    rw (found, inverse, decrypt_value),
  )

module _ (c : Cipher) (storage : KeyStorage) (subject_id mask_value : Json) (key : String) where
  -- A value that is a text which is JSON itself, as "123" or "true", does not survive: with the key
  -- of its subject it decrypts to the other value w that the text stands for.
  text_read_as_json :
      (t : String) (w : Json)
      → c.loads t ≡ some w
      → key_of subject_id storage ≡ some key
      → c.decipher (text (c.encipher t key)) key ≡ ok (text t)
      → (encrypted : Json) × (encrypt_value c storage (text t) subject_id ≡ ok encrypted)
        × (decrypt_value c storage encrypted subject_id mask_value ≡ ok w)
  unfolding encrypt_value decrypt_value serialized
  text_read_as_json t w is_json found inverse =
      let (encrypted, written, read) =
        decrypt_value-encrypt_value c storage (text t) subject_id mask_value key found inverse in
      (encrypted, written, read ∙ ap ok (rw (is_json, loads_or_text) refl))
