-- ===== src/Tests/Values.antt =====
-- Encryption of single values.
use python_event_sourcery.Prelude.{
  String, Option, none, some, true, false, [], ◌≡◌, ◌==◌, string_key, pair_key,
}
use python_event_sourcery.Errors.{Result, ok, err, key_not_found}
use python_event_sourcery.StreamId.{TenantId}
use python_event_sourcery.Event.Json.{Json, text, number, pos}
use python_event_sourcery.Encryption.{
  Cipher, KeyStorage, get_key, store_key, scoped_key_storage, encrypt_value, decrypt_value, shred,
}
use python_event_sourcery.Encryption.Shred.{shred_lem}

abbrev same_text : Json → String → Result Json
same_text v key = ok v

abbrev number_or_none : String → Option Json
number_or_none t = elim (t == "123") [ true ↦ some (number (pos 123)) | false ↦ none ]

abbrev cipher : Cipher
cipher = record {
  encipher = λ t key. t;
  decipher = same_text;
  loads = number_or_none;
  dumps = λ v. "";
}

abbrev storage : KeyStorage
storage = store_key "bob" "k1" (record { keys = []; tenant_id = "" })

shredded :
    ((value mask : Json)
      → decrypt_value cipher (shred "bob" storage) value (text "bob") mask ≡ ok mask)
    × ((value : Json)
        → encrypt_value cipher (shred "bob" storage) value (text "bob") ≡ err key_not_found)
    × ((tenant : TenantId) (other : String)
        → ◌==◌ {K = TenantId × String} (storage.tenant_id, "bob") (tenant, other) ≡ false
        → get_key other (scoped_key_storage tenant (shred "bob" storage))
          ≡ get_key other (scoped_key_storage tenant storage))
shredded = shred_lem cipher "bob" storage
