-- ===== src/Encryption/Shred.antt =====
-- Crypto-shredding: without its key a subject's data is masked, and no other subject is touched.
use python_event_sourcery.Prelude.{
  String, none, true, false, ◌≡◌, arith, ◌==◌, string_key, pair_key, pair_refl,
}
use python_event_sourcery.Prelude.Dict.{lookup-remove}
use python_event_sourcery.Errors.{ok, err, key_not_found}
use python_event_sourcery.StreamId.{TenantId}
use python_event_sourcery.Event.Json.{Json, text}
use python_event_sourcery.Encryption.{
  Cipher, KeyStorage, get_key, scoped_key_storage, encrypt_value, decrypt_value, shred,
}

get_key-shred :
    (subject_id other : String) (tenant : TenantId) (storage : KeyStorage)
    → get_key other (scoped_key_storage tenant (shred subject_id storage))
      ≡ (elim (◌==◌ {K = TenantId × String} (storage.tenant_id, subject_id) (tenant, other)) [
        | true ↦ none
        | false ↦ get_key other (scoped_key_storage tenant storage)
      ])
unfolding get_key scoped_key_storage shred
get_key-shred subject_id other tenant storage =
    ground (arith, lookup-remove (storage.tenant_id, subject_id) (tenant, other) storage.keys)

-- After the key of a subject is shredded for a tenant, every value of that subject decrypts to its
-- mask, and nothing can be encrypted for it; the keys of every other subject and of the same
-- subject at every other tenant are found as before.
pub shred_lem :
    (c : Cipher) (subject_id : String) (storage : KeyStorage)
    → ((value mask : Json)
        → decrypt_value c (shred subject_id storage) value (text subject_id) mask ≡ ok mask)
      × ((value : Json)
          → encrypt_value c (shred subject_id storage) value (text subject_id) ≡ err key_not_found)
      × ((tenant : TenantId) (other : String)
          → ◌==◌ {K = TenantId × String} (storage.tenant_id, subject_id) (tenant, other) ≡ false
          → get_key other (scoped_key_storage tenant (shred subject_id storage))
            ≡ get_key other (scoped_key_storage tenant storage))
unfolding decrypt_value encrypt_value
shred_lem c subject_id storage =
    let gone : get_key subject_id (shred subject_id storage) ≡ none =
      unfold get_key shred in
      ground (
        arith,
        lookup-remove (storage.tenant_id, subject_id) (storage.tenant_id, subject_id) storage.keys,
        pair_refl (storage.tenant_id, subject_id),
      ) in
    (
      λ value mask. rw (gone, decrypt_value),
      λ value. rw (gone, encrypt_value),
      λ tenant other apart. ground (arith, get_key-shred subject_id other tenant storage),
    )
