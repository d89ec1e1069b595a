-- ===== src/Errors.antt =====
-- exceptions.py and the exceptions that the other files declare or that Python raises, one
-- constructor to a class. A pure function that may raise returns a `Result`.
use python_event_sourcery.Prelude.{ℕ, String, Option, List, [], ◌∷◌, ◌≡◌, ◌⊎◌, inl, inr, refl}

pub data Error : Type 0 where
  concurrent_stream_write : Option ℕ → ℕ → Error
  concurrent_stream_write_without_arguments : Error
  another_stream_with_this_name_but_other_id_exists : Error
  illegal_category_name : Error
  illegal_tenant_id : Error
  expected_version_used_on_versionless_stream : Error
  no_expected_version_given_on_versioned_stream : Error
  incompatible_uuid_and_name : ℕ → ℕ → String → Error
  class_module_unavailable : Error
  duplicated_event : String → Error
  key_not_found : Error
  no_subject_id_found : ℕ → Error
  no_provider_configured : String → Error
  stream_not_tracked : Error
  behind_stream : ℕ → Error
  ahead_of_stream : ℕ → Error
  cant_project_unversioned_event : Error
  key_error : Error
  attribute_error : Error
  index_error : Error
  value_error : Error
  type_error : Error
  integrity_error : Error
  does_not_exist : Error
  multiple_objects_returned : Error
  no_result_found : Error
  multiple_results_found : Error
  raised : ℕ → Error

pub data Result {ℓ} (A : Type ℓ) : Type ℓ where
  ok : A → Result A
  err : Error → Result A

infixl 10 ◌>>=◌ ◌>>◌
abbrev pub ◌>>=◌ {ℓ κ} : {A : Type ℓ} {B : Type κ} → Result A → (A → Result B) → Result B
ok x >>= next = next x
err e >>= next = err e

abbrev pub ◌>>◌ {ℓ} : {B : Type ℓ} → Result (Unit {0}) → Result B → Result B
m >> k = m >>= λ _. k

-- `[f(x) for x in xs]`, where `f` may raise
unfoldable pub traverse {ℓ κ} :
    {A : Type ℓ} {B : Type κ} → (A → Result B) → List A → Result (List B)
traverse f [] = ok []
traverse f (x ∷ xs) = do y ← f x; ys ← traverse f xs; ok (y ∷ ys)

pub Result-cases {ℓ} :
    {A : Type ℓ} (r : Result A) → ((a : A) × (r ≡ ok a)) ⊎ ((e : Error) × (r ≡ err e))
Result-cases (ok a) = inl (a, refl)
Result-cases (err e) = inr (e, refl)
