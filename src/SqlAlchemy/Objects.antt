-- ===== src/SqlAlchemy/Objects.antt =====
-- The objects that a session keeps, see `session.info["strong_set"]` in
-- event_sourcery_sqlalchemy/event_store.py.
use python_event_sourcery.Prelude.{
  ℕ, none, some, Bool, true, false, List, [], ◌∷◌, ◌++◌, find, is_some, if◌then◌else◌, ◌≡◌, ◌∙◌, ap,
  refl, arith, Bool-cases, Option-cases, inl, inr, ◌⊎◌, ◌↔◌, ◌==◌, nat_key, string_key, nat_beq_iff,
  string_iff,
}
use python_event_sourcery.Errors.{ok}
use python_event_sourcery.StreamId.{StreamId, TenantId}
use python_event_sourcery.Tables.{StreamRow}
use python_event_sourcery.Tables.Rows.{In, find-some}
use python_event_sourcery.SqlAlchemy.{is_object, object_of, add_object}

-- A set is iterated over its objects, each of them once.
pub record IsIteration (iterate : List StreamRow → List StreamRow) : Type 0 where
  pub found_in :
      (p : StreamRow → Bool) (objects : List StreamRow) (o : StreamRow)
      → find p (iterate objects) ≡ some o
      → In o objects × (p o ≡ true)
  pub none_in :
      (p : StreamRow → Bool) (objects : List StreamRow)
      → find p (iterate objects) ≡ none
      → find p objects ≡ none

find-none :
    (p : StreamRow → Bool) (rows : List StreamRow) (r : StreamRow)
    → find p rows ≡ none
    → In r rows
    → p r ≡ false
find-none p [] r h k = absurd k
find-none p (x ∷ rest) r h (inl e) = elim (Bool-cases (p x)) [
  | inl met ↦ absurd (ground arith)
  | inr unmet ↦ ap p e ∙ unmet
]
find-none p (x ∷ rest) r h (inr k) = find-none p rest r (ground arith) k

In-append_one :
    (x r : StreamRow) (rows : List StreamRow) → In x (rows ++ r ∷ []) → In x rows ⊎ (x ≡ r)
In-append_one x r [] (inl e) = inr e
In-append_one x r [] (inr k) = absurd k
In-append_one x r (y ∷ rest) (inl e) = inl (inl e)
In-append_one x r (y ∷ rest) (inr k) = elim (In-append_one x r rest k) [
  | inl l ↦ inl (inr l)
  | inr e ↦ inr e
]

In-last : (r : StreamRow) (rows : List StreamRow) → In r (rows ++ r ∷ [])
In-last r [] = inl refl
In-last r (x ∷ rest) = inr (In-last r rest)

-- The objects after `add`: those before and the one added.
pub In-add_object :
    (x r : StreamRow) (objects : List StreamRow)
    → In x (add_object r objects)
    → In x objects ⊎ (x ≡ r)
unfolding add_object
In-add_object x r objects h = by_test (is_some (find (λ o. o.id == r.id) objects)) h
  where
    by_test : (b : Bool) → In x (if b then objects else objects ++ r ∷ []) → In x objects ⊎ (x ≡ r)
    by_test true k = inl k
    by_test false k = In-append_one x r objects k

-- One of them has the number of the one added.
pub In-add_object_id :
    (r : StreamRow) (objects : List StreamRow)
    → (o : StreamRow) × In o (add_object r objects) × (o.id ≡ r.id)
unfolding add_object
In-add_object_id r objects = elim (Option-cases (find (λ o. o.id == r.id) objects)) [
  | inl missing ↦ (r, rw missing (In-last r objects), refl)
  | inr (o, there) ↦
      let (within, same) = find-some (λ o. o.id == r.id) objects o there in
      (o, rw there within, (nat_beq_iff o.id r.id).0 same)
]

module _ (iterate : List StreamRow → List StreamRow) (promised : IsIteration iterate)
    (sid : StreamId) (tenant : TenantId) (id : ℕ) where
  -- The objects for the identifier and the tenant are those with the number.
  abbrev pub AreObjects : List StreamRow → Type 0
  AreObjects objects =
      (o : StreamRow) → In o objects → (is_object sid tenant o ≡ true) ↔ (o.id ≡ id)

  -- If there is one, `first_true` finds one.
  pub object_of-AreObjects :
      (objects : List StreamRow) (there : StreamRow)
      → AreObjects objects
      → In there objects
      → there.id ≡ id
      → (o : StreamRow) × (object_of iterate sid tenant objects ≡ ok o)
        × (o.id ≡ id)
        × (o.tenant_id ≡ tenant)
  unfolding object_of
  object_of-AreObjects objects there own within same =
      elim (Option-cases (find (is_object sid tenant) (iterate objects))) [
        | inl missing ↦
            let not_there =
              find-none (is_object sid tenant) objects there
                (promised.none_in (is_object sid tenant) objects missing) within in
            absurd (ground (arith, (own there within).1 same))
        | inr (o, found) ↦
            let (held, met) = promised.found_in (is_object sid tenant) objects o found in
            let same_tenant : o.tenant_id == tenant ≡ true = ground arith in
            (o, rw found refl, (own o held).0 met, (string_iff o.tenant_id tenant).0 same_tenant)
      ]

pub AreObjects-add_object :
    (sid : StreamId) (tenant : TenantId) (row : StreamRow) (objects : List StreamRow)
    → ((o : StreamRow) → In o objects → (is_object sid tenant o ≡ true) ↔ (o.id ≡ row.id))
    → is_object sid tenant row ≡ true
    → (o : StreamRow) → In o (add_object row objects)
    → (is_object sid tenant o ≡ true) ↔ (o.id ≡ row.id)
AreObjects-add_object sid tenant row objects own met o within =
    elim (In-add_object o row objects within) [
      | inl before ↦ own o before
      | inr added ↦ (λ h. ap (λ r. r.id) added, λ h. ap (is_object sid tenant) added ∙ met)
    ]
