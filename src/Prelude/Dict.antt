-- ===== src/Prelude/Dict.antt =====
-- Python's `dict`: an association list in the order of insertion. A write to a key that is there
-- keeps its place and its first key object.
use mathlib.Core.Path.{◌≡◌, refl}
use mathlib.Core.Bool.{Bool, true}
use mathlib.Core.Option.{Option, none, some}
use mathlib.Core.List.{List, [], ◌∷◌}
use native.Mathlib.Omega.{arith}
use python_event_sourcery.Prelude.Tests.{if◌then◌else◌, is_some}
use python_event_sourcery.Prelude.Keys.{Key, ◌==◌}

abbrev pub Dict {ℓ κ} : Type ℓ → Type κ → Type (ℓ ⊔ κ)
Dict K V = List (K × V)

module _ {ℓ κ} {K : Type ℓ} {V : Type κ} ⦃key : Key K⦄ where
  -- `d.get(k)`
  unfoldable pub lookup : K → Dict K V → Option V
  lookup k [] = none
  lookup k ((j, v) ∷ d) = if j == k then some v else lookup k d

  -- `d[k] = v`
  unfoldable pub insert : K → V → Dict K V → Dict K V
  insert k v [] = (k, v) ∷ []
  insert k v ((j, w) ∷ d) = let rest = insert k v d in if j == k then (j, v) ∷ d else (j, w) ∷ rest

  -- `d.pop(k, None)`
  unfoldable pub remove : K → Dict K V → Dict K V
  remove k [] = []
  remove k ((j, w) ∷ d) = let rest = remove k d in if j == k then rest else (j, w) ∷ rest

  -- `k in d`
  abbrev pub contains : K → Dict K V → Bool
  contains k d = is_some (lookup k d)

  pub lookup-insert :
      (k j : K) (v : V) (d : Dict K V)
      → lookup j (insert k v d) ≡ (if k == j then some v else lookup j d)
  unfolding lookup insert
  lookup-insert k j v [] = refl
  lookup-insert k j v ((i, w) ∷ d) = ground (
    arith,
    lookup-insert k j v d,
    key.same_cong i k j,
    key.same_symm i k,
    key.same_symm i j,
    key.same_cong k j i,
  )

  pub lookup-remove :
      (k j : K) (d : Dict K V) → lookup j (remove k d) ≡ (if k == j then none else lookup j d)
  unfolding lookup remove
  lookup-remove k j [] = ground arith
  lookup-remove k j ((i, w) ∷ d) = ground (
    arith,
    lookup-remove k j d,
    key.same_cong i k j,
    key.same_symm i k,
    key.same_symm i j,
    key.same_cong k j i,
  )

  -- A dictionary does not tell equal keys apart.
  pub lookup_congr : (k j : K) (d : Dict K V) → (k == j) ≡ true → lookup k d ≡ lookup j d
  unfolding lookup
  lookup_congr k j [] h = refl
  lookup_congr k j ((i, w) ∷ d) h =
      ground
        (arith, lookup_congr k j d h, key.same_cong k j i, key.same_symm i k, key.same_symm i j)

  pub lookup-insert_self : (k : K) (v : V) (d : Dict K V) → lookup k (insert k v d) ≡ some v
  lookup-insert_self k v d = ground (arith, lookup-insert k k v d, key.same_refl k)

pub ruleset dict_laws = (lookup-insert, lookup-remove)
