-- ===== src/ReadModel/Cursors.antt =====
-- The cursors that each statement on the table leaves.
use python_event_sourcery.Prelude.{
  ℕ, suc, ◌+◌, ◌≤◌, Option, none, some, Bool, true, false, List, [], ◌∷◌, ◌++◌, if◌then◌else◌, ◌≡◌,
  refl, arith, ◌==◌, nat_key, Key,
}
use python_event_sourcery.Prelude.Dict.{lookup, lookup_congr}
use python_event_sourcery.ReadModel.{row_count, update_where, row_of, at_previous}

-- What an update of the rows at version p makes of a cursor.
abbrev pub bumped : ℕ → ℕ → Option ℕ → Option ℕ
bumped p version none = none
bumped p version (some c) = if c == p then some version else some c

abbrev pub moved : ℕ → Option ℕ → Option ℕ
moved version none = none
moved version (some c) = some version

abbrev pub or_row : Bool → ℕ → Option ℕ → Option ℕ
or_row b version (some c) = some c
or_row true version none = some version
or_row false version none = none

abbrev pub count_at : ℕ → Option ℕ → ℕ
count_at p none = 0
count_at p (some c) = if c == p then 1 else 0

module _ {ℓ} {K : Type ℓ} ⦃key : Key K⦄ where
  -- No two rows are of one projector and one stream.
  unfoldable pub IsUnique : List (K × ℕ) → Type ℓ
  IsUnique rows = (k : K) → row_count (row_of k) rows ≤ 1

  pub row_count-missing :
      (k : K) (rows : List (K × ℕ)) → lookup k rows ≡ none → row_count (row_of k) rows ≡ 0
  unfolding lookup row_count
  row_count-missing k [] h = refl
  row_count-missing k ((j, c) ∷ rows) h = ground (arith, row_count-missing k rows)

  pub row_count-none_at :
      (k : K) (p : ℕ) (rows : List (K × ℕ))
      → row_count (row_of k) rows ≡ 0
      → row_count (at_previous k (suc p)) rows ≡ 0
  unfolding row_count
  row_count-none_at k p [] h = refl
  row_count-none_at k p ((j, c) ∷ rows) h = ground (arith, row_count-none_at k p rows)

  pub row_count-at_previous :
      (k : K) (p : ℕ) (rows : List (K × ℕ))
      → row_count (row_of k) rows ≤ 1
      → row_count (at_previous k (suc p)) rows ≡ count_at p (lookup k rows)
  unfolding row_count lookup
  row_count-at_previous k p [] h = refl
  row_count-at_previous k p ((j, c) ∷ rows) h =
      ground (arith, row_count-at_previous k p rows, row_count-none_at k p rows)

  pub row_count-update_where :
      (j : K) (test : K × ℕ → Bool) (version : ℕ) (rows : List (K × ℕ))
      → row_count (row_of j) (update_where test version rows) ≡ row_count (row_of j) rows
  unfolding row_count update_where
  row_count-update_where j test version [] = refl
  row_count-update_where j test version (r ∷ rows) =
      ground (arith, row_count-update_where j test version rows)

  module _ (k j : K) (version : ℕ) where
    pub lookup-bumped :
        (p : ℕ) (rows : List (K × ℕ))
        → lookup j (update_where (at_previous k (suc p)) version rows)
          ≡ (if k == j then bumped p version (lookup j rows) else lookup j rows)
    unfolding lookup update_where
    lookup-bumped p [] = ground arith
    lookup-bumped p ((i, c) ∷ rows) = ground (
      arith,
      lookup-bumped p rows,
      key.same_cong i k j,
      key.same_symm i k,
      key.same_symm i j,
      key.same_cong k j i,
    )

    pub lookup-moved :
        (rows : List (K × ℕ))
        → lookup j (update_where (row_of k) version rows)
          ≡ (if k == j then moved version (lookup j rows) else lookup j rows)
    unfolding lookup update_where
    lookup-moved [] = ground arith
    lookup-moved ((i, c) ∷ rows) = ground (
      arith,
      lookup-moved rows,
      key.same_cong i k j,
      key.same_symm i k,
      key.same_symm i j,
      key.same_cong k j i,
    )

    pub lookup-new_row :
        (rows : List (K × ℕ))
        → lookup j (rows ++ ((k, version) ∷ [])) ≡ or_row (k == j) version (lookup j rows)
    unfolding lookup
    lookup-new_row [] = ground arith
    lookup-new_row ((i, c) ∷ rows) = ground (arith, lookup-new_row rows)

    row_count-new_row :
        (rows : List (K × ℕ))
        → row_count (row_of j) (rows ++ ((k, version) ∷ []))
          ≡ row_count (row_of j) rows + (if k == j then 1 else 0)
    unfolding row_count
    row_count-new_row [] = ground arith
    row_count-new_row ((i, c) ∷ rows) = ground (arith, row_count-new_row rows)

  pub new_row-IsUnique :
      (k : K) (version : ℕ) (rows : List (K × ℕ))
      → IsUnique rows
      → lookup k rows ≡ none
      → IsUnique (rows ++ ((k, version) ∷ []))
  unfolding IsUnique
  new_row-IsUnique k version rows u h j = ground (
    arith,
    u j,
    row_count-new_row k j version rows,
    row_count-missing j rows,
    lookup_congr k j rows,
  )

  pub update_where-IsUnique :
      (test : K × ℕ → Bool) (version : ℕ) (rows : List (K × ℕ))
      → IsUnique rows
      → IsUnique (update_where test version rows)
  unfolding IsUnique
  update_where-IsUnique test version rows u j =
      ground (arith, u j, row_count-update_where j test version rows)
