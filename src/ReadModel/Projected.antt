-- ===== src/ReadModel/Projected.antt =====
-- What `increment` answers and leaves, as a function of the cursor alone.
use python_event_sourcery.Prelude.{
  ℕ, zero, suc, Option, none, some, ◌∷◌, [], ◌++◌, if◌then◌else◌, ◌≡◌, refl, arith, subst, ◌==◌,
  nat_key, string_key, pair_key, pair_refl,
}
use python_event_sourcery.Prelude.Dict.{lookup, lookup_congr}
use python_event_sourcery.Errors.{Result, ok, err, stream_not_tracked, ahead_of_stream}
use python_event_sourcery.StreamId.{stream_id_key}
use python_event_sourcery.ReadModel.{
  CursorKey, Rows, update_where, at_previous, row_of, refusal, insert_row, first_increment,
  next_increment, increment, put_at, move_to,
}
use python_event_sourcery.ReadModel.Cursors.{
  IsUnique, bumped, row_count-at_previous, lookup-bumped, lookup-moved, lookup-new_row,
  new_row-IsUnique, update_where-IsUnique,
}

-- What `increment` is to answer on a cursor, for version v + 1.
abbrev pub outcome : Option ℕ → ℕ → Result (Unit {0})
outcome none zero = ok tt
outcome none (suc v) = err stream_not_tracked
outcome (some c) zero = err (ahead_of_stream c)
outcome (some c) (suc v) = if c == suc v then ok tt else refusal (some c) (suc (suc v))

-- Rows in which only the cursor of one key changed, and reads as given.
pub record Moved (k : CursorKey) (before after : Rows) (cursor : Option ℕ) : Type 0 where
  pub unique : IsUnique after
  pub at : (j : CursorKey) → lookup j after ≡ (if k == j then cursor else lookup j before)

module _ (k : CursorKey) (rows : Rows) (u : IsUnique rows) where
  insert_row-missing :
      (version : ℕ)
      → lookup k rows ≡ none
      → insert_row k version rows ≡ (ok tt, rows ++ ((k, version) ∷ []))
  unfolding insert_row
  insert_row-missing version h = ground (arith)

  new_row-Moved :
      (version : ℕ)
      → lookup k rows ≡ none
      → Moved k rows (rows ++ ((k, version) ∷ [])) (some version)
  new_row-Moved version h = record {
    unique = new_row-IsUnique k version rows u h;
    at = λ j. ground (arith, lookup-new_row k j version rows, lookup_congr k j rows);
  }

  pub put_at-Moved :
      (version : ℕ)
      → lookup k rows ≡ none
      → ((put_at k version rows).0 ≡ ok tt) × Moved k rows (put_at k version rows).1 (some version)
  unfolding put_at
  put_at-Moved version h = rw (insert_row-missing version h) (refl, new_row-Moved version h)

  pub move_to-Moved :
      (version : ℕ) (c : ℕ)
      → lookup k rows ≡ some c
      → ((move_to k version rows).0 ≡ ok tt)
        × Moved k rows (move_to k version rows).1 (some version)
  unfolding move_to
  move_to-Moved version c h = (
    refl,
    record {
      unique = update_where-IsUnique (row_of k) version rows u;
      at = λ j. ground (arith, lookup-moved k j version rows, lookup_congr k j rows);
    },
  )

  same-Moved : Moved k rows rows (lookup k rows)
  same-Moved = record { unique = u; at = λ j. ground (arith, lookup_congr k j rows) }

  bump-Moved :
      (p version : ℕ)
      → Moved k rows
          (update_where (at_previous k (suc p)) version rows)
          (bumped p version (lookup k rows))
  bump-Moved p version = record {
    unique = update_where-IsUnique (at_previous k (suc p)) version rows u;
    at = λ j. ground (arith, lookup-bumped k j version p rows, lookup_congr k j rows);
  }

-- The cursor that `increment` leaves, for version v + 1.
abbrev pub cursor_after : Option ℕ → ℕ → Option ℕ
cursor_after none zero = some 1
cursor_after none (suc v) = none
cursor_after (some c) zero = some c
cursor_after (some c) (suc v) = bumped (suc v) (suc (suc v)) (some c)

module _ (k : CursorKey) (rows : Rows) (u : IsUnique rows) where
  first-Moved :
      (cursor : Option ℕ)
      → lookup k rows ≡ cursor
      → ((first_increment k 1 rows).0 ≡ outcome cursor 0)
        × Moved k rows (first_increment k 1 rows).1 (cursor_after cursor 0)
  unfolding first_increment
  first-Moved none h =
      rw (h, first_increment, insert_row-missing k rows u 1 h) (refl, new_row-Moved k rows u 1 h)
  first-Moved (some c) h =
      rw (h, first_increment) (refl, subst (Moved k rows rows) h (same-Moved k rows u))

  next_increment-outcome :
      (v : ℕ) (cursor : Option ℕ)
      → lookup k rows ≡ cursor
      → next_increment k (suc (suc v)) rows
        ≡ (outcome cursor (suc v), update_where (at_previous k (suc (suc v))) (suc (suc v)) rows)
  unfolding next_increment IsUnique
  next_increment-outcome v cursor h = ground (
    arith,
    row_count-at_previous k (suc v) rows,
    u k,
    lookup-bumped k k (suc (suc v)) (suc v) rows,
    pair_refl k,
  )

  next-Moved :
      (v : ℕ) (cursor : Option ℕ)
      → lookup k rows ≡ cursor
      → ((next_increment k (suc (suc v)) rows).0 ≡ outcome cursor (suc v))
        × Moved k rows (next_increment k (suc (suc v)) rows).1 (cursor_after cursor (suc v))
  unfolding next_increment
  next-Moved v cursor h = rw (next_increment-outcome v cursor h) (
    refl,
    subst (Moved k rows (update_where (at_previous k (suc (suc v))) (suc (suc v)) rows))
        (ground (arith)) (bump-Moved k rows u (suc v) (suc (suc v))),
  )

  pub increment-Moved :
      (v : ℕ)
      → ((increment k (suc v) rows).0 ≡ outcome (lookup k rows) v)
        × Moved k rows (increment k (suc v) rows).1 (cursor_after (lookup k rows) v)
  unfolding increment
  increment-Moved zero = first-Moved (lookup k rows) refl
  increment-Moved (suc v) =
      let later : increment k (suc (suc v)) rows ≡ next_increment k (suc (suc v)) rows =
        ground (arith) in
      rw later (next-Moved v (lookup k rows) refl)

pub Moved-trans :
    (k : CursorKey) (a b c : Rows) (before after : Option ℕ)
    → Moved k a b before
    → Moved k b c after
    → Moved k a c after
Moved-trans k a b c before after f g = record {
  unique = g.unique;
  at = λ j. ground (arith, f.at j, g.at j);
}

-- The changed cursor itself.
pub Moved-at :
    (k : CursorKey) (a b : Rows) (cursor : Option ℕ) → Moved k a b cursor → lookup k b ≡ cursor
Moved-at k a b cursor f = ground (arith, f.at k, pair_refl k)
