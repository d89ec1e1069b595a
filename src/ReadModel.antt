-- ===== src/ReadModel.antt =====
-- event_sourcery/read_model/: the projector, over the cursors of
-- event_sourcery_sqlalchemy/cursors_dao.py. The table is the list of its rows; a condition on the
-- name, the stream and the category is a comparison of keys, where NULL is the missing category.
pub mod Projector
pub mod Cursors
pub mod Projected
pub mod Missed
pub mod Once
pub mod Sequence
use python_event_sourcery.Prelude.{
  ℕ, zero, suc, ◌+◌, String, Option, none, some, Bool, true, false, ◌&&◌, List, [], ◌∷◌, ◌++◌,
  if◌then◌else◌, ltb, is_some, Key, ◌==◌, nat_key, string_key, pair_key,
}
use python_event_sourcery.Prelude.Dict.{lookup, contains}
use python_event_sourcery.Errors.{
  Result, ok, err, stream_not_tracked, behind_stream, ahead_of_stream, integrity_error,
}
use python_event_sourcery.Exec.{Exec}
use python_event_sourcery.StreamId.{StreamId, stream_id_key}

abbrev pub CursorKey : Type 0
CursorKey = String × StreamId

-- The table of cursors: a row is the name of the projector and the stream, with the version.
abbrev pub Rows : Type 0
Rows = List (CursorKey × ℕ)

module _ {ℓ} {K : Type ℓ} ⦃key : Key K⦄ where
  -- The number of rows under a condition, `result.rowcount`.
  unfoldable pub row_count : (K × ℕ → Bool) → List (K × ℕ) → ℕ
  row_count p [] = 0
  row_count p (r ∷ rows) = (if p r then 1 else 0) + row_count p rows

  -- `update(…).where(p).values(version)`
  unfoldable pub update_where : (K × ℕ → Bool) → ℕ → List (K × ℕ) → List (K × ℕ)
  update_where p version [] = []
  update_where p version (r ∷ rows) =
      (if p r then (r.0, version) else r) ∷ update_where p version rows

  abbrev pub row_of : K → K × ℕ → Bool
  row_of k r = r.0 == k

  -- The condition of the update in `increment`, of a version one less.
  abbrev pub at_previous : K → ℕ → K × ℕ → Bool
  at_previous k zero r = false
  at_previous k (suc p) r = (r.0 == k) && (r.1 == p)

-- `insert(…)` under the unique index of the table, to which a category of NULL is never equal.
unfoldable pub insert_row : CursorKey → ℕ → Exec Rows (Unit {0})
insert_row k version rows =
    if is_some k.1.category && contains k rows
    then (err integrity_error, rows)
    else (ok tt, rows ++ ((k, version) ∷ []))

-- `_current_version`
abbrev pub current_version : CursorKey → Rows → Option ℕ
current_version k rows = lookup k rows

abbrev pub refusal : Option ℕ → ℕ → Result (Unit {0})
refusal none version = err stream_not_tracked
refusal (some current) version =
    if ltb current version then err (behind_stream current) else err (ahead_of_stream current)

unfoldable pub first_increment : CursorKey → ℕ → Exec Rows (Unit {0})
unfolding insert_row
first_increment k version rows = elim (current_version k rows) [
  | none ↦ insert_row k version rows
  | some current ↦ (err (ahead_of_stream current), rows)
]

unfoldable pub next_increment : CursorKey → ℕ → Exec Rows (Unit {0})
next_increment k version rows =
    let updated = update_where (at_previous k version) version rows in
    if row_count (at_previous k version) rows == 1
    then (ok tt, updated)
    else (refusal (current_version k updated) version, updated)

unfoldable pub increment : CursorKey → ℕ → Exec Rows (Unit {0})
increment k version rows =
    if version == 1 then first_increment k version rows else next_increment k version rows

unfoldable pub put_at : CursorKey → ℕ → Exec Rows (Unit {0})
put_at k version rows = insert_row k version rows

unfoldable pub move_to : CursorKey → ℕ → Exec Rows (Unit {0})
move_to k version rows = (ok tt, update_where (row_of k) version rows)
