-- ===== src/Tests/Orders.antt =====
-- A database that sorts rows by insertion, and that it keeps to its orders.
use python_event_sourcery.Prelude.{
  ℕ, ◌<◌, Option, none, some, Bool, true, false, List, [], ◌∷◌, ◌++◌, leb, ltb, ◌≡◌, ap, refl,
  arith, if◌then◌else◌, ◌∙◌,
}
use python_event_sourcery.Tables.{EventRow, SnapshotRow, StreamRow, RowOrder, first_row}
use python_event_sourcery.Tables.Rows.{IsUpTo, IsOlder, IsRowOrder, find-some}
use python_event_sourcery.SqlAlchemy.Objects.{IsIteration}

-- Nulls come first.
abbrev not_after : Option ℕ → Option ℕ → Bool
not_after none w = true
not_after (some v) none = false
not_after (some v) (some w) = leb v w

insert_event : EventRow → List EventRow → List EventRow
insert_event e [] = e ∷ []
insert_event e (x ∷ rest) =
    let later = insert_event e rest in
    if not_after e.version x.version then e ∷ x ∷ rest else x ∷ later

sort_events : List EventRow → List EventRow
unfolding insert_event
sort_events [] = []
sort_events (e ∷ rest) = insert_event e (sort_events rest)

insert_snapshot : SnapshotRow → List SnapshotRow → List SnapshotRow
insert_snapshot s [] = s ∷ []
insert_snapshot s (x ∷ rest) =
    let later = insert_snapshot s rest in
    if ltb s.created_at x.created_at then x ∷ later else s ∷ x ∷ rest

sort_snapshots : List SnapshotRow → List SnapshotRow
unfolding insert_snapshot
sort_snapshots [] = []
sort_snapshots (s ∷ rest) = insert_snapshot s (sort_snapshots rest)

unfoldable pub sorting : RowOrder
unfolding sort_events sort_snapshots
sorting = record { by_version = sort_events; by_created_at_desc = sort_snapshots }

insert_event-lowest :
    (e : EventRow) (w v : ℕ) (rows : List EventRow)
    → e.version ≡ some w
    → IsUpTo w v rows
    → insert_event e rows ≡ e ∷ rows
unfolding insert_event
insert_event-lowest e w v [] h k = refl
insert_event-lowest e w v (x ∷ rest) h k =
    let first : leb w k.0 ≡ true = ground (arith, k.2) in rw (h, k.1) (rw first refl)

sort_events-IsUpTo : (p v : ℕ) (rows : List EventRow) → IsUpTo p v rows → sort_events rows ≡ rows
unfolding sort_events
sort_events-IsUpTo p v [] h = refl
sort_events-IsUpTo p v (e ∷ rest) h =
    ap (insert_event e) (sort_events-IsUpTo h.0 v rest h.3)
    ∙ insert_event-lowest e h.0 v rest h.1 h.3

abbrev time_or_zero : Option SnapshotRow → ℕ
time_or_zero none = 0
time_or_zero (some s) = s.created_at

first_row-insert_snapshot :
    (x s : SnapshotRow) (rows : List SnapshotRow)
    → x.created_at < s.created_at
    → first_row rows ≡ some s
    → first_row (insert_snapshot x rows) ≡ some s
unfolding insert_snapshot
first_row-insert_snapshot x s [] h k = absurd (ground arith)
first_row-insert_snapshot x s (y ∷ rest) h k =
    let same : y.created_at ≡ s.created_at = ap time_or_zero k in
    let newer : ltb x.created_at y.created_at ≡ true = ground arith in rw newer k

first_row-sort_snapshots :
    (rows : List SnapshotRow) (s : SnapshotRow)
    → IsOlder s.created_at rows
    → first_row (sort_snapshots (rows ++ s ∷ [])) ≡ some s
unfolding insert_snapshot sort_snapshots
first_row-sort_snapshots [] s h = refl
first_row-sort_snapshots (x ∷ rest) s h =
    first_row-insert_snapshot x s (sort_snapshots (rest ++ s ∷ [])) h.0
      (first_row-sort_snapshots rest s h.1)

pub sorting-IsRowOrder : IsRowOrder sorting
unfolding sorting sort_snapshots
sorting-IsRowOrder = record {
  by_version-increasing = sort_events-IsUpTo;
  by_created_at_desc-newest = first_row-sort_snapshots;
  by_created_at_desc-nil = refl;
}

-- A set that is iterated in the order in which its objects came
abbrev pub as_they_came : List StreamRow → List StreamRow
as_they_came objects = objects

pub as_they_came-IsIteration : IsIteration as_they_came
as_they_came-IsIteration = record { found_in = find-some; none_in = λ p objects h. h }
