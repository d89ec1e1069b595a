-- ===== src/GapDetecting.antt =====
-- event_sourcery_sqlalchemy/subscription.py, and event_sourcery_django/subscription.py, which is
-- the same but for its queries. A table is the list of its committed rows in the order of their
-- ids, which the queries order by. Other transactions commit between two polls of the loop.
pub mod Next
pub mod Gaps
use python_event_sourcery.Prelude.{
  ℕ, zero, suc, ◌+◌, String, Option, none, some, Bool, true, false, ◌&&◌, List, [], ◌∷◌, map, take,
  select, length, if◌then◌else◌, ltb, ◌==◌, nat_key, string_key,
}
use python_event_sourcery.StreamId.{TenantId}
use python_event_sourcery.Event.{RawEvent, RecordedRaw}

-- A row of events, joined with its stream.
pub record DbEvent : Type 0 where
  pub id : ℕ
  pub category : String
  pub tenant_id : TenantId
  pub entry : RawEvent

-- `GetBatchToAll`, `GetBatchToCategory`, `GetBatchToEvents`
pub data GetBatch : Type 0 where
  to_all : GetBatch
  to_category : String → GetBatch
  to_events : List String → GetBatch

abbrev pub member : String → List String → Bool
member s [] = false
member s (x ∷ xs) = if x == s then true else member s xs

abbrev pub selects : GetBatch → DbEvent → Bool
selects to_all row = true
selects (to_category category) row = row.category == category
selects (to_events events) row = member row.entry.name events

-- `where(…).where(id > position).order_by(id).limit(batch_size)`
unfoldable pub get_batch : GetBatch → ℕ → ℕ → List DbEvent → List DbEvent
get_batch kind batch_size position rows =
    take batch_size (select (λ row. selects kind row && ltb position row.id) rows)

-- `batch[-1].id` after the first
unfoldable pub last_id : ℕ → List DbEvent → ℕ
last_id first [] = first
last_id first (row ∷ rows) = last_id row.id rows

-- `batch[-1].id - batch[0].id + 1 == len(batch)`, each side with `batch[0].id` added
unfoldable pub is_continuous : List DbEvent → Bool
unfolding last_id
is_continuous [] = false
is_continuous (a ∷ []) = false
is_continuous (a ∷ b ∷ rows) = (last_id a.id (b ∷ rows) + 1) == (length (a ∷ b ∷ rows) + a.id)

-- `Cursor.advance`
unfoldable pub advance : ℕ → List DbEvent → ℕ
unfolding last_id
advance position [] = position
advance position (row ∷ rows) = last_id row.id rows

unfoldable pub batch_to_recorded_raw : List DbEvent → List RecordedRaw
batch_to_recorded_raw batch =
    map (λ row. record { entry = row.entry; position = row.id; tenant_id = row.tenant_id }) batch

-- One turn of the loop: the rows that the query sees, and whether the time limit is then over.
pub record Poll : Type 0 where
  pub rows : List DbEvent
  pub timed_out : Bool

-- `GapDetectingIterator.__next__` over the turns to come, with the cursor after it; none while it
-- has not returned. The batch is given by its rows, see `batch_to_recorded_raw`.
unfoldable pub next : GetBatch → ℕ → ℕ → List Poll → Option (List DbEvent × ℕ)
unfolding get_batch is_continuous advance
next kind batch_size position [] = none
next kind batch_size position (poll ∷ polls) =
    let batch = get_batch kind batch_size position poll.rows in
    let later = next kind batch_size position polls in
    if is_continuous batch && (length batch == batch_size)
    then some (batch, advance position batch)
    else (if poll.timed_out then some (batch, advance position batch) else later)
