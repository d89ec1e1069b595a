-- ===== src/InMemory/Subscription.antt =====
-- `InMemorySubscription`, its two subclasses and `InMemorySubscriptionStrategy` of
-- event_sourcery/_event_store/in_memory.py. The clock enters as the number of rounds of the loop of
-- `__next__` that pass until the time limit is found exceeded.
mod Pop
pub mod Delivery
pub mod Session
use python_event_sourcery.Prelude.{
  ℕ, zero, suc, ◌+◌, String, Option, none, some, Bool, true, false, List, [], ◌∷◌, ◌++◌, length,
  get_elem?, ltb, leb, if◌then◌else◌, ◌==◌, ◌||◌, string_key, option_key,
}
use python_event_sourcery.Errors.{Result, ok, err, index_error, ◌>>=◌}
use python_event_sourcery.Event.{RecordedRaw}
use python_event_sourcery.InMemory.Storage.{Storage, position_or_zero}

-- The three classes.
pub data Kind : Type 0 where
  to_all : Kind
  to_category : String → Kind
  to_event_types : List String → Kind

pub record Subscription : Type 0 where
  pub current_position : ℕ
  pub batch_size : ℕ
  pub kind : Kind

-- `name in names`
abbrev pub member : String → List String → Bool
member x [] = false
member x (y ∷ ys) = x == y || member x ys

-- The records that `_pop_record` of the class does not skip.
abbrev pub wants : Kind → RecordedRaw → Bool
wants to_all r = true
wants (to_category category) r = r.entry.stream_id.category == some category
wants (to_event_types types) r = member r.entry.name types

-- `self._storage.records[i]`
at_index : Option RecordedRaw → ℕ → Result (Option RecordedRaw × ℕ)
at_index none pos = err index_error
at_index (some r) pos = ok (some r, pos + 1)

-- `InMemorySubscription._pop_record`, with the position after it
unfoldable pub pop_any : Storage → ℕ → Result (Option RecordedRaw × ℕ)
unfolding at_index
pop_any s pos =
    if leb (position_or_zero s) pos then ok (none, pos) else at_index (get_elem? s.records pos) pos

-- The `while True` of the subclasses; `none` means that the fuel ran out.
pop_loop : ℕ → (RecordedRaw → Bool) → Storage → ℕ → Option (Result (Option RecordedRaw × ℕ))
pop_loop zero p s pos = none
pop_loop (suc fuel) p s pos = elim (pop_any s pos) [
  | err e ↦ some (err e)
  | ok (none, next) ↦ some (ok (none, next))
  | ok (some r, next) ↦ elim (p r) [
    | true ↦ some (ok (some r, next))
    | false ↦ pop_loop fuel p s next
  ]
]

-- `_pop_record`. A round of the loop moves on by one record, so there are at most as many as
-- records, and one more that finds none.
unfoldable pub pop_record : Kind → Storage → ℕ → Option (Result (Option RecordedRaw × ℕ))
unfolding pop_loop pop_any
pop_record kind s pos = pop_loop (suc (length s.records)) (wants kind) s pos

-- The loop of `__next__`, with the rounds that the time limit allows, on the batch so far.
fill : ℕ → ℕ → Kind → Storage → List RecordedRaw → ℕ → Option (Result (List RecordedRaw × ℕ))
fill zero size kind s batch pos = some (ok (batch, pos))
fill (suc rounds) size kind s batch pos = elim (ltb (length batch) size) [
  | false ↦ some (ok (batch, pos))
  | true ↦ elim (pop_record kind s pos) [
    | none ↦ none
    | some (err e) ↦ some (err e)
    | some (ok (none, next)) ↦ fill rounds size kind s batch next
    | some (ok (some r, next)) ↦ fill rounds size kind s (batch ++ r ∷ []) next
  ]
]

-- The new subscription beside the batch.
moved_to : Subscription → List RecordedRaw × ℕ → List RecordedRaw × Subscription
moved_to sub (batch, pos) = (batch, record sub { current_position = pos })

answer :
    Subscription
    → Option (Result (List RecordedRaw × ℕ))
    → Option (Result (List RecordedRaw × Subscription))
unfolding moved_to
answer sub none = none
answer sub (some r) = some (r >>= λ polled. ok (moved_to sub polled))

-- `__next__`: the clock is read after a round, so one round is always made.
unfoldable pub next_batch :
    ℕ → Storage → Subscription → Option (Result (List RecordedRaw × Subscription))
unfolding fill pop_record answer
next_batch rounds s sub =
    answer sub (fill (suc rounds) sub.batch_size sub.kind s [] sub.current_position)

-- `subscribe_to_all`, `subscribe_to_category`, `subscribe_to_events`
unfoldable pub subscribe : Kind → ℕ → ℕ → Subscription
subscribe kind start_from batch_size = record {
  current_position = start_from;
  batch_size = batch_size;
  kind = kind;
}
