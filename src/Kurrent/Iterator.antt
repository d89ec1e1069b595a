-- ===== src/Kurrent/Iterator.antt =====
-- `_iterator` of event_sourcery_kurrentdb/subscription.py. The server's log grows while the iterator
-- is at work; what a subscription that is opened at a position gets of it is the client's, a
-- parameter. A signal is one thing that happens: a record is committed, the open subscription
-- hands out its next record, or its time is over.
pub mod Delivered
pub mod Promised
use python_event_sourcery.Prelude.{
  ℕ, Option, none, some, Bool, true, false, List, [], ◌∷◌, ◌++◌, length, if◌then◌else◌, ◌==◌,
  nat_key,
}
use python_event_sourcery.Event.{RecordedRaw}

pub record Client : Type 0 where
  -- what the subscription wants, by its filter
  pub wants : RecordedRaw → Bool
  -- `builder(commit_position=…)` over the log: the records that are there to be handed out
  pub opened : Option ℕ → List RecordedRaw → List RecordedRaw

pub data Signal : Type 0 where
  commits : RecordedRaw → Signal
  arrives : Signal
  deadline : Signal

pub record Iteration : Type 0 where
  pub server_log : List RecordedRaw
  -- the `commit_position` of the builder
  pub builder : Option ℕ
  -- what the open subscription has still to hand out
  pub subscription : List RecordedRaw
  pub batch : List RecordedRaw
  -- the batches that were yielded
  pub yielded : List (List RecordedRaw)

module _ (client : Client) where
  unfoldable pub begin : Option ℕ → List RecordedRaw → Iteration
  begin start server_log = record {
    server_log = server_log;
    builder = start;
    subscription = client.opened start server_log;
    batch = [];
    yielded = [];
  }

  abbrev pub if_wanted : RecordedRaw → List RecordedRaw
  if_wanted r = if client.wants r then r ∷ [] else []

  -- `if len(batch) == size: yield batch; batch = []`
  unfoldable pub yield_full : ℕ → Iteration → Iteration
  yield_full size s =
      if length s.batch == size
      then record s { batch = []; yielded = s.yielded ++ s.batch ∷ [] }
      else s

  -- The body of the `while`. A subscription with nothing to hand out waits.
  unfoldable pub hand_out : ℕ → List RecordedRaw → Iteration → Iteration
  unfolding yield_full
  hand_out size [] s = s
  hand_out size (r ∷ rest) s =
      yield_full size
        (record s { builder = some r.position; subscription = rest; batch = s.batch ++ r ∷ [] })

  unfoldable pub iterate : ℕ → Signal → Iteration → Iteration
  unfolding hand_out
  iterate size (commits r) s = record s {
    server_log = s.server_log ++ r ∷ [];
    subscription = s.subscription ++ if_wanted r;
  }
  iterate size arrives s = hand_out size s.subscription s
  iterate size deadline s = record s {
    subscription = client.opened s.builder s.server_log;
    batch = [];
    yielded = s.yielded ++ s.batch ∷ [];
  }

  unfoldable pub iterate_all : ℕ → List Signal → Iteration → Iteration
  unfolding iterate
  iterate_all size [] s = s
  iterate_all size (signal ∷ rest) s = iterate_all size rest (iterate size signal s)
