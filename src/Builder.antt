-- ===== src/Builder.antt =====
-- event_sourcery/_event_store/subscription/builder.py, over the in-memory subscriptions. A time
-- limit is a number of microseconds; the clock enters as for the subscriptions.
pub mod Unpack
use python_event_sourcery.Prelude.{
  ℕ, String, Option, none, some, Bool, true, false, List, [], ◌∷◌, if◌then◌else◌, ltb,
}
use python_event_sourcery.Errors.{Result, ok, err, value_error, type_error, ◌>>=◌}
use python_event_sourcery.Exec.{Exec}
use python_event_sourcery.Event.{RecordedRaw, Recorded}
use python_event_sourcery.Event.Class.{EventClass}
use python_event_sourcery.Registry.{Registry, name_for_type}
use python_event_sourcery.Serde.{Setting, deserialize_record, for_each}
use python_event_sourcery.InMemory.Storage.{Storage}
use python_event_sourcery.InMemory.Subscription.{
  Kind, to_all, to_category, to_event_types, Subscription, subscribe, next_batch,
}

-- `_position`, and `_build` as what is known of its arguments.
pub record SubscriptionBuilder : Type 0 where
  pub position : ℕ
  pub kind : Kind
  pub start : Option ℕ

-- `sys.maxsize`
abbrev pub max_size : ℕ
max_size = 9223372036854775807

abbrev pub new_builder : SubscriptionBuilder
new_builder = record { position = max_size; kind = to_all; start = none }

unfoldable pub start_from : ℕ → SubscriptionBuilder → SubscriptionBuilder
start_from position b = record { position = position; kind = b.kind; start = some position }

unfoldable pub filter_category : String → SubscriptionBuilder → SubscriptionBuilder
filter_category category b = record {
  position = b.position;
  kind = to_category category;
  start = some b.position;
}

-- `to_events`, which asks the registry for the names
unfoldable pub filter_events :
    Setting → List EventClass → SubscriptionBuilder → Exec Registry SubscriptionBuilder
unfolding for_each
filter_events setting events b r =
    let named = for_each (name_for_type setting.defined) events r in
    (
      named.0 >>= λ names.
          ok (record {
            position = b.position;
            kind = to_event_types names;
            start = some b.position;
          }),
      named.1,
    )

-- `_to_timedelta`
unfoldable pub check_time_limit : ℕ → Result ℕ
check_time_limit microseconds = if ltb microseconds 100000 then err value_error else ok microseconds

-- `self._build(…)`, which lacks an argument if `start_from` was not called.
unfoldable pub build : ℕ → SubscriptionBuilder → Result Subscription
unfolding subscribe
build batch_size b = elim b.start [
  | none ↦ err type_error
  | some position ↦ ok (subscribe b.kind position batch_size)
]

-- The subscriptions behind `build_batch` and, with a size of one, `build_iter`.
unfoldable pub build_batch : ℕ → ℕ → SubscriptionBuilder → Result Subscription
unfolding check_time_limit build
build_batch size time_limit b = do limit ← check_time_limit time_limit; build size b

module _ (setting : Setting) where
  -- A turn of the loop of `_single_event_unpack`, on what `next` returned.
  unfoldable pub unpack_one :
      List RecordedRaw × Subscription → Exec Registry (Option Recorded × Subscription)
  unfolding deserialize_record
  unpack_one ([], sub) r = (ok (none, sub), r)
  unpack_one (raw ∷ rest, sub) r =
      let read = deserialize_record setting raw r in
      (read.0 >>= λ recorded. ok (some recorded, sub), read.1)

  abbrev pub unpack :
      Result (List RecordedRaw × Subscription) → Exec Registry (Option Recorded × Subscription)
  unpack (ok polled) r = unpack_one polled r
  unpack (err e) r = (err e, r)

  -- `next` of the iterator that `build_iter` made; none if the fuel of the subscription ran out.
  unfoldable pub next_event :
      ℕ → Storage → Subscription → Option (Exec Registry (Option Recorded × Subscription))
  unfolding next_batch
  next_event rounds s sub = elim (next_batch rounds s sub) [
    | none ↦ none
    | some answer ↦ some (unpack answer)
  ]
