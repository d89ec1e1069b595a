-- ===== src/Tests/Log.antt =====
-- The log of the in-memory backend: ranges, subscriptions and the outbox.
use python_event_sourcery.Prelude.{none, some, true, List, [], ◌∷◌, ◌++◌, ◌+◌, ◌≡◌, refl, arith}
use python_event_sourcery.Prelude.Dict.{lookup, insert}
use python_event_sourcery.Errors.{ok, err, value_error}
use python_event_sourcery.Exec.{Exec}
use python_event_sourcery.StreamId.{default_tenant}
use python_event_sourcery.Event.{RecordedRaw}
use python_event_sourcery.InMemory.Strategy.{insert_events, fetch_from, new_strategy}
use python_event_sourcery.InMemory.Ranges.{fetch_from-in_range}
use python_event_sourcery.InMemory.Subscription.{Subscription, to_all, subscribe, next_batch}
use python_event_sourcery.InMemory.Subscription.Delivery.{
  Delivered, wanted_from, next_batch-Delivered,
}
use python_event_sourcery.InMemory.Subscription.Session.{Session, opened, polled, delivered-Session}
use python_event_sourcery.InMemory.Reachable.{
  Reachable, fresh, next, inserts, publish, publish-Reachable, position-Reachable,
}
use python_event_sourcery.Registry.{no_more}
use python_event_sourcery.Serde.{Setting}
use python_event_sourcery.Tests.Data.{
  order_stream, raw_event, keep, all_events, first_write, empty_backend, backend, backend-IsValid,
  fields_key,
}

abbrev first_record : RecordedRaw
first_record = record { entry = raw_event 1 (some 1); position = 1; tenant_id = default_tenant }

in_range :
    fetch_from default_tenant order_stream (some 1) (some 2) backend.storage
    ≡ ok (raw_event 1 (some 1) ∷ [])
unfolding insert_events new_strategy lookup insert
in_range =
    fetch_from-in_range default_tenant order_stream (some 1) (some 2) backend.storage
      (refl, refl, tt)

abbrev from_start : Subscription
from_start = subscribe to_all 0 10

one_poll : Delivered 3 backend.storage from_start
one_poll = next_batch-Delivered 3 backend.storage from_start backend-IsValid

session :
    Session
      (subscribe to_all 0 10)
      backend.storage
      (subscribe to_all 1 10)
      ([] ++ (first_record ∷ []))
unfolding insert_events new_strategy lookup insert next_batch subscribe
session = polled (opened backend.storage backend-IsValid (omega arith)) 0 refl

delivered_once :
    ([] ++ (first_record ∷ []))
      ++ wanted_from
          (subscribe to_all 1 10).kind
          backend.storage
          (subscribe to_all 1 10).current_position
    ≡ wanted_from
        (subscribe to_all 0 10).kind
        backend.storage
        (subscribe to_all 0 10).current_position
unfolding subscribe
delivered_once = delivered-Session session

-- A publisher that fails, and says so.
abbrev failing : RecordedRaw → Exec (List RecordedRaw) (Unit {0})
failing r sent = (err value_error, r ∷ sent)

reached : Reachable 2 all_events keep backend
reached =
    next (fresh true [])
      (inserts empty_backend order_stream first_write (raw_event 1 (some 1) ∷ []))

first_position : first_record.position ≡ 0 + 1
unfolding insert_events new_strategy lookup insert
first_position = position-Reachable 2 all_events keep reached 0 refl

published : publish 2 all_events keep failing 1 ((first_record, 0) ∷ []) backend ≡ (
  ok tt,
  record backend {
    outbox = some ((first_record, 1) ∷ []);
    dispatched = first_record ∷ first_record ∷ [];
  },
)
unfolding insert_events new_strategy lookup insert
published = publish-Reachable 2 all_events keep reached ((first_record, 0) ∷ []) failing 1 refl

-- A serde that knows no class.
abbrev setting : Setting
setting = record {
  cipher = record {
    encipher = λ t key. t;
    decipher = λ v key. ok v;
    loads = λ t. none;
    dumps = λ v. "";
  };
  key_storage = record { keys = []; tenant_id = "" };
  defined = no_more;
  construct = λ cls d. err value_error;
}
