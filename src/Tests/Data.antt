-- ===== src/Tests/Data.antt =====
-- The events, streams and backends of the runs.
use python_event_sourcery.Prelude.{
  ℕ, Option, none, some, Bool, true, List, [], ◌∷◌, ◌++◌, refl, Key,
}
use python_event_sourcery.Errors.{ok}
use python_event_sourcery.Exec.{Exec}
use python_event_sourcery.StreamId.{StreamId}
use python_event_sourcery.Versioning.{Versioning, explicit_versioning}
use python_event_sourcery.Event.{RawEvent, RecordedRaw}
use python_event_sourcery.Event.Json.{Fields, end}
use python_event_sourcery.InMemory.Strategy.{Strategy, insert_events, new_strategy}
use python_event_sourcery.InMemory.Storage.Valid.{IsValid, IsValid-new}
use python_event_sourcery.InMemory.Invariant.{insert_events-IsValid}

abbrev pub order_stream : StreamId
order_stream = record { uuid = 1; name = none; category = some "orders" }

abbrev pub other_stream : StreamId
other_stream = record { uuid = 2; name = none; category = some "orders" }

abbrev pub raw_event : ℕ → Option ℕ → RawEvent
raw_event uuid version = record {
  uuid = uuid;
  stream_id = order_stream;
  created_at = 100;
  name = "Placed";
  data_fields = end;
  context = end;
  version = version;
}

-- A dispatcher that keeps what it was given.
abbrev pub keep : List RecordedRaw → Exec (List RecordedRaw) (Unit {0})
keep records sent = (ok tt, sent ++ records)

abbrev pub all_events : RawEvent → Bool
all_events e = true

abbrev pub empty_backend : Strategy (List RecordedRaw)
empty_backend = new_strategy true []

abbrev pub first_write : Versioning
first_write = explicit_versioning 0 (some 1)

-- The backend after one event of the stream, at version 1.
abbrev pub backend : Strategy (List RecordedRaw)
backend =
    (insert_events all_events keep order_stream first_write (raw_event 1 (some 1) ∷ [])
      empty_backend).1

pub empty_backend-IsValid : IsValid empty_backend.storage
unfolding new_strategy
empty_backend-IsValid = IsValid-new

pub backend-IsValid : IsValid backend.storage
backend-IsValid =
    insert_events-IsValid all_events keep order_stream first_write (raw_event 1 (some 1) ∷ [])
      empty_backend empty_backend-IsValid

-- Dictionaries of one kind; the runs have no others.
abbrev one_kind : Fields → Fields → Bool
one_kind a b = true

instance abbrev pub fields_key : Key Fields
fields_key = record {
  same = one_kind;
  same_refl = λ a. refl;
  same_symm = λ a b. refl;
  same_cong = λ a b c h. refl;
}
