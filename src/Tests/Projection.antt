-- ===== src/Tests/Projection.antt =====
-- The projector and the aggregates.
use python_event_sourcery.Prelude.{
  ℕ, zero, suc, ◌+◌, Option, none, some, List, [], ◌∷◌, ◌++◌, ◌≡◌, refl, arith, length, ◌≤◌, ◌∙◌,
  ap, string_key, pair_key,
}
use python_event_sourcery.Prelude.Dict.{lookup, insert}
use python_event_sourcery.Errors.{ok}
use python_event_sourcery.Exec.{Exec}
use python_event_sourcery.StreamId.{StreamId, stream_id_key}
use python_event_sourcery.Event.{Event, WrappedEvent, Stamp}
use python_event_sourcery.Event.Json.{end}
use python_event_sourcery.Event.Class.{no_hints, event_name, get_encrypted_fields}
use python_event_sourcery.ReadModel.{row_count}
use python_event_sourcery.ReadModel.Cursors.{IsUnique}
use python_event_sourcery.ReadModel.Projector.{State, LoadStream, read_all, project}
use python_event_sourcery.ReadModel.Missed.{events_from, IsStored, IsTotal, Projected}
use python_event_sourcery.ReadModel.Once.{project-Projected}
use python_event_sourcery.ReadModel.Sequence.{project_all, greatest, project_all-once}
use python_event_sourcery.Repository.{
  Aggregate, WrappedAggregate, load_loop, load_one, new_wrapped, wrap_changes, wrapped_version,
  emit,
}
use python_event_sourcery.Repository.Replay.{emit_all, load_loop-changes}
use python_event_sourcery.Encryption.{encrypt, decrypt}
use python_event_sourcery.Registry.{new_registry, name_for_type, type_for_name}
use python_event_sourcery.Serde.{serialize_many, deserialize_many}
use python_event_sourcery.EventStore
use python_event_sourcery.EventStore.{Store, version, append}
use python_event_sourcery.EventStore.OverMemory.{in_memory}
use python_event_sourcery.InMemory.Strategy.{Strategy, new_strategy, fetch_events, insert_events}
use python_event_sourcery.Event.{RecordedRaw}
use python_event_sourcery.Tests.Data.{order_stream, keep, all_events}
use python_event_sourcery.Tests.Names.{setting, store}

abbrev event : Event
event = record {
  event_type = record {
    ident = 7;
    event_name_attribute = none;
    module_name = some "shop";
    qualname = "Placed";
    hints = no_hints;
    model_fields = [];
  };
  attributes = end;
}

-- The events of a stream, by their versions.
abbrev history : ℕ → WrappedEvent
history v = record { event = event; version = some v; uuid = v; created_at = v; context = end }

-- The event store over the in-memory backend, after an append of three of them.
abbrev written : Store (Strategy (List RecordedRaw))
written =
    (append (in_memory all_events keep) setting (history 1 ∷ history 2 ∷ history 3 ∷ [])
      order_stream (version 0) store).1

abbrev load_stream : LoadStream
load_stream sid start stop =
    (EventStore.load_stream (in_memory all_events keep) setting sid start stop written).0

-- A read model that lists the versions it is shown.
abbrev list_versions : WrappedEvent → StreamId → Exec (List (Option ℕ)) (Unit {0})
list_versions e sid w = (ok tt, w ++ (e.version ∷ []))

total : IsTotal list_versions
unfolding IsTotal
total e sid w = refl

first_part :
    (v : ℕ) → v ≤ 3 → load_stream order_stream none (some (suc v)) ≡ ok (events_from history 1 v)
unfolding append EventStore.load_stream in_memory new_strategy events_from fetch_events lookup
    serialize_many name_for_type new_registry event_name insert encrypt get_encrypted_fields
    insert_events deserialize_many type_for_name decrypt
first_part zero h = refl
first_part (suc zero) h = refl
first_part (suc (suc zero)) h = refl
first_part (suc (suc (suc zero))) h = refl
first_part (suc (suc (suc (suc v)))) h = absurd (omega arith)

part :
    (c n : ℕ)
    → c + n ≤ 3
    → load_stream order_stream (some (suc c)) (some (suc c + n))
      ≡ ok (events_from history (suc c) n)
unfolding append EventStore.load_stream in_memory new_strategy events_from fetch_events lookup
    serialize_many name_for_type new_registry event_name insert encrypt get_encrypted_fields
    insert_events deserialize_many type_for_name decrypt
part zero zero h = refl
part zero (suc zero) h = refl
part zero (suc (suc zero)) h = refl
part zero (suc (suc (suc zero))) h = refl
part (suc zero) zero h = refl
part (suc zero) (suc zero) h = refl
part (suc zero) (suc (suc zero)) h = refl
part (suc (suc zero)) zero h = refl
part (suc (suc zero)) (suc zero) h = refl
part (suc (suc (suc zero))) zero h = refl
part zero (suc (suc (suc (suc n)))) h = absurd (omega arith)
part (suc zero) (suc (suc (suc n))) h = absurd (omega arith)
part (suc (suc zero)) (suc (suc n)) h = absurd (omega arith)
part (suc (suc (suc zero))) (suc n) h = absurd (omega arith)
part (suc (suc (suc (suc c)))) n h = absurd (omega arith)

range :
    (c n start stop : ℕ)
    → start ≡ suc c
    → stop ≡ start + n
    → c + n ≤ 3
    → load_stream order_stream (some start) (some stop) ≡ ok (events_from history (suc c) n)
range c n start stop is_start is_stop h =
    ap (λ i. load_stream order_stream (some start) (some i)) is_stop
    ∙ ap (λ i. load_stream order_stream (some i) (some (i + n))) is_start
    ∙ part c n h

stored : IsStored load_stream order_stream 3 history
stored = record { versioned = λ v h. refl; from_first = first_part; from_version = range }

abbrev fresh : State (List (Option ℕ))
fresh = record { rows = []; world = [] }

none_twice : IsUnique fresh.rows
unfolding IsUnique row_count
none_twice k = omega arith

projected :
    Projected list_versions order_stream total "orders" load_stream history fresh 2 none
      (project list_versions "orders" load_stream (history 3) order_stream fresh)
unfolding lookup
projected =
    project-Projected list_versions order_stream total "orders" load_stream 3 history 2 fresh stored
      (omega arith) none_twice (λ e. ground arith)

shown_once :
    ((project_all list_versions "orders" load_stream order_stream history
        (1 ∷ 2 ∷ 0 ∷ 2 ∷ [])
        fresh).0
      ≡ ok tt)
    × ((project_all list_versions "orders" load_stream order_stream history
          (1 ∷ 2 ∷ 0 ∷ 2 ∷ [])
          fresh).1.world
        ≡ (some 1 ∷ some 2 ∷ some 3 ∷ []))
unfolding lookup greatest events_from read_all
shown_once =
    project_all-once list_versions total "orders" load_stream order_stream 3 history stored
      (1 ∷ 2 ∷ 0 ∷ 2 ∷ []) fresh (omega arith, (omega arith, (omega arith, (omega arith, tt))))
      none_twice refl

-- An aggregate that counts its events.
abbrev count : Event → Exec ℕ (Unit {0})
count e n = (ok tt, suc n)

abbrev one_stamp : Stamp
one_stamp = record { fresh_uuid = 50; now = 60 }

abbrev loaded : WrappedAggregate ℕ
loaded =
    (load_loop count (history 1 ∷ [])
      (new_wrapped (record { attributes = 0; changes = [] }) order_stream none)).1

abbrev changed : Aggregate ℕ
changed = (emit_all count (event ∷ []) loaded.aggregate).1

saved_and_loaded :
    (w' : WrappedAggregate ℕ) × (load_loop count
        ((history 1 ∷ []) ++ wrap_changes (one_stamp ∷ []) loaded.context 2 changed.changes)
        (new_wrapped (record { attributes = 0; changes = [] }) order_stream none)
      ≡ (ok tt, w'))
    × (w'.aggregate.attributes ≡ changed.attributes)
    × (w'.aggregate.changes ≡ [])
    × (wrapped_version (record loaded { aggregate = changed }) ≡ ok (1 + length (event ∷ [])))
    × (w'.stored_version ≡ some (1 + length (event ∷ [])))
unfolding load_loop load_one new_wrapped emit_all emit
saved_and_loaded =
    load_loop-changes count 0 order_stream none (history 1 ∷ []) (event ∷ []) (one_stamp ∷ []) 1
      loaded changed refl refl refl (omega arith)
