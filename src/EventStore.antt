-- ===== src/EventStore.antt =====
-- event_sourcery/_event_store/event_store.py: the interface `StorageStrategy`, and `EventStore`
-- over it and the serde. `expected_version` is a number or `NO_VERSIONING`.
pub mod OverMemory
pub mod LoadStream
use python_event_sourcery.Prelude.{ℕ, suc, ◌+◌, Option, none, some, List, [], ◌∷◌}
use python_event_sourcery.Errors.{Result, ok, err, index_error}
use python_event_sourcery.Exec.{Exec, ◌>>=◌, ◌>>◌, pure, lift}
use python_event_sourcery.StreamId.{StreamId}
use python_event_sourcery.Versioning.{Versioning, no_versioning, explicit_versioning}
use python_event_sourcery.Event.{RawEvent, Event, WrappedEvent, Stamp, wrap}
use python_event_sourcery.Registry.{Registry}
use python_event_sourcery.Serde.{Setting, serialize, serialize_many, deserialize_many}

-- `StorageStrategy`, an object of state S
pub record StorageStrategy {ℓ} (S : Type ℓ) : Type ℓ where
  pub fetch_events : StreamId → Option ℕ → Option ℕ → S → Result (List RawEvent)
  pub insert_events : StreamId → Versioning → List RawEvent → Exec S (Unit {0})
  pub save_snapshot : RawEvent → Exec S (Unit {0})
  pub delete_stream : StreamId → Exec S (Unit {0})
  pub current_position : S → Option ℕ

-- The state behind an `EventStore`.
pub record Store {ℓ} (S : Type ℓ) : Type ℓ where
  pub strategy : S
  pub registry : Registry

pub data ExpectedVersion : Type 0 where
  version : ℕ → ExpectedVersion
  not_versioned : ExpectedVersion

-- `enumerate(events, start=…)` with the `wrap` of each; `stamps` are the answers of the clock and
-- of `uuid4()` in the order of the calls
unfoldable pub wrap_from : List Stamp → ℕ → List Event → List WrappedEvent
unfolding wrap
wrap_from stamps v [] = []
wrap_from [] v (event ∷ events) = []
wrap_from (stamp ∷ stamps) v (event ∷ events) =
    wrap stamp event (some v) none ∷ wrap_from stamps (suc v) events

unfoldable pub wrap_unversioned : List Stamp → List Event → List WrappedEvent
unfolding wrap
wrap_unversioned stamps [] = []
wrap_unversioned [] (event ∷ events) = []
wrap_unversioned (stamp ∷ stamps) (event ∷ events) =
    wrap stamp event none none ∷ wrap_unversioned stamps events

-- `_wrap_events`, and the one for a `Versioning`
unfoldable pub wrap_events : List Stamp → ExpectedVersion → List Event → List WrappedEvent
unfolding wrap_from wrap_unversioned
wrap_events stamps (version expected) events = wrap_from stamps (expected + 1) events
wrap_events stamps not_versioned events = wrap_unversioned stamps events

-- `events[-1].version`
unfoldable pub last_version : List WrappedEvent → Result (Option ℕ)
last_version [] = err index_error
last_version (e ∷ []) = ok e.version
last_version (e ∷ f ∷ rest) = last_version (f ∷ rest)

abbrev pub versioning_of : ExpectedVersion → Option ℕ → Versioning
versioning_of (version expected) new_version = explicit_versioning expected new_version
versioning_of not_versioned new_version = no_versioning

module _ {ℓ} {S : Type ℓ} (storage_strategy : StorageStrategy S) (setting : Setting) where
  abbrev pub on_strategy : Exec S (Unit {0}) → Exec (Store S) (Unit {0})
  on_strategy m s = ((m s.strategy).0, record s { strategy = (m s.strategy).1 })

  abbrev pub on_registry {κ} : {A : Type κ} → Exec Registry A → Exec (Store S) A
  on_registry m s = ((m s.registry).0, record s { registry = (m s.registry).1 })

  unfoldable pub load_stream : StreamId → Option ℕ → Option ℕ → Exec (Store S) (List WrappedEvent)
  load_stream sid start stop s =
      (do
        events ← lift (storage_strategy.fetch_events sid start stop s.strategy)
        on_registry (deserialize_many setting events))
        s

  -- `_append`
  unfoldable pub append : List WrappedEvent → StreamId → ExpectedVersion → Exec (Store S) (Unit {0})
  unfolding last_version
  append events sid expected = do
    new_version ← lift (last_version events)
    raws ← on_registry (serialize_many setting events sid)
    on_strategy (storage_strategy.insert_events sid (versioning_of expected new_version) raws)

  -- `append` of events that are not wrapped
  unfoldable pub append_events :
      List Stamp → List Event → StreamId → ExpectedVersion → Exec (Store S) (Unit {0})
  unfolding wrap_events append
  append_events stamps events sid expected =
      append (wrap_events stamps expected events) sid expected

  unfoldable pub delete_stream : StreamId → Exec (Store S) (Unit {0})
  delete_stream sid = on_strategy (storage_strategy.delete_stream sid)

  unfoldable pub save_snapshot : StreamId → WrappedEvent → Exec (Store S) (Unit {0})
  save_snapshot sid snapshot = do
    serialized ← on_registry (serialize setting snapshot sid)
    on_strategy (storage_strategy.save_snapshot serialized)

  unfoldable pub position : Store S → Option ℕ
  position s = storage_strategy.current_position s.strategy
