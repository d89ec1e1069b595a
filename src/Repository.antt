-- ===== src/Repository.antt =====
-- event_sourcery/event_sourcing/aggregate.py and repository.py. What a subclass of `Aggregate` adds
-- is its state and `__apply__`, which may raise; an aggregate without `_changes` has none.
pub mod Replay
use python_event_sourcery.Prelude.{
  ℕ, zero, suc, ◌+◌, String, Option, none, some, Bool, List, [], ◌∷◌, ◌++◌, length, ◌==◌, nat_key,
  option_key,
}
use python_event_sourcery.Errors.{Result, ok, err, type_error}
use python_event_sourcery.Exec.{Exec, ◌>>=◌, ◌>>◌, pure, lift, modify}
use python_event_sourcery.StreamId.{StreamUuid, StreamId, UuidLibrary, stream_id}
use python_event_sourcery.Event.{Event, WrappedEvent, Stamp, wrap, context_or_empty}
use python_event_sourcery.Event.Json.{Fields}
use python_event_sourcery.Serde.{Setting}
use python_event_sourcery.EventStore.{StorageStrategy, Store, ExpectedVersion, load_stream, append}

pub record Aggregate {ℓ} (A : Type ℓ) : Type ℓ where
  pub attributes : A
  pub changes : List Event

-- `stored_version` is `None` after an event that has no version, in spite of its type.
pub record WrappedAggregate {ℓ} (A : Type ℓ) : Type ℓ where
  pub aggregate : Aggregate A
  pub stream_id : StreamId
  pub context : Fields
  pub stored_version : Option ℕ
  pub created_at : Option ℕ
  pub updated_at : Option ℕ

-- `self.stored_version + …`
abbrev pub plus : Option ℕ → ℕ → Result ℕ
plus none n = err type_error
plus (some v) n = ok (v + n)

unfoldable pub wrapped_version {ℓ} : {A : Type ℓ} → WrappedAggregate A → Result ℕ
wrapped_version w = plus w.stored_version (length w.aggregate.changes)

unfoldable pub is_new {ℓ} : {A : Type ℓ} → WrappedAggregate A → Bool
is_new w = w.stored_version == some 0

abbrev pub or_first : Option ℕ → ℕ → Option ℕ
or_first none t = some t
or_first (some c) t = some c

module _ {ℓ} {A : Type ℓ} (apply : Event → Exec A (Unit {0})) where
  abbrev pub on_attributes : Exec A (Unit {0}) → Exec (Aggregate A) (Unit {0})
  on_attributes m a = ((m a.attributes).0, record a { attributes = (m a.attributes).1 })

  -- `_emit`
  unfoldable pub emit : Event → Exec (Aggregate A) (Unit {0})
  emit event = do
    on_attributes (apply event)
    modify (λ a. record a { changes = a.changes ++ (event ∷ []) })

  abbrev pub on_aggregate : Exec A (Unit {0}) → Exec (WrappedAggregate A) (Unit {0})
  on_aggregate m w =
      let done = on_attributes m w.aggregate in (done.0, record w { aggregate = done.1 })

  -- The stored version and the times that an envelope leaves.
  abbrev pub stamped : WrappedEvent → WrappedAggregate A → WrappedAggregate A
  stamped envelope w = record w {
    stored_version = envelope.version;
    created_at = or_first w.created_at envelope.created_at;
    updated_at = some envelope.created_at;
  }

  -- The body of the loop of `_load`.
  unfoldable pub load_one : WrappedEvent → Exec (WrappedAggregate A) (Unit {0})
  load_one envelope = do on_aggregate (apply envelope.event); modify (stamped envelope)

  unfoldable pub load_loop : List WrappedEvent → Exec (WrappedAggregate A) (Unit {0})
  load_loop [] = pure tt
  load_loop (envelope ∷ rest) = load_one envelope >> load_loop rest

-- `WrappedAggregate(aggregate=…, stream_id=…, context=…)`
unfoldable pub new_wrapped {ℓ} :
    {A : Type ℓ} → Aggregate A → StreamId → Option Fields → WrappedAggregate A
new_wrapped aggregate sid context = record {
  aggregate = aggregate;
  stream_id = sid;
  context = context_or_empty context;
  stored_version = some 0;
  created_at = none;
  updated_at = none;
}

-- The wrapped changes, with versions from `start_from` on.
unfoldable pub wrap_changes : List Stamp → Fields → ℕ → List Event → List WrappedEvent
unfolding wrap
wrap_changes stamps context v [] = []
wrap_changes [] context v (event ∷ events) = []
wrap_changes (stamp ∷ stamps) context v (event ∷ events) =
    wrap stamp event (some v) (some context) ∷ wrap_changes stamps context (suc v) events

module _ {ℓ κ} {S : Type ℓ} {A : Type κ} (storage_strategy : StorageStrategy S) (setting : Setting)
    (apply : Event → Exec A (Unit {0})) where
  -- `_load`
  unfoldable pub load : WrappedAggregate A → Exec (Store S) (Result (Unit {0}) × WrappedAggregate A)
  unfolding load_loop
  load w = do
    stream ← load_stream storage_strategy setting w.stream_id none none
    pure (load_loop apply stream w)

  append_unless_empty : List WrappedEvent → StreamId → ℕ → Exec (Store S) (Unit {0})
  append_unless_empty [] sid stored = pure tt
  append_unless_empty (e ∷ rest) sid stored =
      append storage_strategy setting (e ∷ rest) sid (ExpectedVersion.version stored)

  -- `_save`. The changes are read and stay in the aggregate.
  unfoldable pub save : List Stamp → WrappedAggregate A → Exec (Store S) (Unit {0})
  unfolding append_unless_empty wrap_changes
  save stamps w = do
    start_from ← lift (plus w.stored_version 1)
    stored ← lift (plus w.stored_version 0)
    append_unless_empty (wrap_changes stamps w.context start_from w.aggregate.changes) w.stream_id
        stored

  -- What `load` answers goes on or is raised.
  abbrev pub loaded : Result (Unit {0}) × WrappedAggregate A → Exec (Store S) (WrappedAggregate A)
  loaded (ok u, w) s = (ok w, s)
  loaded (err e, w) s = (err e, s)

  -- `with repository.aggregate(uuid, aggregate, context) as wrapped: …`, whose body is a function
  -- of the wrapped aggregate; when it raises, nothing is saved.
  unfoldable pub aggregate_session :
      UuidLibrary
      → String
      → List Stamp
      → ℕ
      → StreamUuid
      → Aggregate A
      → Option Fields
      → (WrappedAggregate A → Result (WrappedAggregate A))
      → Exec (Store S) (Unit {0})
  unfolding load save new_wrapped
  aggregate_session lib category stamps fresh uuid aggregate context body = do
    sid ← lift (stream_id lib (some uuid.uuid) uuid.name none (some category) fresh)
    answer ← load (new_wrapped aggregate sid context)
    wrapped ← loaded answer
    finished ← lift (body wrapped)
    save stamps finished
