-- ===== src/InMemory/Strategy.antt =====
-- `InMemoryStorageStrategy` of event_sourcery/_event_store/in_memory.py. What the dispatcher
-- changes is a type `T` of the client's; the outbox is the list of the outbox strategy, if there
-- is one, with its filter. Versions and positions are natural numbers.
use python_event_sourcery.Prelude.{
  ℕ, suc, zero, ◌+◌, Option, none, some, Bool, true, false, not, List, [], ◌∷◌, ◌++◌, map, take,
  drop, select, if◌then◌else◌, ◌==◌, nat_key, string_key, option_key,
}
use python_event_sourcery.Errors.{Result, ok, err, concurrent_stream_write}
use python_event_sourcery.Exec.{Exec, ◌>>=◌, ◌>>◌, lift, modify, raise_if}
use python_event_sourcery.StreamId.{StreamId, TenantId, stream_id_key, default_tenant}
use python_event_sourcery.Versioning.{
  Versioning, no_versioning, explicit_versioning, validate_if_compatible,
}
use python_event_sourcery.Event.{RawEvent, RecordedRaw}
use python_event_sourcery.InMemory.Storage
use python_event_sourcery.InMemory.Storage.{
  Storage, has_stream, create, get_version, read, position_or_zero,
}

-- `self._outbox` of the outbox strategy: a record with its count of failures.
abbrev pub Entries : Type 0
Entries = List (RecordedRaw × ℕ)

pub record Strategy {ℓ} (T : Type ℓ) : Type ℓ where
  pub storage : Storage
  pub outbox : Option Entries
  pub tenant_id : TenantId
  pub dispatched : T

-- `start and start - 1` of a version, as an index
abbrev pub index_of : Option ℕ → Option ℕ
index_of none = none
index_of (some zero) = some zero
index_of (some (suc v)) = some v

-- `stream[start:stop]`
abbrev pub drop_to : Option ℕ → List RecordedRaw → List RecordedRaw
drop_to none l = l
drop_to (some i) l = drop i l

abbrev pub take_to : Option ℕ → List RecordedRaw → List RecordedRaw
take_to none l = l
take_to (some i) l = take i l

abbrev pub slice : Option ℕ → Option ℕ → List RecordedRaw → List RecordedRaw
slice start stop l = drop_to start (take_to stop l)

abbrev pub entries_of : TenantId → List RecordedRaw → List RawEvent
entries_of tenant l = map (λ r. r.entry) (select (λ r. r.tenant_id == tenant) l)

unfoldable pub fetch_from :
    TenantId → StreamId → Option ℕ → Option ℕ → Storage → Result (List RawEvent)
unfolding has_stream read
fetch_from tenant sid start stop s = if not (has_stream sid s) then ok [] else (elim (read sid s) [
  | ok stream ↦ ok (entries_of tenant (slice (index_of start) (index_of stop) stream))
  | err e ↦ err e
])

-- `if stream_id not in self._storage: self._storage.create(…)`
unfoldable pub create_if_missing : StreamId → Versioning → Storage → Storage
unfolding has_stream create
create_if_missing sid vs s = if has_stream sid s then s else create sid vs s

-- `self._storage.get_version(…) if stream_id in self._storage else None`
abbrev pub last_version : StreamId → Storage → Result (Option ℕ)
last_version sid s = if has_stream sid s then get_version sid s else ok none

-- The optimistic lock. An expected version of 0 is false in Python, and is not compared.
unfoldable pub check_expected : StreamId → Versioning → Exec Storage (Unit {0})
unfolding has_stream get_version
check_expected sid no_versioning s = (ok tt, s)
check_expected sid (explicit_versioning zero i) s = (ok tt, s)
check_expected sid (explicit_versioning (suc e) i) s =
    (do
      last ← lift (last_version sid s)
      raise_if (not (last == some (suc e))) (concurrent_stream_write last (suc e)))
      s

-- `versioning.validate_if_compatible(self._storage.get_version(stream_id))`
unfoldable pub validate : StreamId → Versioning → Exec Storage (Unit {0})
unfolding get_version validate_if_compatible
validate sid vs s =
    (lift (get_version sid s) >>= λ version. lift (validate_if_compatible vs version)) s

unfoldable pub ensure_stream : StreamId → Versioning → Exec Storage (Unit {0})
unfolding create_if_missing validate check_expected
ensure_stream sid vs = do modify (create_if_missing sid vs); validate sid vs; check_expected sid vs

-- `enumerate(events, start=position + 1)`, each with its position and the tenant
unfoldable pub recorded_from : ℕ → TenantId → List RawEvent → List RecordedRaw
recorded_from position tenant [] = []
recorded_from position tenant (raw ∷ rest) =
    record { entry = raw; position = position + 1; tenant_id = tenant }
    ∷ recorded_from (position + 1) tenant rest

-- `put_into_outbox`
unfoldable pub put_into_outbox : (RawEvent → Bool) → List RecordedRaw → Entries → Entries
put_into_outbox filterer records entries =
    entries ++ map (λ r. (r, 0)) (select (λ r. filterer r.entry) records)

abbrev pub into_outbox : (RawEvent → Bool) → List RecordedRaw → Option Entries → Option Entries
into_outbox filterer records none = none
into_outbox filterer records (some entries) = some (put_into_outbox filterer records entries)

module _ {ℓ} {T : Type ℓ} where
  abbrev pub on_storage : Exec Storage (Unit {0}) → Exec (Strategy T) (Unit {0})
  on_storage m s = ((m s.storage).0, record s { storage = (m s.storage).1 })

  abbrev pub on_dispatched : Exec T (Unit {0}) → Exec (Strategy T) (Unit {0})
  on_dispatched m s = ((m s.dispatched).0, record s { dispatched = (m s.dispatched).1 })

  unfoldable pub fetch_events : StreamId → Option ℕ → Option ℕ → Strategy T → Result (List RawEvent)
  unfolding fetch_from
  fetch_events sid start stop s = fetch_from s.tenant_id sid start stop s.storage

  -- The body of `insert_events` once the records are made.
  unfoldable pub store_records :
      (RawEvent → Bool)
      → (List RecordedRaw → Exec T (Unit {0}))
      → List RecordedRaw
      → Exec (Strategy T) (Unit {0})
  unfolding Storage.append put_into_outbox
  store_records filterer dispatch records = do
    on_storage (Storage.append records)
    modify (λ s. record s { outbox = into_outbox filterer records s.outbox })
    on_dispatched (dispatch records)

  unfoldable pub insert_events :
      (RawEvent → Bool)
      → (List RecordedRaw → Exec T (Unit {0}))
      → StreamId
      → Versioning
      → List RawEvent
      → Exec (Strategy T) (Unit {0})
  unfolding ensure_stream recorded_from store_records Storage.current_position
  insert_events filterer dispatch sid vs events s =
      let position = position_or_zero s.storage in
      (do
        on_storage (ensure_stream sid vs)
        store_records filterer dispatch (recorded_from position s.tenant_id events))
        s

  unfoldable pub save_snapshot : RawEvent → Strategy T → Strategy T
  unfolding Storage.replace Storage.current_position
  save_snapshot snapshot s = record s {
    storage =
        Storage.replace
          (record {
            entry = snapshot;
            position = position_or_zero s.storage + 1;
            tenant_id = s.tenant_id;
          })
          s.storage;
  }

  unfoldable pub delete_stream : StreamId → Exec (Strategy T) (Unit {0})
  unfolding has_stream Storage.delete
  delete_stream sid s =
      if has_stream sid s.storage
      then (elim (Storage.delete sid s.storage) [
        | ok storage ↦ (ok tt, record s { storage = storage })
        | err e ↦ (err e, s)
      ])
      else (ok tt, s)

  -- `current_position and Position(current_position)`
  unfoldable pub strategy_position : Strategy T → Option ℕ
  unfolding Storage.current_position
  strategy_position s = Storage.current_position s.storage

  -- The same object, with another tenant.
  unfoldable pub scoped_for_tenant : TenantId → Strategy T → Strategy T
  scoped_for_tenant tenant s = record s { tenant_id = tenant }

-- `outbox_strategy=c.get(InMemoryOutboxStorageStrategy)`: none, or a new one with an empty list
abbrev pub new_outbox : Bool → Option Entries
new_outbox true = some []
new_outbox false = none

unfoldable pub new_strategy {ℓ} : {T : Type ℓ} → Bool → T → Strategy T
new_strategy with_outbox t = record {
  storage = Storage.new_storage;
  outbox = new_outbox with_outbox;
  tenant_id = default_tenant;
  dispatched = t;
}
