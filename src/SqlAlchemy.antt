-- ===== src/SqlAlchemy.antt =====
-- `SqlAlchemyStorageStrategy` of event_sourcery_sqlalchemy/event_store.py over the tables. Of the
-- objects in `session.info["strong_set"]` the columns that never change are kept, and `iterate` is
-- the order of that set. What the dispatcher changes is a type `T` of the client's. What a method
-- wrote before it raised stays, for the transaction around it to undo.
pub mod Query
pub mod Statements
pub mod Reads
pub mod Ensure
pub mod Objects
pub mod Inserts
pub mod Locking
pub mod Tenants
pub mod Flush
pub mod Room
pub mod Stored
use python_event_sourcery.Prelude.{
  ℕ, suc, zero, ◌+◌, Option, none, some, Bool, true, false, ◌&&◌, not, List, [], ◌∷◌, ◌++◌, map,
  select, find, last?, all, if◌then◌else◌, is_some, ltb, ◌==◌, nat_key, string_key, option_key,
  length,
}
use python_event_sourcery.Errors.{
  Result, ok, err, integrity_error, attribute_error, concurrent_stream_write_without_arguments,
}
use python_event_sourcery.Exec.{Exec, ◌>>=◌, ◌>>◌, lift, modify}
use python_event_sourcery.StreamId.{StreamId, TenantId, stream_id_same}
use python_event_sourcery.Versioning.{
  Versioning, no_versioning, explicit_versioning, initial_version, validate_if_compatible,
}
use python_event_sourcery.Event.{RawEvent, RecordedRaw}
use python_event_sourcery.Tables.{Tables, StreamRow, EventRow, SnapshotRow, RowOrder, stream_id_of}
use python_event_sourcery.TableOutbox.{Texts, OutboxSetting, put_if_any}
use Query.{compares, has_stream_with, fetch_of}
use Statements.{
  matching_streams, insert_if_none, check_named, first_same, or_attribute_error, to_bump,
  update_version, event_rows, flush_events, exactly_one,
}

pub record Session {ℓ} (T : Type ℓ) : Type ℓ where
  pub tables : Tables
  pub strong_set : List StreamRow
  pub tenant_id : TenantId
  pub dispatched : T

-- `set.add`, by the identity of the object, which is that of its row
unfoldable pub add_object : StreamRow → List StreamRow → List StreamRow
add_object row objects =
    if is_some (find (λ o. o.id == row.id) objects) then objects else objects ++ row ∷ []

-- The lock, with the count of the rows that it changed
unfoldable pub bump_rows : StreamId → Versioning → Exec Tables (Unit {0})
unfolding update_version initial_version
bump_rows sid no_versioning t = (ok tt, t)
bump_rows sid (explicit_versioning zero i) t = (ok tt, t)
bump_rows sid (explicit_versioning (suc e) i) t =
    let count = length (select (to_bump sid (suc e)) t.streams) in
    let bumped = record t { streams = update_version sid (suc e) i t.streams } in
    if count == 1 then (ok tt, bumped) else (err concurrent_stream_write_without_arguments, bumped)

abbrev pub is_object : StreamId → TenantId → StreamRow → Bool
is_object sid tenant o = stream_id_same (stream_id_of o) sid && (o.tenant_id == tenant)

unfoldable pub object_of :
    (List StreamRow → List StreamRow) → StreamId → TenantId → List StreamRow → Result StreamRow
object_of iterate sid tenant objects =
    or_attribute_error (find (is_object sid tenant) (iterate objects))

-- The records of the flushed rows
unfoldable pub recorded_rows : List RawEvent → TenantId → ℕ → List RecordedRaw
recorded_rows [] tenant id = []
recorded_rows (raw ∷ rest) tenant id =
    record { entry = raw; position = id; tenant_id = tenant } ∷ recorded_rows rest tenant (suc id)

-- `self._snapshot_model(…)`, flushed: the version is not null, the UUID is the primary key
unfoldable pub flush_snapshot : RawEvent → StreamRow → Exec Tables (Unit {0})
flush_snapshot raw row t = elim (raw.version) [
  | none ↦ (err integrity_error, t)
  | some v ↦
      if all (λ s. not (s.uuid == raw.uuid)) t.snapshots
      then (
        ok tt,
        record t {
          snapshots =
              t.snapshots
              ++ record {
                uuid = raw.uuid;
                version = v;
                stream = row.id;
                name = raw.name;
                data_fields = raw.data_fields;
                event_context = raw.context;
                created_at = raw.created_at;
              }
                ∷ [];
        },
      )
      else (err integrity_error, t)
]

-- The two DELETEs, of whichever tenant; the second is refused while a snapshot refers to the stream
unfoldable pub delete_compared : StreamId → Exec Tables (Unit {0})
unfolding has_stream_with compares
delete_compared sid t =
    let emptied = record t {
      events = select (λ e. not (has_stream_with (compares sid) e.stream t)) t.events;
    } in
    if all (λ s. not (has_stream_with (compares sid) s.stream t)) t.snapshots
    then (ok tt, record emptied { streams = select (λ r. not (compares sid r)) t.streams })
    else (err integrity_error, emptied)

abbrev pub greatest_id : ℕ → List EventRow → ℕ
greatest_id m [] = m
greatest_id m (e ∷ rest) = greatest_id (if ltb m e.id then e.id else m) rest

module _ {ℓ} {T : Type ℓ} where
  abbrev pub on_tables {κ} : {A : Type κ} → Exec Tables A → Exec (Session T) A
  on_tables m s = ((m s.tables).0, record s { tables = (m s.tables).1 })

  abbrev pub on_dispatched : Exec T (Unit {0}) → Exec (Session T) (Unit {0})
  on_dispatched m s = ((m s.dispatched).0, record s { dispatched = (m s.dispatched).1 })

  unfoldable pub fetch_events :
      RowOrder → StreamId → Option ℕ → Option ℕ → Session T → Result (List RawEvent)
  unfolding fetch_of
  fetch_events order sid start stop s = ok (fetch_of order s.tenant_id sid start stop s.tables)

  -- `_ensure_stream` from the matching streams on
  unfoldable pub ensure_matching :
      StreamId → Versioning → List StreamRow → Exec (Session T) (Unit {0})
  unfolding check_named first_same add_object bump_rows validate_if_compatible
  ensure_matching sid vs matching = do
    lift (check_named sid matching)
    stream ← lift (first_same sid matching)
    modify (λ s. record s { strong_set = add_object stream s.strong_set })
    lift (validate_if_compatible vs stream.version)
    on_tables (bump_rows sid vs)

  unfoldable pub ensure_streams : StreamId → Versioning → Exec (Session T) (Unit {0})
  unfolding insert_if_none ensure_matching initial_version
  ensure_streams sid vs s =
      let t = insert_if_none sid s.tenant_id (initial_version vs) s.tables in
      ensure_matching sid vs (matching_streams sid s.tenant_id t) (record s { tables = t })

  module _ (texts : Texts) (outbox : Option OutboxSetting)
      (dispatch : List RecordedRaw → Exec T (Unit {0})) where
    -- `insert_events` from the object of the stream on; `position` is the first number
    unfoldable pub extend_events : List RawEvent → StreamRow → ℕ → Exec (Session T) (Unit {0})
    unfolding event_rows flush_events recorded_rows
    extend_events events stream position =
        let records = recorded_rows events stream.tenant_id position in
        do
          on_tables (flush_events stream.id (event_rows events stream.id position))
          on_tables (modify (put_if_any texts outbox records))
          on_dispatched (dispatch records)

  module _ (iterate : List StreamRow → List StreamRow) (texts : Texts)
      (outbox : Option OutboxSetting) (dispatch : List RecordedRaw → Exec T (Unit {0})) where
    unfoldable pub insert_events :
        StreamId → Versioning → List RawEvent → Exec (Session T) (Unit {0})
    unfolding ensure_streams object_of extend_events
    insert_events sid vs events = do
      ensure_streams sid vs
      stream ← (λ s. (object_of iterate sid s.tenant_id s.strong_set, s))
      (λ s. extend_events texts outbox dispatch events stream s.tables.next_event s)

  unfoldable pub save_snapshot : RawEvent → Exec (Session T) (Unit {0})
  unfolding compares exactly_one flush_snapshot
  save_snapshot raw s =
      (do
        row ← lift (exactly_one (select (compares raw.stream_id) s.tables.streams))
        on_tables (flush_snapshot raw row))
        s

  unfoldable pub delete_stream : StreamId → Exec (Session T) (Unit {0})
  unfolding delete_compared
  delete_stream sid = on_tables (delete_compared sid)

  -- `select(func.max(id))`, `or Position(0)`
  unfoldable pub current_position : Session T → Option ℕ
  current_position s = some (greatest_id 0 s.tables.events)

  unfoldable pub scoped_for_tenant : TenantId → Session T → Session T
  scoped_for_tenant tenant s = record s { tenant_id = tenant }
