-- ===== src/Django/Statements.antt =====
-- The statements that `DjangoStorageStrategy` of event_sourcery_django/event_store.py makes: those
-- of `_ensure_stream`, `insert_events`, `save_snapshot` and `delete_stream`.
use python_event_sourcery.Prelude.{
  ℕ, suc, zero, ◌+◌, Option, none, some, Bool, true, ◌&&◌, not, List, [], ◌∷◌, ◌++◌, map, select,
  find, all, if◌then◌else◌, is_some, ◌==◌, nat_key, string_key, option_key, length,
}
use python_event_sourcery.Errors
use python_event_sourcery.Errors.{
  Result, ok, err, does_not_exist, integrity_error, value_error,
  concurrent_stream_write_without_arguments, another_stream_with_this_name_but_other_id_exists,
}
use python_event_sourcery.Exec.{Exec, ◌>>=◌, ◌>>◌, lift}
use python_event_sourcery.StreamId.{StreamId, TenantId, or_empty, truthy}
use python_event_sourcery.Versioning.{
  Versioning, no_versioning, explicit_versioning, initial_version, validate_if_compatible,
}
use python_event_sourcery.Event.{RawEvent, RecordedRaw}
use python_event_sourcery.Tables.{
  Tables, StreamRow, EventRow, SnapshotRow, by_stream_id, get_one, conflicts,
}
use python_event_sourcery.Django.Query.{streams_of}

-- `if stream_with_same_name is not None and …`
unfoldable pub check_uuid : StreamId → Option StreamRow → Result (Unit {0})
check_uuid sid none = ok tt
check_uuid sid (some row) =
    if row.uuid == sid.uuid then ok tt else err another_stream_with_this_name_but_other_id_exists

-- `if stream_id.name and matching_streams: …`
unfoldable pub check_same_name : StreamId → List StreamRow → Result (Unit {0})
unfolding check_uuid
check_same_name sid matching = elim (truthy sid.name) [
  | none ↦ ok tt
  | some n ↦ check_uuid sid (find (λ r. r.name == some n) matching)
]

-- All four columns of the lookup of `get_or_create`.
abbrev pub same_columns : StreamId → TenantId → StreamRow → Bool
same_columns sid tenant r =
    (r.uuid == sid.uuid)
    && ((r.name == sid.name) && ((r.category == or_empty sid.category) && (r.tenant_id == tenant)))

abbrev pub new_row : StreamId → TenantId → Option ℕ → ℕ → StreamRow
new_row sid tenant version id = record {
  id = id;
  uuid = sid.uuid;
  name = sid.name;
  category = or_empty sid.category;
  tenant_id = tenant;
  version = version;
}

-- An insert into the table of streams
unfoldable pub create_stream_row : StreamId → TenantId → Option ℕ → Exec Tables StreamRow
create_stream_row sid tenant version t =
    let row = new_row sid tenant version t.next_stream in
    if all (λ r. not (conflicts r row)) t.streams
    then (ok row, record t { streams = t.streams ++ row ∷ []; next_stream = suc t.next_stream })
    else (err integrity_error, t)

unfoldable pub or_created :
    Result StreamRow → StreamId → TenantId → Option ℕ → Exec Tables StreamRow
unfolding create_stream_row
or_created (ok row) sid tenant version t = (ok row, t)
or_created (err does_not_exist) sid tenant version t = create_stream_row sid tenant version t
or_created (err e) sid tenant version t = (err e, t)

unfoldable pub get_or_create : StreamId → TenantId → Option ℕ → Exec Tables StreamRow
unfolding or_created get_one
get_or_create sid tenant version t =
    or_created (get_one (select (same_columns sid tenant) t.streams)) sid tenant version t

-- `filter(id=…, version=…).update(version=…)`, with the number of rows it changed
abbrev pub has_version : ℕ → ℕ → StreamRow → Bool
has_version id expected r = (r.id == id) && (r.version == some expected)

unfoldable pub bump_version : ℕ → ℕ → Option ℕ → List StreamRow → List StreamRow
bump_version id expected version rows =
    map (λ r. if has_version id expected r then record r { version = version } else r) rows

unfoldable pub lock_stream : StreamRow → Versioning → Exec Tables (Unit {0})
unfolding bump_version initial_version
lock_stream row no_versioning t = (ok tt, t)
lock_stream row (explicit_versioning zero i) t = (ok tt, t)
lock_stream row (explicit_versioning (suc e) i) t =
    if length (select (has_version row.id (suc e)) t.streams) == 1
    then (ok tt, record t { streams = bump_version row.id (suc e) i t.streams })
    else (
      err concurrent_stream_write_without_arguments,
      record t { streams = bump_version row.id (suc e) i t.streams },
    )

unfoldable pub ensure_row : StreamId → TenantId → Versioning → Exec Tables (Unit {0})
unfolding check_same_name get_or_create lock_stream initial_version validate_if_compatible
ensure_row sid tenant vs t =
    (do
      lift (check_same_name sid (streams_of sid tenant t))
      row ← get_or_create sid tenant (initial_version vs)
      lift (validate_if_compatible vs row.version)
      lock_stream row vs)
      t

-- `dto.entry`, saved under the number `id`
unfoldable pub entry_row : RawEvent → StreamRow → ℕ → EventRow
entry_row raw row id = record {
  id = id;
  version = raw.version;
  uuid = raw.uuid;
  stream = row.id;
  name = raw.name;
  data_fields = raw.data_fields;
  event_context = raw.context;
  created_at = raw.created_at;
}

-- The rows of `bulk_create`, numbered in order, and the records of these numbers.
unfoldable pub entry_rows : List RawEvent → StreamRow → ℕ → List EventRow
unfolding entry_row
entry_rows [] row id = []
entry_rows (raw ∷ rest) row id = entry_row raw row id ∷ entry_rows rest row (suc id)

unfoldable pub records_of : TenantId → List RawEvent → ℕ → List RecordedRaw
records_of tenant [] id = []
records_of tenant (raw ∷ rest) id =
    record { entry = raw; position = id; tenant_id = tenant } ∷ records_of tenant rest (suc id)

-- The UUID of an event is unique in the table.
unfoldable pub all_fresh : List ℕ → List ℕ → Bool
all_fresh uuids [] = true
all_fresh uuids (u ∷ rest) = all (λ v. not (v == u)) uuids && all_fresh (uuids ++ u ∷ []) rest

unfoldable pub bulk_create : List EventRow → Exec Tables (Unit {0})
unfolding all_fresh
bulk_create rows t =
    if all_fresh (map (λ e. e.uuid) t.events) (map (λ e. e.uuid) rows)
    then (ok tt, record t { events = t.events ++ rows; next_event = t.next_event + length rows })
    else (err integrity_error, t)

-- `first(events)`
abbrev pub first_event : List RawEvent → Result RawEvent
first_event [] = err value_error
first_event (raw ∷ rest) = ok raw

-- A column that is not null
abbrev pub not_null : Option ℕ → Result ℕ
not_null none = err integrity_error
not_null (some v) = ok v

-- `dto.snapshot`, whose version must not be `None` when it is saved
unfoldable pub snapshot_row : RawEvent → StreamRow → Result SnapshotRow
snapshot_row raw row = Errors.◌>>=◌ (not_null raw.version) λ v. ok (record {
  uuid = raw.uuid;
  version = v;
  stream = row.id;
  name = raw.name;
  data_fields = raw.data_fields;
  event_context = raw.context;
  created_at = raw.created_at;
})

-- `save` of a row with a primary key: an update if the key is there, else an insert
unfoldable pub save_row : SnapshotRow → List SnapshotRow → List SnapshotRow
save_row row rows =
    if all (λ s. not (s.uuid == row.uuid)) rows
    then rows ++ row ∷ []
    else map (λ s. if s.uuid == row.uuid then row else s) rows

-- The rows whose stream is not among those deleted.
abbrev pub is_in : List StreamRow → ℕ → Bool
is_in rows id = is_some (find (λ r. r.id == id) rows)

unfoldable pub delete_rows : StreamId → TenantId → Tables → Tables
delete_rows sid tenant t =
    let deleted = streams_of sid tenant t in
    record t {
      streams = select (λ r. not (by_stream_id sid tenant r)) t.streams;
      events = select (λ e. not (is_in deleted e.stream)) t.events;
      snapshots = select (λ s. not (is_in deleted s.stream)) t.snapshots;
    }

abbrev pub id_or_zero : Option EventRow → ℕ
id_or_zero none = 0
id_or_zero (some e) = e.id
