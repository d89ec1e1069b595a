-- ===== src/SqlAlchemy/Statements.antt =====
-- The statements of `SqlAlchemyStorageStrategy` of event_sourcery_sqlalchemy/event_store.py, and the
-- constraints of models/base.py that the database checks on them. Foreign keys are checked.
use python_event_sourcery.Prelude.{
  ℕ, suc, ◌+◌, Option, none, some, Bool, true, false, ◌&&◌, ◌||◌, not, List, [], ◌∷◌, ◌++◌, map,
  select, find, last?, all, length, is_some, if◌then◌else◌, ◌==◌, nat_key, string_key, option_key,
}
use python_event_sourcery.Errors.{
  Result, ok, err, index_error, attribute_error, integrity_error, no_result_found,
  multiple_results_found, another_stream_with_this_name_but_other_id_exists,
}
use python_event_sourcery.Exec.{Exec}
use python_event_sourcery.StreamId.{StreamId, TenantId, or_empty, stream_id_same}
use python_event_sourcery.Event.{RawEvent}
use python_event_sourcery.Tables.{
  Tables, StreamRow, EventRow, by_stream_id, conflicts, stream_id_of,
}
use python_event_sourcery.SqlAlchemy.Query.{compares}

abbrev pub matching_streams : StreamId → TenantId → Tables → List StreamRow
matching_streams sid tenant t = select (by_stream_id sid tenant) t.streams

abbrev pub stream_row : StreamId → TenantId → Option ℕ → ℕ → StreamRow
stream_row sid tenant version id = record {
  id = id;
  uuid = sid.uuid;
  name = sid.name;
  category = or_empty sid.category;
  tenant_id = tenant;
  version = version;
}

-- `INSERT … ON CONFLICT DO NOTHING`
unfoldable pub insert_or_nothing : StreamId → TenantId → Option ℕ → Tables → Tables
insert_or_nothing sid tenant version t =
    let row = stream_row sid tenant version t.next_stream in
    if all (λ r. not (conflicts r row)) t.streams
    then record t { streams = t.streams ++ row ∷ []; next_stream = suc t.next_stream }
    else t

abbrev pub is_nil {ℓ} : {A : Type ℓ} → List A → Bool
is_nil [] = true
is_nil (x ∷ rest) = false

-- `if not matching_streams: …`
unfoldable pub insert_if_none : StreamId → TenantId → Option ℕ → Tables → Tables
unfolding insert_or_nothing
insert_if_none sid tenant version t =
    if is_nil (matching_streams sid tenant t) then insert_or_nothing sid tenant version t else t

abbrev pub is_named : StreamId → StreamRow → Bool
is_named sid r = (r.name == sid.name) && (r.category == or_empty sid.category)

-- `[…].pop()`, and the comparison of `StreamId`s
unfoldable pub check_popped : StreamId → Option StreamRow → Result (Unit {0})
check_popped sid none = err index_error
check_popped sid (some r) =
    if stream_id_same (stream_id_of r) sid
    then ok tt
    else err another_stream_with_this_name_but_other_id_exists

-- `if stream_id.name is not None: …`
unfoldable pub check_named : StreamId → List StreamRow → Result (Unit {0})
unfolding check_popped
check_named sid matching =
    if is_some sid.name then check_popped sid (last? (select (is_named sid) matching)) else ok tt

-- `first_true(…)`; of `None` an attribute is read later
abbrev pub or_attribute_error {ℓ} : {A : Type ℓ} → Option A → Result A
or_attribute_error none = err attribute_error
or_attribute_error (some x) = ok x

unfoldable pub first_same : StreamId → List StreamRow → Result StreamRow
first_same sid matching =
    or_attribute_error (find (λ r. stream_id_same (stream_id_of r) sid) matching)

-- `UPDATE … WHERE stream_id == … AND version == …`, of whichever tenant
abbrev pub to_bump : StreamId → ℕ → StreamRow → Bool
to_bump sid expected r = compares sid r && (r.version == some expected)

unfoldable pub update_version : StreamId → ℕ → Option ℕ → List StreamRow → List StreamRow
update_version sid expected version rows =
    map (λ r. if to_bump sid expected r then record r { version = version } else r) rows

-- `self._event_model(…)` of a stream, under the number that the flush gives it
unfoldable pub event_row : RawEvent → ℕ → ℕ → EventRow
event_row raw stream id = record {
  id = id;
  version = raw.version;
  uuid = raw.uuid;
  stream = stream;
  name = raw.name;
  data_fields = raw.data_fields;
  event_context = raw.context;
  created_at = raw.created_at;
}

unfoldable pub event_rows : List RawEvent → ℕ → ℕ → List EventRow
unfolding event_row
event_rows [] stream id = []
event_rows (raw ∷ rest) stream id = event_row raw stream id ∷ event_rows rest stream (suc id)

-- The unique index on the stream and the version, where nulls are not equal, and the one on the
-- UUID
abbrev pub collides : EventRow → EventRow → Bool
collides a b =
    ((a.stream == b.stream) && (is_some a.version && (a.version == b.version)))
    || (a.uuid == b.uuid)

unfoldable pub fits : List EventRow → List EventRow → Bool
fits rows [] = true
fits rows (e ∷ rest) = all (λ r. not (collides r e)) rows && fits (rows ++ e ∷ []) rest

-- The flush of new events, each with a stream
unfoldable pub flush_events : ℕ → List EventRow → Exec Tables (Unit {0})
unfolding fits
flush_events stream rows t =
    if (is_nil rows || is_some (find (λ r. r.id == stream) t.streams)) && fits t.events rows
    then (ok tt, record t { events = t.events ++ rows; next_event = t.next_event + length rows })
    else (err integrity_error, t)

-- `.one()`
unfoldable pub exactly_one {ℓ} : {A : Type ℓ} → List A → Result A
exactly_one [] = err no_result_found
exactly_one (x ∷ []) = ok x
exactly_one (x ∷ y ∷ rest) = err multiple_results_found
