-- ===== src/Django.antt =====
-- `DjangoStorageStrategy` of event_sourcery_django/event_store.py over the tables. What the
-- dispatcher changes is a type `T` of the client's. A statement that the database refuses changes
-- nothing. What a method wrote before it raised stays, for the transaction around it to undo.
pub mod Query
pub mod Statements
pub mod Reads
pub mod Ensure
pub mod Holds
pub mod Inserts
pub mod Agree
pub mod Others
pub mod Deletes
pub mod Creation
pub mod Snapshots
pub mod Locking
pub mod Bulk
pub mod Room
use python_event_sourcery.Prelude.{
  ℕ, suc, zero, ◌+◌, Option, none, some, Bool, true, false, ◌&&◌, not, List, [], ◌∷◌, ◌++◌, map,
  select, find, last?, all, if◌then◌else◌, is_some, ◌==◌, nat_key, string_key, option_key, length,
}
use python_event_sourcery.Errors.{
  Result, ok, err, does_not_exist, integrity_error, value_error,
  concurrent_stream_write_without_arguments, another_stream_with_this_name_but_other_id_exists,
}
use python_event_sourcery.Exec.{Exec, ◌>>=◌, ◌>>◌, lift, modify, raise_if}
use python_event_sourcery.StreamId.{StreamId, TenantId, or_empty, truthy}
use python_event_sourcery.Versioning.{
  Versioning, no_versioning, explicit_versioning, initial_version, validate_if_compatible,
}
use python_event_sourcery.Event.{RawEvent, RecordedRaw}
use python_event_sourcery.Tables.{
  Tables, StreamRow, EventRow, SnapshotRow, RowOrder, by_stream_id, get_one, conflicts, raw_event,
  raw_snapshot, in_range, newer_than,
}
use python_event_sourcery.TableOutbox.{Texts, OutboxSetting, put_if_any}
use Query.{streams_of, fetch_rows}
use Statements.{
  ensure_row, entry_rows, records_of, bulk_create, first_event, snapshot_row, save_row, delete_rows,
  id_or_zero,
}

pub record DjangoState {ℓ} (T : Type ℓ) : Type ℓ where
  pub tables : Tables
  pub tenant_id : TenantId
  pub dispatched : T

module _ {ℓ} {T : Type ℓ} where
  abbrev pub on_tables {κ} : {A : Type κ} → Exec Tables A → Exec (DjangoState T) A
  on_tables m s = ((m s.tables).0, record s { tables = (m s.tables).1 })

  abbrev pub on_dispatched : Exec T (Unit {0}) → Exec (DjangoState T) (Unit {0})
  on_dispatched m s = ((m s.dispatched).0, record s { dispatched = (m s.dispatched).1 })

  unfoldable pub fetch_events :
      RowOrder → StreamId → Option ℕ → Option ℕ → DjangoState T → Result (List RawEvent)
  unfolding fetch_rows
  fetch_events order sid start stop s = fetch_rows order s.tenant_id sid start stop s.tables

  module _ (texts : Texts) (outbox : Option OutboxSetting)
      (dispatch : List RecordedRaw → Exec T (Unit {0})) where
    -- `insert_events` from the row of the stream on; `position` is the first number
    unfoldable pub insert_into : List RawEvent → StreamRow → ℕ → Exec (DjangoState T) (Unit {0})
    unfolding entry_rows records_of bulk_create
    insert_into events row position s =
        let records = records_of s.tenant_id events position in
        (do
          on_tables (bulk_create (entry_rows events row position))
          on_tables (modify (put_if_any texts outbox records))
          on_dispatched (dispatch records))
          s

    unfoldable pub insert_events :
        StreamId → Versioning → List RawEvent → Exec (DjangoState T) (Unit {0})
    unfolding ensure_row get_one insert_into
    insert_events sid vs events s =
        (do
          on_tables (ensure_row sid s.tenant_id vs)
          event ← lift (first_event events)
          row ← (λ s. (get_one (streams_of event.stream_id s.tenant_id s.tables), s))
          (λ s. insert_into events row s.tables.next_event s))
          s

  unfoldable pub save_snapshot : RawEvent → Exec (DjangoState T) (Unit {0})
  unfolding get_one snapshot_row save_row
  save_snapshot raw s =
      (do
        row ← lift (get_one (streams_of raw.stream_id s.tenant_id s.tables))
        entry ← lift (snapshot_row raw row)
        on_tables (modify (λ t. record t { snapshots = save_row entry t.snapshots })))
        s

  unfoldable pub delete_stream : StreamId → Exec (DjangoState T) (Unit {0})
  unfolding delete_rows
  delete_stream sid s = (ok tt, record s { tables = delete_rows sid s.tenant_id s.tables })

  unfoldable pub current_position : DjangoState T → Option ℕ
  current_position s = some (id_or_zero (last? s.tables.events))

  unfoldable pub scoped_for_tenant : TenantId → DjangoState T → DjangoState T
  scoped_for_tenant tenant s = record s { tenant_id = tenant }
