-- ===== src/TableOutbox.antt =====
-- The outboxes over a table: event_sourcery_sqlalchemy/outbox.py, and event_sourcery_django/outbox.py
-- with `outbox_entry` and `raw_outbox` of its dto.py, which do the same. The texts of UUIDs and of
-- times are parameters. What stands in the `with` block is an action `attempt` that may raise.
pub mod Records
pub mod Delivery
pub mod Settled
use python_event_sourcery.Prelude.{
  ℕ, suc, ◌-◌, String, Option, none, some, Bool, true, false, not, List, [], ◌∷◌, ◌++◌, map, select,
  take, ltb, if◌then◌else◌, ◌==◌, nat_key,
}
use python_event_sourcery.Errors.{Result, ok, err, ◌>>=◌}
use python_event_sourcery.Exec
use python_event_sourcery.Exec.{Exec}
use python_event_sourcery.StreamId.{UuidLibrary, stream_id}
use python_event_sourcery.Event.{RawEvent, RecordedRaw}
use python_event_sourcery.Tables.{Tables, OutboxRow, OutboxData}

-- `str(uuid)`, `isoformat`, and their readers
pub record Texts : Type 0 where
  pub uuid_library : UuidLibrary
  pub uuid_text : ℕ → String
  pub time_text : ℕ → String
  pub time_from_text : String → Result ℕ

pub record OutboxSetting : Type 0 where
  pub filterer : RawEvent → Bool
  pub max_publish_attempts : ℕ

module _ (texts : Texts) where
  unfoldable pub outbox_data : RecordedRaw → OutboxData
  outbox_data r = record {
    created_at = texts.time_text r.entry.created_at;
    uuid = texts.uuid_text r.entry.uuid;
    stream_id = texts.uuid_text r.entry.stream_id.uuid;
    version = r.entry.version;
    name = r.entry.name;
    data_fields = r.entry.data_fields;
    context = r.entry.context;
    tenant_id = r.tenant_id;
  }

  unfoldable pub outbox_entry : RecordedRaw → ℕ → ℕ → OutboxRow
  unfolding outbox_data
  outbox_entry r max_attempts id = record {
    id = id;
    entry_data = outbox_data r;
    stream_name = r.entry.stream_id.name;
    position = r.position;
    tries_left = max_attempts;
  }

  -- The rows of an insert get the next numbers.
  outbox_rows : ℕ → List RecordedRaw → ℕ → List OutboxRow
  unfolding outbox_entry
  outbox_rows max_attempts [] id = []
  outbox_rows max_attempts (r ∷ rest) id =
      outbox_entry r max_attempts id ∷ outbox_rows max_attempts rest (suc id)

  next_after : List RecordedRaw → ℕ → ℕ
  next_after [] id = id
  next_after (r ∷ rest) id = next_after rest (suc id)

  unfoldable pub put_into_table : OutboxSetting → List RecordedRaw → Tables → Tables
  unfolding outbox_rows next_after
  put_into_table setting records t =
      let wanted = select (λ r. setting.filterer r.entry) records in
      record t {
        outbox = t.outbox ++ outbox_rows setting.max_publish_attempts wanted t.next_outbox;
        next_outbox = next_after wanted t.next_outbox;
      }

  -- `if self._outbox: self._outbox.put_into_outbox(records)`
  abbrev pub put_if_any : Option OutboxSetting → List RecordedRaw → Tables → Tables
  put_if_any none records t = t
  put_if_any (some setting) records t = put_into_table setting records t

  -- The record that an entry is published as.
  unfoldable pub raw_outbox : OutboxRow → Result RecordedRaw
  unfolding stream_id
  raw_outbox row = do
    uuid ← texts.uuid_library.parse_hex row.entry_data.uuid
    sid ← stream_id texts.uuid_library none row.stream_name (some row.entry_data.stream_id) none 0
    created_at ← texts.time_from_text row.entry_data.created_at
    ok (record {
      entry = record {
        uuid = uuid;
        stream_id = sid;
        created_at = created_at;
        name = row.entry_data.name;
        data_fields = row.entry_data.data_fields;
        context = row.entry_data.context;
        version = row.entry_data.version;
      };
      position = row.position;
      tenant_id = row.entry_data.tenant_id;
    })

-- The entries with tries left, in the order of their numbers, which is that of the rows.
unfoldable pub outbox_entries : ℕ → List OutboxRow → List OutboxRow
outbox_entries limit rows = take limit (select (λ row. ltb 0 row.tries_left) rows)

unfoldable pub delete_row : ℕ → List OutboxRow → List OutboxRow
delete_row id rows = select (λ row. not (row.id == id)) rows

-- `entry.tries_left -= 1`
unfoldable pub count_failure : ℕ → List OutboxRow → List OutboxRow
count_failure id rows =
    map (λ row. if row.id == id then record row { tries_left = row.tries_left - 1 } else row) rows

-- The rows, and what the publisher changes.
pub record State {ℓ} (W : Type ℓ) : Type ℓ where
  pub rows : List OutboxRow
  pub world : W

unfoldable pub settle_row : ℕ → Result (Unit {0}) → List OutboxRow → List OutboxRow
unfolding delete_row count_failure
settle_row id (ok u) rows = delete_row id rows
settle_row id (err e) rows = count_failure id rows

module _ {ℓ} {W : Type ℓ} (texts : Texts) (attempt : RecordedRaw → Exec W (Unit {0})) where
  publish_raw : ℕ → Result RecordedRaw → Exec (State W) (Unit {0})
  unfolding settle_row
  publish_raw id (err e) s = (err e, s)
  publish_raw id (ok raw) s =
      let answer = attempt raw s.world in
      (ok tt, record { rows = settle_row id answer.0 s.rows; world = answer.1 })

  -- The `with` block over one entry; the record is made before the `try`.
  unfoldable pub publish_row : OutboxRow → Exec (State W) (Unit {0})
  unfolding raw_outbox publish_raw
  publish_row row s = publish_raw row.id (raw_outbox texts row) s

  unfoldable pub publish_rows : List OutboxRow → Exec (State W) (Unit {0})
  unfolding publish_row
  publish_rows [] s = (ok tt, s)
  publish_rows (row ∷ rest) s = Exec.◌>>◌ (publish_row row) (publish_rows rest) s

  -- The loop of `Outbox.run` over the table.
  unfoldable pub run_table : ℕ → Exec (State W) (Unit {0})
  unfolding publish_rows outbox_entries
  run_table limit s = publish_rows (outbox_entries limit s.rows) s
