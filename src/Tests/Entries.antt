-- ===== src/Tests/Entries.antt =====
-- Entries of the outbox over its table.
use python_event_sourcery.Prelude.{
  ℕ, some, List, [], ◌∷◌, ◌++◌, ◌≡◌, refl, arith, if◌then◌else◌, ◌==◌, nat_key,
}
use python_event_sourcery.Errors.{ok, err, value_error}
use python_event_sourcery.Exec.{Exec}
use python_event_sourcery.StreamId.{stream_id, choose_uuid, check_name, stream_uuid}
use python_event_sourcery.Event.{RecordedRaw}
use python_event_sourcery.Tables.{OutboxRow}
use python_event_sourcery.TableOutbox.{outbox_data, outbox_entry, raw_outbox, run_table}
use python_event_sourcery.TableOutbox.Records.{raw_outbox-outbox_entry, without_category}
use python_event_sourcery.TableOutbox.Delivery.{run_table-tried}
use python_event_sourcery.Tests.Data
use python_event_sourcery.Tests.Rows.{texts}

abbrev recorded : ℕ → RecordedRaw
recorded position = record {
  entry = record (Data.raw_event position (some position)) { created_at = 2 };
  position = position;
  tenant_id = "";
}

read_back :
    raw_outbox texts (outbox_entry texts (recorded 1) 3 1) ≡ ok (without_category (recorded 1))
read_back =
    raw_outbox-outbox_entry texts (recorded 1) 3 1
      (record { uuid = refl; stream = refl; time = refl }) (λ n named. refl)

-- An entry with three tries, and one with none
abbrev entries : List OutboxRow
entries =
    outbox_entry texts (recorded 1) 0 1
    ∷ outbox_entry texts (recorded 1) 3 2
    ∷ outbox_entry texts (recorded 2) 3 3
    ∷ []

-- A publisher that refuses the first position
abbrev refuse_first : RecordedRaw → Exec (List RecordedRaw) (Unit {0})
refuse_first r sent = if r.position == 1 then (err value_error, sent) else (ok tt, sent ++ r ∷ [])

abbrev read_as : OutboxRow → RecordedRaw
read_as row = if row.id == 3 then without_category (recorded 2) else without_category (recorded 1)

tried_once : run_table texts refuse_first 5 (record { rows = entries; world = [] }) ≡ (
  ok tt,
  record {
    rows = outbox_entry texts (recorded 1) 0 1 ∷ outbox_entry texts (recorded 1) 2 2 ∷ [];
    world = without_category (recorded 2) ∷ [];
  },
)
unfolding outbox_data outbox_entry raw_outbox choose_uuid check_name stream_uuid stream_id
tried_once =
    run_table-tried texts read_as refuse_first 5 (record { rows = entries; world = [] })
      (ground arith, (ground arith, (ground arith, tt))) (refl, (refl, (refl, tt)))
