-- ===== src/Tests/First.antt =====
-- A stream's first insert, and a snapshot of a stream, in the tables.
use python_event_sourcery.Prelude.{none, some, [], ◌∷◌, ◌≡◌, refl, arith}
use python_event_sourcery.Errors.{ok}
use python_event_sourcery.Versioning.{explicit_versioning}
use python_event_sourcery.Event.{RawEvent}
use python_event_sourcery.Tables.{by_stream_id, conflicts}
use python_event_sourcery.Django.{insert_events, save_snapshot}
use python_event_sourcery.Django.Statements.{all_fresh}
use python_event_sourcery.Django.Holds.{Holds}
use python_event_sourcery.Django.Creation.{insert_events-new}
use python_event_sourcery.Django.Snapshots.{save_snapshot-Holds}
use python_event_sourcery.Tests.Data
use python_event_sourcery.Tests.Data.{other_stream, order_stream, keep}
use python_event_sourcery.Tests.Orders.{sorting, sorting-IsRowOrder}
use python_event_sourcery.Tests.Rows.{django, texts, two_tenants-Holds}

abbrev first_event : RawEvent
first_event = record (Data.raw_event 3 (some 1)) { stream_id = other_stream }

created :
    ((insert_events texts none keep other_stream
        (explicit_versioning 0 (some 1))
        (first_event ∷ [])
        django).0
      ≡ ok tt)
    × Holds sorting other_stream "" 1
        (first_event ∷ [])
        (insert_events texts none keep other_stream
          (explicit_versioning 0 (some 1))
          (first_event ∷ [])
          django).1.tables
unfolding by_stream_id conflicts all_fresh
created =
    insert_events-new sorting sorting-IsRowOrder texts none keep other_stream 1 first_event []
      django refl refl refl (record { no_events = refl; no_snapshots = refl })
      (1, refl, ground arith, refl) (refl, tt) refl

abbrev snapshot : RawEvent
snapshot = Data.raw_event 4 (some 1)

snapshot_first :
    ((save_snapshot snapshot django).0 ≡ ok tt)
    × Holds sorting order_stream "" 1 (snapshot ∷ []) (save_snapshot snapshot django).1.tables
unfolding two_tenants-Holds
snapshot_first =
    save_snapshot-Holds sorting sorting-IsRowOrder snapshot 1 (Data.raw_event 1 (some 1) ∷ [])
      django two_tenants-Holds refl refl tt
