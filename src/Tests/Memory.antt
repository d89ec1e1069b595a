-- ===== src/Tests/Memory.antt =====
-- Inserts, reads and locks of the in-memory backend.
use python_event_sourcery.Prelude.{none, some, [], ◌∷◌, ◌≡◌, refl}
use python_event_sourcery.Prelude.Dict.{lookup, insert}
use python_event_sourcery.Errors.{ok, ◌>>◌}
use python_event_sourcery.Versioning.{explicit_versioning}
use python_event_sourcery.InMemory.Strategy.{
  insert_events, fetch_events, save_snapshot, delete_stream, new_strategy,
}
use python_event_sourcery.InMemory.Insert.{verdict}
use python_event_sourcery.InMemory.Created.{stream_version}
use python_event_sourcery.InMemory.Reads.{
  fetch_events-insert_events, fetch_events-delete_stream, fetch_events-save_snapshot,
}
use python_event_sourcery.InMemory.Snapshots.{fetch_events-after_snapshot}
use python_event_sourcery.InMemory.Locking.{insert_events-verdict, expected_zero}
use python_event_sourcery.InMemory.Inserted.{new_records}
use python_event_sourcery.Tests.Data.{
  order_stream, raw_event, keep, all_events, backend, backend-IsValid,
}

fetch_after_insert :
    fetch_events order_stream none none
      (insert_events all_events keep order_stream
        (explicit_versioning 1 (some 2))
        (raw_event 2 (some 2) ∷ [])
        backend).1
    ≡ ok (raw_event 1 (some 1) ∷ raw_event 2 (some 2) ∷ [])
unfolding insert_events fetch_events new_strategy lookup insert
fetch_after_insert =
    (fetch_events-insert_events all_events keep order_stream (explicit_versioning 1 (some 2))
        (raw_event 2 (some 2) ∷ []) backend backend-IsValid refl refl).0
      (raw_event 1 (some 1) ∷ []) refl

insert_verdict :
    (insert_events all_events keep order_stream
      (explicit_versioning 1 (some 2))
      (raw_event 2 (some 2) ∷ [])
      backend).0
    ≡ (verdict (explicit_versioning 1 (some 2)) (stream_version order_stream backend.storage)
        >> (keep
            (new_records all_events keep order_stream
              (explicit_versioning 1 (some 2))
              (raw_event 2 (some 2) ∷ [])
              backend)
            backend.dispatched).0)
insert_verdict =
    insert_events-verdict all_events keep order_stream (explicit_versioning 1 (some 2))
      (raw_event 2 (some 2) ∷ []) backend backend-IsValid refl

zero_is_not_compared :
    fetch_events order_stream none none
      (insert_events all_events keep order_stream
        (explicit_versioning 0 (some 1))
        (raw_event 2 (some 1) ∷ [])
        backend).1
    ≡ ok (raw_event 1 (some 1) ∷ raw_event 2 (some 1) ∷ [])
unfolding insert_events fetch_events new_strategy lookup insert
zero_is_not_compared =
    expected_zero all_events keep order_stream 1 (some 1) (raw_event 2 (some 1) ∷ []) backend
      backend-IsValid refl refl (raw_event 1 (some 1) ∷ []) refl

deleted_stream : (delete_stream order_stream backend).0 ≡ ok tt
deleted_stream = (fetch_events-delete_stream order_stream backend).0

snapshot_alone :
    fetch_events order_stream none none (save_snapshot (raw_event 9 (some 1)) backend)
    ≡ ok (raw_event 9 (some 1) ∷ [])
snapshot_alone = (fetch_events-save_snapshot (raw_event 9 (some 1)) backend).0

nothing_after_snapshot :
    fetch_events order_stream (some 2) none (save_snapshot (raw_event 9 (some 2)) backend) ≡ ok []
nothing_after_snapshot = fetch_events-after_snapshot (raw_event 9 (some 2)) backend 0 none
