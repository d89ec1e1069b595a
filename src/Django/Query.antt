-- ===== src/Django/Query.antt =====
-- `StreamManager.by_stream_id` of event_sourcery_django/models.py, and `fetch_events` of its
-- event_store.py, over the tables.
use python_event_sourcery.Prelude.{
  ℕ, Option, none, some, Bool, true, ◌&&◌, List, [], ◌∷◌, map, select, ◌==◌, nat_key, string_key,
  option_key,
}
use python_event_sourcery.Errors.{Result, ok, err, does_not_exist}
use python_event_sourcery.StreamId.{StreamId, TenantId}
use python_event_sourcery.Event.{RawEvent}
use python_event_sourcery.Tables.{
  Tables, StreamRow, EventRow, SnapshotRow, RowOrder, by_stream_id, get_one, raw_event,
  raw_snapshot, in_range, newer_than, first_row,
}

abbrev pub streams_of : StreamId → TenantId → Tables → List StreamRow
streams_of sid tenant t = select (by_stream_id sid tenant) t.streams

module _ (order : RowOrder) where
  -- `snapshot_query.first()`
  unfoldable pub latest_snapshot : ℕ → Option ℕ → Option ℕ → Tables → Option SnapshotRow
  latest_snapshot stream start stop t = first_row (
      order.by_created_at_desc
        (select (λ s. (s.stream == stream) && in_range start stop (some s.version)) t.snapshots))

  -- `events_query`, with the condition that a snapshot adds
  unfoldable pub query_events : ℕ → Option ℕ → Option ℕ → (EventRow → Bool) → Tables → List EventRow
  query_events stream start stop more t =
      order.by_version
        (select (λ e. (e.stream == stream) && (in_range start stop e.version && more e)) t.events)

  unfoldable pub read_from :
      Option SnapshotRow → StreamRow → Option ℕ → Option ℕ → Tables → List RawEvent
  unfolding query_events
  read_from none row start stop t =
      map (λ e. raw_event e row) (query_events row.id start stop (λ _. true) t)
  read_from (some s) row start stop t =
      raw_snapshot s row
      ∷ map (λ e. raw_event e row)
          (query_events row.id start stop (λ e. newer_than s.version e.version) t)

  -- An event's row, or that of a stream, that does not exist is caught.
  unfoldable pub read_found :
      Result StreamRow → Option ℕ → Option ℕ → Tables → Result (List RawEvent)
  unfolding read_from latest_snapshot
  read_found (ok row) start stop t =
      ok (read_from (latest_snapshot row.id start stop t) row start stop t)
  read_found (err does_not_exist) start stop t = ok []
  read_found (err e) start stop t = err e

  unfoldable pub fetch_rows :
      TenantId → StreamId → Option ℕ → Option ℕ → Tables → Result (List RawEvent)
  unfolding read_found
  fetch_rows tenant sid start stop t = read_found (get_one (streams_of sid tenant t)) start stop t
