-- ===== src/SqlAlchemy/Query.antt =====
-- `StreamIdComparator` of event_sourcery_sqlalchemy/models/base.py, and `fetch_events` of its
-- event_store.py, over the tables.
use python_event_sourcery.Prelude.{
  ℕ, String, Option, none, some, Bool, true, ◌&&◌, List, [], ◌∷◌, select, find, is_some, ◌==◌,
  nat_key, string_key, option_key,
}
use python_event_sourcery.StreamId.{StreamId, TenantId, or_empty, truthy}
use python_event_sourcery.Event.{RawEvent}
use python_event_sourcery.Tables.{
  Tables, StreamRow, EventRow, SnapshotRow, RowOrder, raw_event, raw_snapshot, in_range, newer_than,
  first_row,
}

-- `name == other.name if other.name else true()`; a null equals nothing
abbrev pub name_matches : Option String → StreamRow → Bool
name_matches none r = true
name_matches (some n) r = r.name == some n

-- `StreamIdComparator.__eq__`
unfoldable pub compares : StreamId → StreamRow → Bool
compares sid r =
    (r.uuid == sid.uuid)
    && (name_matches (truthy sid.name) r && (r.category == or_empty sid.category))

abbrev pub of_tenant : StreamId → TenantId → StreamRow → Bool
of_tenant sid tenant r = compares sid r && (r.tenant_id == tenant)

-- The stream of a row, through its foreign key
unfoldable pub stream_of : ℕ → Tables → Option StreamRow
stream_of id t = find (λ r. r.id == id) t.streams

-- `EXISTS`: the stream of a row meets the condition.
unfoldable pub has_stream_with : (StreamRow → Bool) → ℕ → Tables → Bool
has_stream_with p id t = is_some (find (λ r. (r.id == id) && p r) t.streams)

-- A row is read with its stream. Each has one, since the foreign key is not null.
unfoldable pub with_event : Option StreamRow → EventRow → List RawEvent → List RawEvent
with_event none e rest = rest
with_event (some r) e rest = raw_event e r ∷ rest

unfoldable pub with_snapshot : Option StreamRow → SnapshotRow → List RawEvent → List RawEvent
with_snapshot none s rest = rest
with_snapshot (some r) s rest = raw_snapshot s r ∷ rest

unfoldable pub raw_events : Tables → List EventRow → List RawEvent
unfolding stream_of with_event
raw_events t [] = []
raw_events t (e ∷ rest) = with_event (stream_of e.stream t) e (raw_events t rest)

module _ (order : RowOrder) where
  unfoldable pub newest_snapshot :
      TenantId → StreamId → Option ℕ → Option ℕ → Tables → Option SnapshotRow
  unfolding has_stream_with
  newest_snapshot tenant sid start stop t = first_row (
      order.by_created_at_desc (
        select
          (λ s.
            has_stream_with (of_tenant sid tenant) s.stream t
            && in_range start stop (some s.version))
          t.snapshots))

  unfoldable pub select_events :
      TenantId → StreamId → Option ℕ → Option ℕ → (EventRow → Bool) → Tables → List EventRow
  unfolding has_stream_with
  select_events tenant sid start stop more t = order.by_version (
      select
        (λ e.
          has_stream_with (of_tenant sid tenant) e.stream t
          && (in_range start stop e.version && more e))
        t.events)

  unfoldable pub read_after :
      Option SnapshotRow → TenantId → StreamId → Option ℕ → Option ℕ → Tables → List RawEvent
  unfolding select_events raw_events stream_of with_snapshot
  read_after none tenant sid start stop t =
      raw_events t (select_events tenant sid start stop (λ _. true) t)
  read_after (some s) tenant sid start stop t =
      with_snapshot (stream_of s.stream t) s
        (raw_events t (select_events tenant sid start stop (λ e. newer_than s.version e.version) t))

  unfoldable pub fetch_of : TenantId → StreamId → Option ℕ → Option ℕ → Tables → List RawEvent
  unfolding read_after newest_snapshot
  fetch_of tenant sid start stop t =
      read_after (newest_snapshot tenant sid start stop t) tenant sid start stop t
