-- ===== src/Django/Agree.antt =====
-- When `fetch_events` of event_sourcery_django/event_store.py reads the same from two tables.
use python_event_sourcery.Prelude.{
  ℕ, Option, none, some, Bool, true, ◌&&◌, List, [], ◌∷◌, map, select, ◌≡◌, ◌∙◌, ap, sym, refl, inl,
  ◌==◌, nat_key,
}
use python_event_sourcery.Errors.{Result, ok}
use python_event_sourcery.StreamId.{StreamId, TenantId}
use python_event_sourcery.Event.{RawEvent}
use python_event_sourcery.Tables.{
  Tables, StreamRow, EventRow, SnapshotRow, RowOrder, first_row, get_one, in_range, newer_than,
  raw_event, raw_snapshot,
}
use python_event_sourcery.Tables.Rows.{In, select-select}
use python_event_sourcery.Django.Query.{
  streams_of, latest_snapshot, query_events, read_from, read_found, fetch_rows,
}

-- Two tables agree on the events and the snapshots of a stream.
abbrev pub Agree : ℕ → Tables → Tables → Type 0
Agree id t t' =
    (select (λ e. e.stream == id) t'.events ≡ select (λ e. e.stream == id) t.events)
    × (select (λ s. s.stream == id) t'.snapshots ≡ select (λ s. s.stream == id) t.snapshots)

module _ (order : RowOrder) where
  query_events-Agree :
      (id : ℕ) (start stop : Option ℕ) (more : EventRow → Bool) (t t' : Tables)
      → Agree id t t'
      → query_events order id start stop more t' ≡ query_events order id start stop more t
  unfolding query_events
  query_events-Agree id start stop more t t' h =
      let wanted : EventRow → Bool = λ e. in_range start stop e.version && more e in
      ap order.by_version (
        select-select (λ e. e.stream == id) wanted t'.events
        ∙ ap (select wanted) h.0
        ∙ sym (select-select (λ e. e.stream == id) wanted t.events))

  read_from-Agree :
      (found : Option SnapshotRow) (row : StreamRow) (start stop : Option ℕ) (t t' : Tables)
      → Agree row.id t t'
      → read_from order found row start stop t' ≡ read_from order found row start stop t
  unfolding read_from
  read_from-Agree none row start stop t t' h =
      ap (map (λ e. raw_event e row)) (query_events-Agree row.id start stop (λ _. true) t t' h)
  read_from-Agree (some s) row start stop t t' h =
      ap (λ l. raw_snapshot s row ∷ map (λ e. raw_event e row) l)
        (query_events-Agree row.id start stop (λ e. newer_than s.version e.version) t t' h)

  read_found-Agree :
      (row : StreamRow) (start stop : Option ℕ) (t t' : Tables)
      → Agree row.id t t'
      → read_found order (ok row) start stop t' ≡ read_found order (ok row) start stop t
  unfolding latest_snapshot read_found
  read_found-Agree row start stop t t' h =
      let own : SnapshotRow → Bool = λ s. s.stream == row.id in
      let wanted : SnapshotRow → Bool = λ s. in_range start stop (some s.version) in
      let read : List SnapshotRow → Result (List RawEvent) =
        λ l. ok (read_from order (first_row (order.by_created_at_desc l)) row start stop t') in
      let found = latest_snapshot order row.id start stop t in
      ap read (
        select-select own wanted t'.snapshots
        ∙ ap (select wanted) h.1
        ∙ sym (select-select own wanted t.snapshots))
      ∙ ap ok (read_from-Agree found row start stop t t' h)

  -- The reads of what a lookup found
  read_found-get_one :
      (rows : List StreamRow) (start stop : Option ℕ) (t t' : Tables)
      → ((r : StreamRow) → In r rows → Agree r.id t t')
      → read_found order (get_one rows) start stop t' ≡ read_found order (get_one rows) start stop t
  unfolding get_one read_found
  read_found-get_one [] start stop t t' h = refl
  read_found-get_one (r ∷ []) start stop t t' h =
      read_found-Agree r start stop t t' (h r (inl refl))
  read_found-get_one (r ∷ r' ∷ rest) start stop t t' h = refl

  -- Two tables in which a lookup finds the same rows, with the same events and snapshots, read
  -- alike.
  pub fetch_rows-Agree :
      (tenant : TenantId) (j : StreamId) (start stop : Option ℕ) (t t' : Tables)
      → streams_of j tenant t' ≡ streams_of j tenant t
      → ((r : StreamRow) → In r (streams_of j tenant t) → Agree r.id t t')
      → fetch_rows order tenant j start stop t' ≡ fetch_rows order tenant j start stop t
  unfolding fetch_rows
  fetch_rows-Agree tenant j start stop t t' same h =
      ap (λ l. read_found order (get_one l) start stop t') same
      ∙ read_found-get_one (streams_of j tenant t) start stop t t' h
