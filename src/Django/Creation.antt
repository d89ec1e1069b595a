-- ===== src/Django/Creation.antt =====
-- The first insert of a stream by `insert_events` of event_sourcery_django/event_store.py.
use python_event_sourcery.Prelude.{
  ℕ, Option, none, some, Bool, true, not, List, [], ◌∷◌, ◌++◌, map, select, select-append, all, ◌≡◌,
  ◌∙◌, ap, sym, subst, refl, arith, ◌==◌, nat_key, string_key, option_key, nat_refl, string_refl,
}
use python_event_sourcery.Exec.{Exec}
use python_event_sourcery.StreamId.{StreamId, TenantId, or_empty}
use python_event_sourcery.Versioning.{explicit_versioning}
use python_event_sourcery.Event.{RawEvent, RecordedRaw}
use python_event_sourcery.EventLog.{IsRising, IsFor}
use python_event_sourcery.Tables.{
  Tables, StreamRow, SnapshotRow, RowOrder, by_stream_id, conflicts, raw_event, stream_id_of,
  first_row, or_none, in_range,
}
use python_event_sourcery.Tables.Rows.{IsRowOrder, IsUpTo, select-select}
use python_event_sourcery.TableOutbox.{Texts, OutboxSetting}
use python_event_sourcery.Django.{DjangoState, insert_events}
use python_event_sourcery.Django.Query.{streams_of, latest_snapshot, read_from}
use python_event_sourcery.Django.Statements.{records_of, entry_rows, new_row}
use python_event_sourcery.Django.Reads.{rows_of, IsCovered, query_events-select, read_from-append}
use python_event_sourcery.Django.Ensure.{with_stream, ensure_row-new}
use python_event_sourcery.Django.Holds.{
  Holds, with_events, map-in_stream, Holds-put_if_any, IsUpTo-entry_rows, select-entry_rows,
  map-raw_event-entry_rows,
}
use python_event_sourcery.Django.Bulk.{are_fresh}
use python_event_sourcery.Django.Inserts.{insert_events-ensured}

by_stream_id-new_row :
    (sid : StreamId) (tenant : TenantId) (version : Option ℕ) (id : ℕ)
    → by_stream_id sid tenant (new_row sid tenant version id) ≡ true
unfolding by_stream_id
by_stream_id-new_row sid tenant version id =
    rw (nat_refl sid.uuid, string_refl (or_empty sid.category), string_refl tenant) refl

-- Nothing refers to a row with the next number.
pub record IsUnused (t : Tables) : Type 0 where
  pub no_events : rows_of t.next_stream t ≡ []
  pub no_snapshots : select (λ s. s.stream == t.next_stream) t.snapshots ≡ []

module _ {ℓ} {T : Type ℓ} (order : RowOrder) (promised : IsRowOrder order) (texts : Texts)
    (outbox : Option OutboxSetting) (dispatch : List RecordedRaw → Exec T (Unit {0})) where
  latest_snapshot-unused :
      (id : ℕ) (t : Tables)
      → select (λ s. s.stream == id) t.snapshots ≡ []
      → latest_snapshot order id none none t ≡ none
  unfolding latest_snapshot
  latest_snapshot-unused id t h =
      let all_versions : SnapshotRow → Bool = λ s. in_range none none (some s.version) in
      ap (λ l. first_row (order.by_created_at_desc l))
        (select-select (λ s. s.stream == id) all_versions t.snapshots ∙ ap (select all_versions) h)
      ∙ ap first_row promised.by_created_at_desc-nil

  read_from-unused :
      (row : StreamRow) (t : Tables)
      → rows_of row.id t ≡ []
      → read_from order none row none none t ≡ []
  unfolding read_from
  read_from-unused row t h =
      let rising : IsUpTo 0 0 (rows_of row.id t) = subst (IsUpTo 0 0) (sym h) (omega arith) in
      ap (map (λ e. raw_event e row)) (
        query_events-select order promised row.id 0 (λ _. true) t rising
        ∙ ap (select (λ _. true)) h)

  Holds-new :
      (sid : StreamId) (tenant : TenantId) (u : ℕ) (events : List RawEvent) (t : Tables)
      → streams_of sid tenant t ≡ []
      → IsUnused t
      → or_none (or_empty sid.category) ≡ sid.category
      → IsRising 0 u events
      → IsFor sid events
      → let row = new_row sid tenant (some u) t.next_stream in
        Holds order sid tenant u events
          (with_events (entry_rows events row t.next_event) (with_stream row t))
  unfolding stream_id_of
  Holds-new sid tenant u events t none_found unused category rising for =
      let row = new_row sid tenant (some u) t.next_stream in
      let new = entry_rows events row t.next_event in
      let t' = with_events new (with_stream row t) in
      let behind : rows_of row.id t' ≡ rows_of row.id t ++ new =
        select-append (λ e. e.stream == row.id) t.events new
        ∙ ap (λ l. rows_of row.id t ++ l) (select-entry_rows events row t.next_event) in
      let grown = IsUpTo-entry_rows 0 u events row t.next_event rising in
      let empty : IsUpTo 0 0 (rows_of row.id t) =
        subst (IsUpTo 0 0) (sym unused.no_events) (omega arith) in
      let latest : latest_snapshot order row.id none none t' ≡ none =
        latest_snapshot-unused row.id t' unused.no_snapshots in
      record {
        row = row;
        found =
            select-append (by_stream_id sid tenant) t.streams (row ∷ [])
            ∙ ap (λ l. l ++ select (by_stream_id sid tenant) (row ∷ [])) none_found
            ∙ (rw (by_stream_id-new_row sid tenant (some u) t.next_stream) refl);
        named = ap (λ c. record { uuid = sid.uuid; name = sid.name; category = c }) category;
        version = refl;
        increasing = subst (IsUpTo 0 u) (sym (behind ∙ ap (λ l. l ++ new) unused.no_events)) grown;
        covered = subst (IsCovered u) (sym latest) tt;
        reads =
            ap (λ f. read_from order f row none none t') latest
            ∙ read_from-append order promised none row 0 u new t t' tt empty grown behind
            ∙ ap (λ l. l ++ map (λ e. raw_event e row) new)
                (read_from-unused row t unused.no_events)
            ∙ map-raw_event-entry_rows events row row t.next_event
            ∙ map-in_stream sid row events
                (ap (λ c. record { uuid = sid.uuid; name = sid.name; category = c }) category) for;
      }

  -- If the database keeps to its orders: no row stands for the identifier of a tenant, whose
  -- category is not the empty text; the row that an insert makes of it conflicts with no other, and
  -- no event or snapshot refers to its number. An insert with the expected version 0 of events for
  -- the stream that are one at least, have versions that grow from above 0, the last `u`, and new
  -- UUIDs, answers what the dispatcher answers to the new records, and the stream then holds the
  -- events up to the version `u`.
  pub insert_events-new :
      (sid : StreamId) (u : ℕ) (e : RawEvent) (rest : List RawEvent) (s : DjangoState T)
      → streams_of sid s.tenant_id s.tables ≡ []
      → or_none (or_empty sid.category) ≡ sid.category
      → all
          (λ r. not (conflicts r (new_row sid s.tenant_id (some u) s.tables.next_stream)))
          s.tables.streams
        ≡ true
      → IsUnused s.tables
      → IsRising 0 u (e ∷ rest)
      → IsFor sid (e ∷ rest)
      → are_fresh (e ∷ rest) s.tables ≡ true
      → ((insert_events texts outbox dispatch sid (explicit_versioning 0 (some u)) (e ∷ rest) s).0
          ≡ (dispatch (records_of s.tenant_id (e ∷ rest) s.tables.next_event) s.dispatched).0)
        × Holds order sid s.tenant_id u
            (e ∷ rest)
            (insert_events texts outbox dispatch sid
              (explicit_versioning 0 (some u))
              (e ∷ rest)
              s).1.tables
  insert_events-new sid u e rest s none_found category free unused rising for fresh =
      let row = new_row sid s.tenant_id (some u) s.tables.next_stream in
      let new = e ∷ rest in
      let t = with_stream row s.tables in
      let ensured = ensure_row-new sid s.tenant_id u s.tables none_found free in
      let found =
        select-append (by_stream_id sid s.tenant_id) s.tables.streams (row ∷ [])
        ∙ ap (λ l. l ++ select (by_stream_id sid s.tenant_id) (row ∷ [])) none_found
        ∙ (rw (by_stream_id-new_row sid s.tenant_id (some u) s.tables.next_stream) refl) in
      let run =
        insert_events-ensured order promised texts outbox dispatch sid 0 u e rest row s t ensured
          for.0 found fresh in
      let records = records_of s.tenant_id new s.tables.next_event in
      let held = Holds-new sid s.tenant_id u new s.tables none_found unused category rising for in
      let stored = with_events (entry_rows new row s.tables.next_event) t in
      (
        ap (λ r. r.0) run,
        subst (λ r. Holds order sid s.tenant_id u new r.1.tables) (sym run)
            (Holds-put_if_any order promised texts outbox sid s.tenant_id u new records stored
              held),
      )
