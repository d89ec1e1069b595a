-- ===== src/Django/Inserts.antt =====
-- What `insert_events` of event_sourcery_django/event_store.py does to what a stream holds.
use python_event_sourcery.Prelude.{
  ℕ, suc, Option, some, true, false, List, [], ◌∷◌, ◌++◌, map, if◌then◌else◌, ◌≡◌, ◌∙◌, ap, sym,
  subst, refl, Bool-cases, inl, inr, nat_key, string_key, option_key, nat_refl, nat_beq,
}
use python_event_sourcery.Errors.{ok, err}
use python_event_sourcery.Exec.{Exec}
use python_event_sourcery.StreamId.{StreamId, TenantId}
use python_event_sourcery.Versioning.{explicit_versioning}
use python_event_sourcery.EventLog.{IsRising, IsFor}
use python_event_sourcery.Event.{RawEvent, RecordedRaw}
use python_event_sourcery.Tables.{Tables, StreamRow, RowOrder, by_stream_id, get_one}
use python_event_sourcery.Tables.Rows.{IsRowOrder, IsDistinct, select-map}
use python_event_sourcery.TableOutbox.{Texts, OutboxSetting, put_if_any}
use python_event_sourcery.Django.{DjangoState, insert_events, insert_into}
use python_event_sourcery.Django.Query.{streams_of}
use python_event_sourcery.Django.Statements.{
  ensure_row, entry_rows, records_of, bulk_create, all_fresh, bump_version, has_version,
}
use python_event_sourcery.Django.Ensure.{at_version, bumped, ensure_row-found}
use python_event_sourcery.Django.Holds.{
  Holds, with_events, Holds-same_columns, Holds-put_if_any, Holds-with_events,
}
use python_event_sourcery.Errors.{integrity_error, concurrent_stream_write_without_arguments}
use python_event_sourcery.Django.Ensure.{ensure_row-stale}
use python_event_sourcery.Django.Bulk.{
  IsRising-le, are_fresh, map-uuid-entry_rows, IsDistinct-bumped, streams-put_if_any,
}

module _ {ℓ} {T : Type ℓ} (order : RowOrder) (promised : IsRowOrder order) (texts : Texts)
    (outbox : Option OutboxSetting) (dispatch : List RecordedRaw → Exec T (Unit {0})) where
  insert_into-fresh :
      (events : List RawEvent) (row : StreamRow) (position : ℕ) (s : DjangoState T)
      → are_fresh events s.tables ≡ true
      → insert_into texts outbox dispatch events row position s ≡ (
        (dispatch (records_of s.tenant_id events position) s.dispatched).0,
        record s {
          tables =
              put_if_any texts outbox
                (records_of s.tenant_id events position)
                (with_events (entry_rows events row position) s.tables);
          dispatched = (dispatch (records_of s.tenant_id events position) s.dispatched).1;
        },
      )
  unfolding bulk_create insert_into
  insert_into-fresh events row position s h =
      let same_uuids =
        ap (all_fresh (map (λ e. e.uuid) s.tables.events))
          (map-uuid-entry_rows events row position) in
      rw (same_uuids ∙ h) refl

  -- The records of an insert, and the tables after it.
  abbrev pub inserted : List RawEvent → StreamRow → DjangoState T → Tables → DjangoState T
  inserted events row s t =
      let records = records_of s.tenant_id events t.next_event in
      record s {
        tables =
            put_if_any texts outbox records (with_events (entry_rows events row t.next_event) t);
        dispatched = (dispatch records s.dispatched).1;
      }

  pub insert_events-ensured :
      (sid : StreamId) (expected u : ℕ) (e : RawEvent) (rest : List RawEvent) (row : StreamRow)
      (s : DjangoState T) (t : Tables)
      → ensure_row sid s.tenant_id (explicit_versioning expected (some u)) s.tables ≡ (ok tt, t)
      → e.stream_id ≡ sid
      → streams_of sid s.tenant_id t ≡ row ∷ []
      → are_fresh (e ∷ rest) t ≡ true
      → insert_events texts outbox dispatch sid (explicit_versioning expected (some u)) (e ∷ rest) s
        ≡ (
          (dispatch (records_of s.tenant_id (e ∷ rest) t.next_event) s.dispatched).0,
          inserted (e ∷ rest) row s t,
        )
  unfolding get_one insert_events
  insert_events-ensured sid expected u e rest row s t ensured for found fresh =
      let row_found : get_one (streams_of e.stream_id s.tenant_id t) ≡ ok row =
        rw (for, found) refl in
      rw (ensured, row_found)
        (insert_into-fresh (e ∷ rest) row t.next_event (record s { tables = t }) fresh)

  -- The lock moves the row of the stream to the new version.
  streams_of-bumped :
      (sid : StreamId) (tenant : TenantId) (expected : ℕ) (u : Option ℕ) (t : Tables)
      (row : StreamRow)
      → streams_of sid tenant t ≡ row ∷ []
      → row.version ≡ some expected
      → streams_of sid tenant (bumped row.id expected u t) ≡ at_version u row ∷ []
  unfolding bump_version by_stream_id
  streams_of-bumped sid tenant expected u t row found v =
      let change : StreamRow → StreamRow =
        λ r. if has_version row.id expected r then at_version u r else r in
      let hits : has_version row.id expected row ≡ true =
        rw (v, nat_refl row.id, nat_refl expected) refl in
      select-map (by_stream_id sid tenant) change t.streams (λ r.
        elim (Bool-cases (has_version row.id expected r)) [ inl a ↦ rw a refl | inr b ↦ rw b refl ])
      ∙ ap (map change) found
      ∙ (rw hits refl)

  -- An insert with an expected version other than 0
  abbrev pub locked_insert : StreamId → ℕ → ℕ → List RawEvent → Exec (DjangoState T) (Unit {0})
  locked_insert sid expected u events =
      insert_events texts outbox dispatch sid (explicit_versioning (suc expected) (some u)) events

  -- What the lock leaves on the row of the stream
  pub ensured_and_found :
      (sid : StreamId) (expected u : ℕ) (log : List RawEvent) (s : DjangoState T)
      → IsDistinct s.tables.streams
      → (h : Holds order sid s.tenant_id (suc expected) log s.tables)
      → (ensure_row sid s.tenant_id (explicit_versioning (suc expected) (some u)) s.tables
          ≡ (ok tt, bumped h.row.id (suc expected) (some u) s.tables))
        × (streams_of sid s.tenant_id (bumped h.row.id (suc expected) (some u) s.tables)
            ≡ at_version (some u) h.row ∷ [])
  ensured_and_found sid expected u log s distinct h = (
    ensure_row-found sid s.tenant_id h.row s.tables h.found (Holds-same_columns h) expected (some u)
        distinct h.version,
    streams_of-bumped sid s.tenant_id (suc expected) (some u) s.tables h.row h.found h.version,
  )

  -- The two ways in which an insert is refused before its records are dispatched.
  pub insert_events-stale :
      (sid : StreamId) (version expected : ℕ) (u : Option ℕ) (log events : List RawEvent)
      (s : DjangoState T)
      → IsDistinct s.tables.streams
      → Holds order sid s.tenant_id version log s.tables
      → nat_beq version (suc expected) ≡ false
      → insert_events texts outbox dispatch sid (explicit_versioning (suc expected) u) events s
        ≡ (err concurrent_stream_write_without_arguments, s)
  unfolding insert_events
  insert_events-stale sid version expected u log events s distinct h stale =
      let same = Holds-same_columns h in
      rw
        (ensure_row-stale sid s.tenant_id h.row s.tables h.found same version expected u distinct
          h.version stale)
        refl

  insert_events-duplicate :
      (sid : StreamId) (expected u : ℕ) (log : List RawEvent) (e : RawEvent) (rest : List RawEvent)
      (s : DjangoState T)
      → IsDistinct s.tables.streams
      → Holds order sid s.tenant_id (suc expected) log s.tables
      → e.stream_id ≡ sid
      → are_fresh (e ∷ rest) s.tables ≡ false
      → (insert_events texts outbox dispatch sid
          (explicit_versioning (suc expected) (some u))
          (e ∷ rest)
          s).0
        ≡ err integrity_error
  unfolding insert_into bulk_create get_one insert_events
  insert_events-duplicate sid expected u log e rest s distinct h for stored =
      let row = at_version (some u) h.row in
      let t = bumped h.row.id (suc expected) (some u) s.tables in
      let (ensured, found) = ensured_and_found sid expected u log s distinct h in
      let row_found : get_one (streams_of e.stream_id s.tenant_id t) ≡ ok row =
        rw (for, found) refl in
      let same_uuids =
        ap (all_fresh (map (λ e. e.uuid) s.tables.events))
          (map-uuid-entry_rows (e ∷ rest) row s.tables.next_event) in
      rw (ensured, row_found) (rw (same_uuids ∙ stored) refl)

  -- If the database keeps to its orders: a tenant's stream holds `log` up to the version
  -- `expected`, not 0, its row has the name of the identifier, and no two rows have one number. An
  -- insert of events for the stream that are one at least, have versions that grow from above
  -- `expected`, the last `u`, and new UUIDs, with `expected` as the expected version and `u` as
  -- the initial one, answers what the dispatcher answers to the new records. The stream then holds
  -- `log` and the events behind it, up to the version `u`, the rows still have a number each, and
  -- the tenant is the same.
  pub insert_events-Holds :
      (sid : StreamId) (expected u : ℕ) (log : List RawEvent) (e : RawEvent) (rest : List RawEvent)
      (s : DjangoState T)
      → IsDistinct s.tables.streams
      → Holds order sid s.tenant_id (suc expected) log s.tables
      → IsRising (suc expected) u (e ∷ rest)
      → IsFor sid (e ∷ rest)
      → are_fresh (e ∷ rest) s.tables ≡ true
      → ((locked_insert sid expected u (e ∷ rest) s).0
          ≡ (dispatch (records_of s.tenant_id (e ∷ rest) s.tables.next_event) s.dispatched).0)
        × Holds order sid s.tenant_id u
            (log ++ e ∷ rest)
            (locked_insert sid expected u (e ∷ rest) s).1.tables
        × IsDistinct (locked_insert sid expected u (e ∷ rest) s).1.tables.streams
        × ((locked_insert sid expected u (e ∷ rest) s).1.tenant_id ≡ s.tenant_id)
  insert_events-Holds sid expected u log e rest s distinct h rising for fresh =
      let row = at_version (some u) h.row in
      let t = bumped h.row.id (suc expected) (some u) s.tables in
      let new = e ∷ rest in
      let (ensured, found) = ensured_and_found sid expected u log s distinct h in
      let run =
        insert_events-ensured sid (suc expected) u e rest row s t ensured for.0 found fresh in
      let records = records_of s.tenant_id new s.tables.next_event in
      let stored = with_events (entry_rows new row s.tables.next_event) t in
      let held =
        Holds-with_events order promised texts outbox sid s.tenant_id (suc expected) u log new
          s.tables.next_event s.tables t.streams h rising (IsRising-le (suc expected) u new rising)
          for found in
      let put =
        Holds-put_if_any order promised texts outbox sid s.tenant_id u (log ++ new) records stored
          held in
      let apart = IsDistinct-bumped h.row.id (suc expected) (some u) s.tables.streams distinct in
      let still = sym (streams-put_if_any texts outbox records stored) in
      (
        ap (λ r. r.0) run,
        subst (λ r. Holds order sid s.tenant_id u (log ++ new) r.1.tables) (sym run) put,
        subst (λ r. IsDistinct r.1.tables.streams) (sym run) (subst IsDistinct still apart),
        ap (λ r. r.1.tenant_id) run,
      )
