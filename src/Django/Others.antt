-- ===== src/Django/Others.antt =====
-- What `insert_events` of event_sourcery_django/event_store.py leaves alone: every lookup that does
-- not find the row of the stream, so the other streams and the other tenants.
use python_event_sourcery.Prelude.{
  ℕ, suc, Option, none, some, Bool, true, false, List, [], ◌∷◌, ◌++◌, map, select, select-append,
  if◌then◌else◌, ◌≡◌, ◌∙◌, ap, refl, arith, Bool-cases, inl, inr, ◌==◌, nat_key, nat_beq,
}
use mathlib.Core.List.{append-nil}
use python_event_sourcery.Exec.{Exec}
use python_event_sourcery.StreamId.{StreamId, TenantId}
use python_event_sourcery.Event.{RawEvent, RecordedRaw}
use python_event_sourcery.EventLog.{IsFor}
use python_event_sourcery.Tables.{Tables, StreamRow, RowOrder, by_stream_id}
use python_event_sourcery.Tables.Rows.{
  IsRowOrder, IsDistinct, In, In-select, In-of_select, In-same_id, select-map,
}
use python_event_sourcery.TableOutbox.{Texts, OutboxSetting, put_if_any, put_into_table}
use python_event_sourcery.Versioning.{explicit_versioning}
use python_event_sourcery.Django.{DjangoState, insert_events}
use python_event_sourcery.Django.Bulk.{are_fresh, streams-put_if_any}
use python_event_sourcery.Django.Inserts.{ensured_and_found, insert_events-ensured}
use python_event_sourcery.Django.Query.{streams_of, fetch_rows}
use python_event_sourcery.Django.Statements.{records_of, entry_rows, bump_version, has_version}
use python_event_sourcery.Django.Ensure.{bumped, at_version}
use python_event_sourcery.Django.Agree.{Agree, fetch_rows-Agree}
use python_event_sourcery.Django.Holds.{Holds, with_events, select-entry_rows_other}

-- A row that the condition does not hold of is none of those found.
pub apart-In :
    (p : StreamRow → Bool) (rows : List StreamRow) (row r : StreamRow)
    → IsDistinct rows
    → In row rows
    → p row ≡ false
    → In r (select p rows)
    → nat_beq row.id r.id ≡ false
apart-In p rows row r distinct there missed found =
    let (within, met) = In-of_select p rows r found in
    elim (Bool-cases (nat_beq row.id r.id)) [
      | inr apart ↦ apart
      | inl equal ↦
          let one = In-same_id row r rows distinct there within equal in
          absurd (ground (arith, ap p one))
    ]

map-apart :
    (f : StreamRow → StreamRow) (rows : List StreamRow)
    → ((r : StreamRow) → In r rows → f r ≡ r)
    → map f rows ≡ rows
map-apart f [] h = refl
map-apart f (r ∷ rest) h = rw (h r (inl refl), map-apart f rest (λ r' k. h r' (inr k))) refl

-- The lock on one row does not change what a lookup finds that does not find this row.
streams_of-bumped_other :
    (tenant : TenantId) (j : StreamId) (row : StreamRow) (expected : ℕ) (u : Option ℕ) (t : Tables)
    → IsDistinct t.streams
    → In row t.streams
    → by_stream_id j tenant row ≡ false
    → streams_of j tenant (bumped row.id expected u t) ≡ streams_of j tenant t
unfolding bump_version by_stream_id
streams_of-bumped_other tenant j row expected u t distinct there missed =
    let change : StreamRow → StreamRow =
      λ r. if has_version row.id expected r then at_version u r else r in
    select-map (by_stream_id j tenant) change t.streams (λ r.
      elim (Bool-cases (has_version row.id expected r)) [ inl a ↦ rw a refl | inr b ↦ rw b refl ])
    ∙ map-apart change (streams_of j tenant t) (λ r k.
      let apart = apart-In (by_stream_id j tenant) t.streams row r distinct there missed k in
      unchanged r (ground (arith, apart)))
  where
    unchanged :
        (r : StreamRow)
        → nat_beq r.id row.id ≡ false
        → (if has_version row.id expected r then at_version u r else r) ≡ r
    unchanged r h = rw h refl

-- Rows behind those of one stream are none of another.
Agree-with_events :
    (events : List RawEvent) (row r : StreamRow) (position : ℕ) (t : Tables)
    → nat_beq row.id r.id ≡ false
    → Agree r.id t (with_events (entry_rows events row position) t)
Agree-with_events events row r position t h = (
  select-append (λ e. e.stream == r.id) t.events (entry_rows events row position)
      ∙ ap (λ l. select (λ e. e.stream == r.id) t.events ++ l)
          (select-entry_rows_other events row position r.id h)
      ∙ append-nil (select (λ e. e.stream == r.id) t.events),
  refl,
)

Agree-put_if_any :
    (texts : Texts) (outbox : Option OutboxSetting) (records : List RecordedRaw) (id : ℕ)
    (t t' : Tables)
    → Agree id t t'
    → Agree id t (put_if_any texts outbox records t')
unfolding put_into_table
Agree-put_if_any texts none records id t t' h = h
Agree-put_if_any texts (some setting) records id t t' h = h

module _ {ℓ} {T : Type ℓ} (order : RowOrder) (promised : IsRowOrder order) (texts : Texts)
    (outbox : Option OutboxSetting) (dispatch : List RecordedRaw → Exec T (Unit {0})) where
  -- If the database keeps to its orders: a tenant's stream holds `log` up to the version
  -- `expected`, not 0, its row has the name of the identifier, and no two rows have one number.
  -- After an insert of events for the stream that are one at least and have new UUIDs, with
  -- `expected` as the expected version, every lookup that does not find the row of the stream, as
  -- that of another tenant or of another identifier and name, reads in every range what it read
  -- before.
  pub fetch_rows-insert_events :
      (sid : StreamId) (expected u : ℕ) (log : List RawEvent) (e : RawEvent) (rest : List RawEvent)
      (s : DjangoState T)
      → IsDistinct s.tables.streams
      → (h : Holds order sid s.tenant_id (suc expected) log s.tables) → IsFor sid (e ∷ rest)
      → are_fresh (e ∷ rest) s.tables ≡ true
      → (tenant : TenantId) (j : StreamId) (start stop : Option ℕ)
      → by_stream_id j tenant h.row ≡ false
      → fetch_rows order tenant j start stop
          (insert_events texts outbox dispatch sid
            (explicit_versioning (suc expected) (some u))
            (e ∷ rest)
            s).1.tables
        ≡ fetch_rows order tenant j start stop s.tables
  fetch_rows-insert_events sid expected u log e rest s distinct h for fresh tenant j start stop
        missed =
      let row = at_version (some u) h.row in
      let t = bumped h.row.id (suc expected) (some u) s.tables in
      let new = e ∷ rest in
      let (ensured, found) =
        ensured_and_found order promised texts outbox dispatch sid expected u log s distinct h in
      let run =
        insert_events-ensured order promised texts outbox dispatch sid (suc expected) u e rest row s
          t ensured for.0 found fresh in
      let there = (In-select (by_stream_id sid s.tenant_id) s.tables.streams h.row [] h.found).0 in
      let records = records_of s.tenant_id new s.tables.next_event in
      let stored = with_events (entry_rows new row s.tables.next_event) t in
      let after = put_if_any texts outbox records stored in
      let same =
        streams_of-bumped_other tenant j h.row (suc expected) (some u) s.tables distinct there
          missed in
      ap (λ r. fetch_rows order tenant j start stop r.1.tables) run
      ∙ fetch_rows-Agree order tenant j start stop s.tables after
          (ap (select (by_stream_id j tenant)) (streams-put_if_any texts outbox records stored)
            ∙ same)
          (λ r k. Agree-put_if_any texts outbox records r.id s.tables stored (
            Agree-with_events new row r s.tables.next_event s.tables
              (apart-In (by_stream_id j tenant) s.tables.streams h.row r distinct there missed k)))
