-- ===== src/Django/Holds.antt =====
-- What a stream holds in the tables of event_sourcery_django/models.py, and what it holds when rows
-- of events are behind its own.
use python_event_sourcery.Prelude.{
  ℕ, suc, ◌+◌, ◌≤◌, Option, none, some, true, false, List, [], ◌∷◌, ◌++◌, map, select,
  select-append, ◌≡◌, ◌∙◌, ap, sym, subst, refl, arith, Bool-cases, inl, inr, ◌==◌, nat_key,
  string_key, option_key, nat_refl, string_refl, option_refl, String, nat_beq, length,
}
use python_event_sourcery.StreamId.{StreamId, TenantId, or_empty}
use python_event_sourcery.EventLog.{IsRising, IsFor}
use python_event_sourcery.Event.{RawEvent, RecordedRaw}
use python_event_sourcery.Tables.{
  Tables, StreamRow, EventRow, SnapshotRow, RowOrder, by_stream_id, raw_event, raw_snapshot,
  stream_id_of, or_none,
}
use python_event_sourcery.Tables.Rows.{IsUpTo, IsRowOrder, IsUpTo-append, In-select}
use python_event_sourcery.TableOutbox.{Texts, OutboxSetting, put_if_any, put_into_table}
use python_event_sourcery.Django.Query.{streams_of, latest_snapshot, query_events, read_from}
use python_event_sourcery.Django.Statements.{entry_rows, same_columns}
use python_event_sourcery.Django.Reads.{rows_of, IsCovered, read_from-append}
use python_event_sourcery.Django.Ensure.{at_version}

-- An event as it is read from the stream of a row
abbrev pub in_stream : StreamRow → RawEvent → RawEvent
in_stream row e = record e { stream_id = stream_id_of row }

-- Under its identifier, the tenant reads `log` from the tables, whose last version is `v`.
pub record Holds (order : RowOrder) (sid : StreamId) (tenant : TenantId) (v : ℕ)
    (log : List RawEvent) (t : Tables) : Type 0 where
  pub row : StreamRow
  pub found : streams_of sid tenant t ≡ row ∷ []
  pub named : stream_id_of row ≡ sid
  pub version : row.version ≡ some v
  pub increasing : IsUpTo 0 v (rows_of row.id t)
  pub covered : IsCovered v (latest_snapshot order row.id none none t)
  pub reads : read_from order (latest_snapshot order row.id none none t) row none none t ≡ log

or_empty-or_none : (c : String) → c == or_empty (or_none c) ≡ true
or_empty-or_none c = elim (Bool-cases (c == "")) [
  | inl empty ↦ rw empty empty
  | inr not_empty ↦ rw not_empty (string_refl c)
]

same_columns-stream_id_of :
    (row : StreamRow) (tenant : TenantId)
    → row.tenant_id == tenant ≡ true
    → same_columns (stream_id_of row) tenant row ≡ true
unfolding stream_id_of
same_columns-stream_id_of row tenant h =
    rw (nat_refl row.uuid, option_refl row.name, or_empty-or_none row.category, h) refl

pub tenant_id-by_stream_id :
    (sid : StreamId) (tenant : TenantId) (row : StreamRow)
    → by_stream_id sid tenant row ≡ true
    → row.tenant_id == tenant ≡ true
unfolding by_stream_id
tenant_id-by_stream_id sid tenant row h = ground arith

pub Holds-same_columns :
    {order : RowOrder} {sid : StreamId} {tenant : TenantId} {v : ℕ} {log : List RawEvent}
    {t : Tables} (h : Holds order sid tenant v log t)
    → same_columns sid tenant h.row ≡ true
Holds-same_columns {sid = sid} {tenant = tenant} {t = t} h =
    let matched = (In-select (by_stream_id sid tenant) t.streams h.row [] h.found).1 in
    subst (λ i. same_columns i tenant h.row ≡ true) h.named
      (same_columns-stream_id_of h.row tenant (tenant_id-by_stream_id sid tenant h.row matched))

pub map-in_stream :
    (sid : StreamId) (row : StreamRow) (events : List RawEvent)
    → stream_id_of row ≡ sid
    → IsFor sid events
    → map (in_stream row) events ≡ events
map-in_stream sid row [] h k = refl
map-in_stream sid row (e ∷ rest) h k = ap2' (h ∙ sym k.0) (map-in_stream sid row rest h k.1)
  where
    ap2' :
        {i : StreamId} {l : List RawEvent}
        → i ≡ e.stream_id
        → l ≡ rest
        → record e { stream_id = i } ∷ l ≡ e ∷ rest
    ap2' p q = rw (p, q) refl

pub IsUpTo-entry_rows :
    (p v : ℕ) (events : List RawEvent) (row : StreamRow) (id : ℕ)
    → IsRising p v events
    → IsUpTo p v (entry_rows events row id)
unfolding entry_rows
IsUpTo-entry_rows p v [] row id h = omega arith
IsUpTo-entry_rows p v (e ∷ rest) row id h =
    (h.0, h.1, h.2, IsUpTo-entry_rows h.0 v rest row (suc id) h.3)

pub select-entry_rows :
    (events : List RawEvent) (row : StreamRow) (id : ℕ)
    → select (λ e. e.stream == row.id) (entry_rows events row id) ≡ entry_rows events row id
unfolding entry_rows
select-entry_rows [] row id = refl
select-entry_rows (e ∷ rest) row id = rw (nat_refl row.id, select-entry_rows rest row (suc id)) refl

pub select-entry_rows_other :
    (events : List RawEvent) (row : StreamRow) (id stream : ℕ)
    → nat_beq row.id stream ≡ false
    → select (λ e. e.stream == stream) (entry_rows events row id) ≡ []
unfolding entry_rows
select-entry_rows_other [] row id stream h = refl
select-entry_rows_other (e ∷ rest) row id stream h =
    rw (h, select-entry_rows_other rest row (suc id) stream h) refl

pub map-raw_event-entry_rows :
    (events : List RawEvent) (row row' : StreamRow) (id : ℕ)
    → map (λ e. raw_event e row') (entry_rows events row id) ≡ map (in_stream row') events
unfolding entry_rows raw_event
map-raw_event-entry_rows [] row row' id = refl
map-raw_event-entry_rows (e ∷ rest) row row' id =
    ap (◌∷◌ (in_stream row' e)) (map-raw_event-entry_rows rest row row' (suc id))

IsCovered-mono :
    (v u : ℕ) (found : Option SnapshotRow) → v ≤ u → IsCovered v found → IsCovered u found
IsCovered-mono v u none h k = tt
IsCovered-mono v u (some s) h k = omega arith

-- The tables after the lock and the insert of the events.
abbrev pub with_events : List EventRow → Tables → Tables
with_events new t = record t { events = t.events ++ new; next_event = t.next_event + length new }

module _ (order : RowOrder) (promised : IsRowOrder order) (texts : Texts)
    (outbox : Option OutboxSetting) where
  read_from-put_into_table :
      (setting : OutboxSetting) (records : List RecordedRaw) (found : Option SnapshotRow)
      (row : StreamRow) (t : Tables)
      → read_from order found row none none (put_into_table texts setting records t)
        ≡ read_from order found row none none t
  unfolding put_into_table read_from query_events
  read_from-put_into_table setting records none row t = refl
  read_from-put_into_table setting records (some s) row t = refl

  pub Holds-put_if_any :
      (sid : StreamId) (tenant : TenantId) (v : ℕ) (log : List RawEvent)
      (records : List RecordedRaw) (t : Tables)
      → Holds order sid tenant v log t
      → Holds order sid tenant v log (put_if_any texts outbox records t)
  unfolding put_into_table latest_snapshot
  Holds-put_if_any sid tenant v log records t h =
      elim outbox as (λ o. Holds order sid tenant v log (put_if_any texts o records t)) [
        | none ↦ h
        | some setting ↦ record {
          row = h.row;
          found = h.found;
          named = h.named;
          version = h.version;
          increasing = h.increasing;
          covered = h.covered;
          reads =
              read_from-put_into_table setting records (latest_snapshot order h.row.id none none t)
                h.row t
              ∙ h.reads;
        }
      ]

  read_from-at_version :
      (u : Option ℕ) (found : Option SnapshotRow) (row : StreamRow) (t : Tables)
      → read_from order found (at_version u row) none none t ≡ read_from order found row none none t
  unfolding read_from raw_event raw_snapshot stream_id_of
  read_from-at_version u none row t = refl
  read_from-at_version u (some s) row t = refl

  pub Holds-with_events :
      (sid : StreamId) (tenant : TenantId) (v u : ℕ) (log events : List RawEvent) (position : ℕ)
      (t : Tables) (streams : List StreamRow) (h : Holds order sid tenant v log t)
      → IsRising v u events
      → v ≤ u
      → IsFor sid events
      → select (by_stream_id sid tenant) streams ≡ at_version (some u) h.row ∷ []
      → Holds order sid tenant u (log ++ events) (
          with_events
            (entry_rows events (at_version (some u) h.row) position)
            (record t { streams = streams }))
  unfolding stream_id_of latest_snapshot
  Holds-with_events sid tenant v u log events position t streams h rising more for found =
      let row = at_version (some u) h.row in
      let new = entry_rows events row position in
      let t' = with_events new (record t { streams = streams }) in
      let snapshot = latest_snapshot order row.id none none t in
      let behind : rows_of row.id t' ≡ rows_of row.id t ++ new =
        select-append (λ e. e.stream == row.id) t.events new
        ∙ ap (λ l. rows_of row.id t ++ l) (select-entry_rows events row position) in
      let grown = IsUpTo-entry_rows v u events row position rising in
      let read =
        read_from-append order promised snapshot h.row v u new t t' h.covered h.increasing grown
          behind in
      record {
        row = row;
        found = found;
        named = h.named;
        version = refl;
        increasing =
            subst (IsUpTo 0 u) (sym behind)
              (IsUpTo-append 0 v u (rows_of row.id t) new h.increasing grown);
        covered = IsCovered-mono v u snapshot more h.covered;
        reads =
            read_from-at_version (some u) snapshot h.row t'
            ∙ read
            ∙ ap (λ l. l ++ map (λ e. raw_event e h.row) new) h.reads
            ∙ ap (λ l. log ++ l)
                (map-raw_event-entry_rows events row h.row position
                  ∙ map-in_stream sid h.row events h.named for);
      }
