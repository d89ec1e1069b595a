-- ===== src/Django/Snapshots.antt =====
-- `save_snapshot` of event_sourcery_django/event_store.py, and what is read after it.
use python_event_sourcery.Prelude.{
  ℕ, none, some, Bool, true, false, not, List, [], ◌∷◌, ◌++◌, map, select, select-append, all, ◌≡◌,
  ◌∙◌, ap, sym, subst, refl, arith, ◌==◌, nat_key, nat_refl, ◌≤◌,
}
use python_event_sourcery.Errors.{ok}
use python_event_sourcery.Event.{RawEvent}
use python_event_sourcery.Tables.{
  Tables, StreamRow, EventRow, SnapshotRow, RowOrder, get_one, raw_event, raw_snapshot,
  stream_id_of, newer_than, first_row, in_range,
}
use python_event_sourcery.Tables.Rows.{IsRowOrder, IsUpTo, IsOlder, select-select}
use python_event_sourcery.Django.{DjangoState, save_snapshot}
use python_event_sourcery.Django.Query.{streams_of, latest_snapshot, read_from}
use python_event_sourcery.Django.Statements.{not_null, snapshot_row, save_row}
use python_event_sourcery.Django.Reads.{rows_of, IsCovered, query_events-select}
use python_event_sourcery.Django.Holds.{Holds}

IsUpTo-le : (p v : ℕ) (rows : List EventRow) → IsUpTo p v rows → p ≤ v
IsUpTo-le p v [] h = h
IsUpTo-le p v (e ∷ rest) h = omega (arith, h.2, IsUpTo-le h.0 v rest h.3)

select_any :
    (rows : List SnapshotRow) → select (λ s. in_range none none (some s.version)) rows ≡ rows
select_any [] = refl
select_any (x ∷ rest) = ap (◌∷◌ x) (select_any rest)

-- No version up to `v` is newer than it.
select-newer_none :
    (p v : ℕ) (rows : List EventRow)
    → IsUpTo p v rows
    → select (λ e. newer_than v e.version) rows ≡ []
select-newer_none p v [] h = refl
select-newer_none p v (e ∷ rest) h =
    let old : newer_than v e.version ≡ false = rw h.1 (ground (arith, IsUpTo-le h.0 v rest h.3)) in
    rw old (select-newer_none h.0 v rest h.3)

-- The snapshots of a stream
abbrev pub snapshots_of : ℕ → Tables → List SnapshotRow
snapshots_of id t = select (λ s. s.stream == id) t.snapshots

-- The row of a snapshot
abbrev pub made_of : RawEvent → ℕ → StreamRow → SnapshotRow
made_of raw v row = record {
  uuid = raw.uuid;
  version = v;
  stream = row.id;
  name = raw.name;
  data_fields = raw.data_fields;
  event_context = raw.context;
  created_at = raw.created_at;
}

abbrev pub with_snapshot : SnapshotRow → Tables → Tables
with_snapshot x t = record t { snapshots = t.snapshots ++ x ∷ [] }

save_snapshot-found {ℓ} :
    {T : Type ℓ} (raw : RawEvent) (v : ℕ) (row : StreamRow) (s : DjangoState T)
    → streams_of raw.stream_id s.tenant_id s.tables ≡ row ∷ []
    → raw.version ≡ some v
    → all (λ x. not (x.uuid == raw.uuid)) s.tables.snapshots ≡ true
    → save_snapshot raw s
      ≡ (ok tt, record s { tables = with_snapshot (made_of raw v row) s.tables })
unfolding get_one snapshot_row save_row save_snapshot
save_snapshot-found raw v row s found at fresh =
    let one : get_one (streams_of raw.stream_id s.tenant_id s.tables) ≡ ok row = rw found refl in
    rw (one, ap not_null at, fresh) refl

raw_snapshot-made_of :
    (raw : RawEvent) (v : ℕ) (row : StreamRow)
    → stream_id_of row ≡ raw.stream_id
    → raw.version ≡ some v
    → raw_snapshot (made_of raw v row) row ≡ raw
unfolding raw_snapshot
raw_snapshot-made_of raw v row named at =
    ap (λ i. record raw { stream_id = i; version = some v }) named
    ∙ ap (λ w. record raw { version = w }) (sym at)

module _ (order : RowOrder) (promised : IsRowOrder order) where
  latest_snapshot-with_snapshot :
      (x : SnapshotRow) (t : Tables)
      → IsOlder x.created_at (snapshots_of x.stream t)
      → latest_snapshot order x.stream none none (with_snapshot x t) ≡ some x
  unfolding latest_snapshot
  latest_snapshot-with_snapshot x t older =
      let any : SnapshotRow → Bool = λ s. in_range none none (some s.version) in
      let own : SnapshotRow → Bool = λ s. s.stream == x.stream in
      let mine : select own (t.snapshots ++ x ∷ []) ≡ snapshots_of x.stream t ++ x ∷ [] =
        select-append own t.snapshots (x ∷ [])
        ∙ ap (λ l. snapshots_of x.stream t ++ l) (rw (nat_refl x.stream) refl) in
      ap (λ l. first_row (order.by_created_at_desc l))
        (select-select own any (t.snapshots ++ x ∷ [])
          ∙ ap (select any) mine
          ∙ select_any (snapshots_of x.stream t ++ x ∷ []))
      ∙ promised.by_created_at_desc-newest (snapshots_of x.stream t) x older

  read_from-with_snapshot :
      (x : SnapshotRow) (row : StreamRow) (t : Tables)
      → x.stream ≡ row.id
      → IsUpTo 0 x.version (rows_of row.id t)
      → read_from order (some x) row none none (with_snapshot x t) ≡ raw_snapshot x row ∷ []
  unfolding read_from
  read_from-with_snapshot x row t at rising =
      ap (λ l. raw_snapshot x row ∷ map (λ e. raw_event e row) l)
        (query_events-select order promised row.id x.version (λ e. newer_than x.version e.version)
            (with_snapshot x t) rising
          ∙ select-newer_none 0 x.version (rows_of row.id t) rising)

  -- If the database keeps to its orders and a tenant's stream holds `log` up to v: a snapshot of
  -- the stream at the version v, with a new UUID and newer than the snapshots of the stream, is
  -- saved, and the stream then holds the snapshot alone, still up to v.
  pub save_snapshot-Holds {ℓ} :
      {T : Type ℓ} (raw : RawEvent) (v : ℕ) (log : List RawEvent) (s : DjangoState T)
      → (h : Holds order raw.stream_id s.tenant_id v log s.tables) → raw.version ≡ some v
      → all (λ x. not (x.uuid == raw.uuid)) s.tables.snapshots ≡ true
      → IsOlder raw.created_at (snapshots_of h.row.id s.tables)
      → ((save_snapshot raw s).0 ≡ ok tt)
        × Holds order raw.stream_id s.tenant_id v (raw ∷ []) (save_snapshot raw s).1.tables
  save_snapshot-Holds raw v log s h at fresh older =
      let row = h.row in
      let x = made_of raw v row in
      let t = with_snapshot x s.tables in
      let run = save_snapshot-found raw v row s h.found at fresh in
      let latest = latest_snapshot-with_snapshot x s.tables older in
      let held : Holds order raw.stream_id s.tenant_id v (raw ∷ []) t = record {
        row = row;
        found = h.found;
        named = h.named;
        version = h.version;
        increasing = h.increasing;
        covered = subst (IsCovered v) (sym latest) (omega arith);
        reads =
            ap (λ f. read_from order f row none none t) latest
            ∙ read_from-with_snapshot x row s.tables refl h.increasing
            ∙ ap (λ e. e ∷ []) (raw_snapshot-made_of raw v row h.named at);
      } in
      (
        ap (λ r. r.0) run,
        subst (λ r. Holds order raw.stream_id s.tenant_id v (raw ∷ []) r.1.tables) (sym run) held,
      )
