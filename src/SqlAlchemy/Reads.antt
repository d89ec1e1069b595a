-- ===== src/SqlAlchemy/Reads.antt =====
-- `fetch_events` of event_sourcery_sqlalchemy/event_store.py reads a stream as the one of
-- event_sourcery_django/event_store.py does, over the same tables.
use mathlib.Core.Path.{fun_ext}
use python_event_sourcery.Prelude.{
  ℕ, Option, none, some, Bool, true, ◌&&◌, List, [], ◌∷◌, map, select, find, is_some, ◌≡◌, ◌∙◌, ap,
  sym, refl, arith, Bool-cases, inl, inr, ◌==◌, nat_key, nat_symm, nat_beq, nat_beq_iff,
}
use python_event_sourcery.StreamId.{StreamId, TenantId}
use python_event_sourcery.Tables.{
  Tables, first_row, StreamRow, EventRow, SnapshotRow, RowOrder, raw_event, raw_snapshot, in_range,
  newer_than,
}
use python_event_sourcery.Tables.Rows.{IsUpTo, IsRowOrder, IsDistinct, In, select-IsDistinct}
use python_event_sourcery.Django.Query.{latest_snapshot, query_events, read_from}
use python_event_sourcery.Django.Reads.{rows_of, query_events-select}
use python_event_sourcery.SqlAlchemy.Query.{
  of_tenant, stream_of, has_stream_with, raw_events, with_event, with_snapshot, newest_snapshot,
  select_events, read_after, fetch_of,
}

is_some-find-select :
    (p q : StreamRow → Bool) (rows : List StreamRow)
    → is_some (find (λ r. q r && p r) rows) ≡ is_some (find q (select p rows))
is_some-find-select p q [] = refl
is_some-find-select p q (r ∷ rest) = ground (arith, is_some-find-select p q rest)

-- If the condition holds of one row, a row's stream meets it when the row is of this stream.
pub has_stream_with-one :
    (p : StreamRow → Bool) (row : StreamRow) (t : Tables)
    → select p t.streams ≡ row ∷ []
    → (id : ℕ) → has_stream_with p id t ≡ (id == row.id)
unfolding has_stream_with
has_stream_with-one p row t one id =
    is_some-find-select p (λ r. r.id == id) t.streams
    ∙ ap (λ l. is_some (find (λ r. r.id == id) l)) one
    ∙ ground (arith, nat_symm row.id id)

find-select_head :
    (q : StreamRow → Bool) (rows : List StreamRow) (row : StreamRow) (rest : List StreamRow)
    → select q rows ≡ row ∷ rest
    → find q rows ≡ some row
find-select_head q [] row rest h = absurd (ground arith)
find-select_head q (r ∷ l) row rest h = elim (Bool-cases (q r)) [
  | inl met ↦ ground arith
  | inr unmet ↦ ground (arith, find-select_head q l row rest)
]

pub stream_of-In :
    (row : StreamRow) (t : Tables)
    → IsDistinct t.streams
    → In row t.streams
    → stream_of row.id t ≡ some row
unfolding stream_of
stream_of-In row t distinct there =
    find-select_head (λ r. r.id == row.id) t.streams row []
      (select-IsDistinct row t.streams distinct there)

-- All rows are of one stream.
abbrev AreOf : ℕ → List EventRow → Type 0
AreOf id [] = Unit
AreOf id (e ∷ rest) = (e.stream ≡ id) × AreOf id rest

AreOf-rows : (id : ℕ) (rows : List EventRow) → AreOf id (select (λ e. e.stream == id) rows)
AreOf-rows id [] = tt
AreOf-rows id (e ∷ rest) = elim (Bool-cases (nat_beq e.stream id)) [
  | inl own ↦ rw own ((nat_beq_iff e.stream id).0 own, AreOf-rows id rest)
  | inr other ↦ rw other (AreOf-rows id rest)
]

AreOf-select :
    (more : EventRow → Bool) (id : ℕ) (rows : List EventRow)
    → AreOf id rows
    → AreOf id (select more rows)
AreOf-select more id [] h = tt
AreOf-select more id (e ∷ rest) h = elim (Bool-cases (more e)) [
  | inl kept ↦ rw kept (h.0, AreOf-select more id rest h.1)
  | inr dropped ↦ rw dropped (AreOf-select more id rest h.1)
]

raw_events-AreOf :
    (row : StreamRow) (t : Tables) (rows : List EventRow)
    → stream_of row.id t ≡ some row
    → AreOf row.id rows
    → raw_events t rows ≡ map (λ e. raw_event e row) rows
unfolding with_event raw_events
raw_events-AreOf row t [] h k = refl
raw_events-AreOf row t (e ∷ rest) h k =
    let found = ap (λ id. stream_of id t) k.0 ∙ h in
    ap (λ r. with_event r e (raw_events t rest)) found
    ∙ (ap (◌∷◌ (raw_event e row)) (raw_events-AreOf row t rest h k.1))

-- A snapshot that was found is one of the stream.
abbrev pub IsOf : ℕ → Option SnapshotRow → Type 0
IsOf id none = Unit
IsOf id (some s) = s.stream ≡ id

module _ (order : RowOrder) (promised : IsRowOrder order) (tenant : TenantId) (sid : StreamId)
    (row : StreamRow) (t : Tables) (one : select (of_tenant sid tenant) t.streams ≡ row ∷ []) where
  newest_snapshot-one :
      (start stop : Option ℕ)
      → newest_snapshot order tenant sid start stop t ≡ latest_snapshot order row.id start stop t
  unfolding newest_snapshot latest_snapshot
  newest_snapshot-one start stop =
      let same : (λ s.
        has_stream_with (of_tenant sid tenant) s.stream t && in_range start stop (some s.version))
          ≡ (λ s. (s.stream == row.id) && in_range start stop (some s.version)) =
        fun_ext λ s.
          ap (λ b. b && in_range start stop (some s.version))
            (has_stream_with-one (of_tenant sid tenant) row t one s.stream) in
      ap (λ p. first_row (order.by_created_at_desc (select p t.snapshots))) same

  select_events-one :
      (start stop : Option ℕ) (more : EventRow → Bool)
      → select_events order tenant sid start stop more t
        ≡ query_events order row.id start stop more t
  unfolding select_events query_events
  select_events-one start stop more =
      ap (λ p. order.by_version (select p t.events))
        (fun_ext λ e.
          ap (λ b. b && (in_range start stop e.version && more e))
            (has_stream_with-one (of_tenant sid tenant) row t one e.stream))

  raw_events-one :
      (v : ℕ)
      → IsDistinct t.streams
      → In row t.streams
      → IsUpTo 0 v (rows_of row.id t)
      → (more : EventRow → Bool)
      → raw_events t (select_events order tenant sid none none more t)
        ≡ map (λ e. raw_event e row) (query_events order row.id none none more t)
  raw_events-one v distinct there rising more =
      let query = query_events-select order promised row.id v more t rising in
      let rows = select more (rows_of row.id t) in
      ap (raw_events t) (select_events-one none none more ∙ query)
      ∙ raw_events-AreOf row t rows (stream_of-In row t distinct there)
          (AreOf-select more row.id (rows_of row.id t) (AreOf-rows row.id t.events))
      ∙ ap (map (λ e. raw_event e row)) (sym query)

  read_after-one :
      (v : ℕ)
      → IsDistinct t.streams
      → In row t.streams
      → IsUpTo 0 v (rows_of row.id t)
      → (found : Option SnapshotRow) → IsOf row.id found
      → read_after order found tenant sid none none t ≡ read_from order found row none none t
  unfolding with_snapshot read_after read_from
  read_after-one v distinct there rising none own =
      raw_events-one v distinct there rising (λ _. true)
  read_after-one v distinct there rising (some s) own =
      ap
        (λ r. with_snapshot r s (
          raw_events t
            (select_events order tenant sid none none (λ e. newer_than s.version e.version) t)))
        (ap (λ id. stream_of id t) own ∙ stream_of-In row t distinct there)
      ∙ ap (◌∷◌ (raw_snapshot s row))
          (raw_events-one v distinct there rising (λ e. newer_than s.version e.version))

  -- A whole stream is read through its row, newest snapshot first.
  pub fetch_of-one :
      (v : ℕ)
      → IsDistinct t.streams
      → In row t.streams
      → IsUpTo 0 v (rows_of row.id t)
      → (found : Option SnapshotRow) → latest_snapshot order row.id none none t ≡ found
      → IsOf row.id found
      → fetch_of order tenant sid none none t ≡ read_from order found row none none t
  unfolding fetch_of
  fetch_of-one v distinct there rising found latest own =
      ap (λ f. read_after order f tenant sid none none t) (newest_snapshot-one none none ∙ latest)
      ∙ read_after-one v distinct there rising found own
