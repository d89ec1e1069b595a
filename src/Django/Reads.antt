-- ===== src/Django/Reads.antt =====
-- What a stream over the tables holds: `fetch_events` of event_sourcery_django/event_store.py read
-- through the row of the stream.
use mathlib.Core.List.{map-append}
use python_event_sourcery.Prelude.{
  ℕ, ◌≤◌, Option, none, some, Bool, true, List, [], ◌∷◌, ◌++◌, map, select, select-append, ◌≡◌, ◌∙◌,
  ap, sym, subst, refl, ◌==◌, nat_key,
}
use python_event_sourcery.Tables.{
  Tables, StreamRow, EventRow, SnapshotRow, RowOrder, raw_event, raw_snapshot, newer_than,
}
use python_event_sourcery.Tables.Rows.{
  IsUpTo, IsRowOrder, IsUpTo-select, IsUpTo-append, select-select, select-newer_than,
}
use python_event_sourcery.Django.Query.{query_events, read_from}

abbrev pub rows_of : ℕ → Tables → List EventRow
rows_of id t = select (λ e. e.stream == id) t.events

abbrev pub IsCovered : ℕ → Option SnapshotRow → Type 0
IsCovered v none = Unit
IsCovered v (some s) = s.version ≤ v

select_all : (rows : List EventRow) → select (λ _. true) rows ≡ rows
select_all [] = refl
select_all (e ∷ rest) = ap (◌∷◌ e) (select_all rest)

module _ (order : RowOrder) (promised : IsRowOrder order) where
  pub query_events-select :
      (id v : ℕ) (more : EventRow → Bool) (t : Tables)
      → IsUpTo 0 v (rows_of id t)
      → query_events order id none none more t ≡ select more (rows_of id t)
  unfolding query_events
  query_events-select id v more t h =
      ap order.by_version (select-select (λ e. e.stream == id) more t.events)
      ∙ promised.by_version-increasing 0 v (select more (rows_of id t))
          (IsUpTo-select more 0 v (rows_of id t) h)

  query_events-append :
      (id v u : ℕ) (more : EventRow → Bool) (new : List EventRow) (t t' : Tables)
      → IsUpTo 0 v (rows_of id t)
      → IsUpTo v u new
      → rows_of id t' ≡ rows_of id t ++ new
      → select more new ≡ new
      → query_events order id none none more t' ≡ query_events order id none none more t ++ new
  query_events-append id v u more new t t' h k e kept =
      let whole = subst (IsUpTo 0 u) (sym e) (IsUpTo-append 0 v u (rows_of id t) new h k) in
      query_events-select id u more t' whole
      ∙ ap (select more) e
      ∙ select-append more (rows_of id t) new
      ∙ ap (λ l. select more (rows_of id t) ++ l) kept
      ∙ ap (λ l. l ++ new) (sym (query_events-select id v more t h))

  -- A stream read whole, with the rows `new` behind its rows.
  pub read_from-append :
      (found : Option SnapshotRow) (row : StreamRow) (v u : ℕ) (new : List EventRow) (t t' : Tables)
      → IsCovered v found
      → IsUpTo 0 v (rows_of row.id t)
      → IsUpTo v u new
      → rows_of row.id t' ≡ rows_of row.id t ++ new
      → read_from order found row none none t'
        ≡ read_from order found row none none t ++ map (λ e. raw_event e row) new
  unfolding read_from
  read_from-append none row v u new t t' c h k e =
      let all_kept = select_all new in
      ap (map (λ e. raw_event e row))
        (query_events-append row.id v u (λ _. true) new t t' h k e all_kept)
      ∙ map-append (λ e. raw_event e row) (query_events order row.id none none (λ _. true) t) new
  read_from-append (some s) row v u new t t' c h k e =
      let newer : EventRow → Bool = λ e. newer_than s.version e.version in
      let kept = select-newer_than s.version v u new c k in
      ap (λ l. raw_snapshot s row ∷ map (λ e. raw_event e row) l)
        (query_events-append row.id v u newer new t t' h k e kept)
      ∙ ap (◌∷◌ (raw_snapshot s row))
          (map-append (λ e. raw_event e row) (query_events order row.id none none newer t) new)
