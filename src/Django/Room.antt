-- ===== src/Django/Room.antt =====
-- The UUIDs that are free for later events, which `bulk_create` of
-- event_sourcery_django/event_store.py and the unique index of
-- event_sourcery_sqlalchemy/models/base.py want.
use mathlib.Core.List.{append_assoc, append-nil, map-append}
use python_event_sourcery.Prelude.{
  ℕ, Option, none, some, Bool, true, not, ◌&&◌, List, [], ◌∷◌, ◌++◌, all, map, ◌≡◌, ◌∙◌, ap, sym,
  refl, arith, ◌==◌, nat_key,
}
use python_event_sourcery.Event.{RawEvent, RecordedRaw}
use python_event_sourcery.Tables.{Tables, StreamRow}
use python_event_sourcery.TableOutbox.{Texts, OutboxSetting, put_if_any, put_into_table}
use python_event_sourcery.Django.Statements.{entry_rows, all_fresh}
use python_event_sourcery.Django.Holds.{with_events}
use python_event_sourcery.Django.Bulk.{are_fresh, map-uuid-entry_rows}

pub all-append {ℓ} :
    {A : Type ℓ} (p : A → Bool) (xs ys : List A) → all p (xs ++ ys) ≡ all p xs && all p ys
all-append p [] ys = refl
all-append p (x ∷ xs) ys = ground (arith, all-append p xs ys)

-- What is not among the one is not among the other.
abbrev AreAmong : List ℕ → List ℕ → Type 0
AreAmong us ws = (u : ℕ) → all (λ v. not (v == u)) ws ≡ true → all (λ v. not (v == u)) us ≡ true

AreAmong-snoc : (us ws : List ℕ) (w : ℕ) → AreAmong us ws → AreAmong (us ++ w ∷ []) (ws ++ w ∷ [])
AreAmong-snoc us ws w h u k =
    let free : ℕ → Bool = λ v. not (v == u) in
    ground (arith, all-append free us (w ∷ []), all-append free ws (w ∷ []), h u)

all_fresh-AreAmong :
    (us ws new : List ℕ) → AreAmong us ws → all_fresh ws new ≡ true → all_fresh us new ≡ true
unfolding all_fresh
all_fresh-AreAmong us ws [] h k = refl
all_fresh-AreAmong us ws (u ∷ rest) h k =
    let first = h u (ground arith) in
    let others =
      all_fresh-AreAmong (us ++ u ∷ []) (ws ++ u ∷ []) rest (AreAmong-snoc us ws u h)
        (ground arith) in
    rw (first, others) refl

pub all_fresh-append :
    (us xs ys : List ℕ) → all_fresh us (xs ++ ys) ≡ all_fresh us xs && all_fresh (us ++ xs) ys
unfolding all_fresh
all_fresh-append us [] ys = ground (arith, append-nil us)
all_fresh-append us (x ∷ xs) ys =
    ground (arith, all_fresh-append (us ++ x ∷ []) xs ys, append_assoc us (x ∷ []) xs)

uuids : List RawEvent → List ℕ
uuids events = map (λ e. e.uuid) events

-- The first of the events are free, and the others once those are stored, and at once.
pub are_fresh-parts :
    (new later : List RawEvent) (t : Tables)
    → are_fresh (new ++ later) t ≡ true
    → (are_fresh new t ≡ true)
      × (all_fresh (map (λ e. e.uuid) t.events ++ map (λ e. e.uuid) new) (map (λ e. e.uuid) later)
          ≡ true)
      × (are_fresh later t ≡ true)
unfolding uuids
are_fresh-parts new later t h =
    let us = map (λ e. e.uuid) t.events in
    let both : all_fresh us (uuids new) && all_fresh (us ++ uuids new) (uuids later) ≡ true =
      sym (all_fresh-append us (uuids new) (uuids later))
      ∙ ap (all_fresh us) (sym (map-append (λ (e : RawEvent). e.uuid) new later))
      ∙ h in
    let after : all_fresh (us ++ uuids new) (uuids later) ≡ true = ground arith in
    (
      ground arith,
      after,
      all_fresh-AreAmong us (us ++ uuids new) (uuids later)
          (λ u k. ground (arith, all-append (λ v. not (v == u)) us (uuids new))) after,
    )

-- The events that are stored take their UUIDs.
pub are_fresh-stored :
    (texts : Texts) (outbox : Option OutboxSetting) (records : List RecordedRaw)
    (new later : List RawEvent) (row : StreamRow) (id : ℕ) (streams : List StreamRow) (t : Tables)
    → are_fresh (new ++ later) t ≡ true
    → are_fresh later (
        put_if_any texts outbox records
          (with_events (entry_rows new row id) (record t { streams = streams })))
      ≡ true
unfolding put_into_table
are_fresh-stored texts none records new later row id streams t h =
    ap (λ us. all_fresh us (map (λ e. e.uuid) later))
      (map-append (λ e. e.uuid) t.events (entry_rows new row id)
        ∙ ap (◌++◌ (map (λ e. e.uuid) t.events)) (map-uuid-entry_rows new row id))
    ∙ (are_fresh-parts new later t h).1
are_fresh-stored texts (some setting) records new later row id streams t h =
    ap (λ us. all_fresh us (map (λ e. e.uuid) later))
      (map-append (λ e. e.uuid) t.events (entry_rows new row id)
        ∙ ap (◌++◌ (map (λ e. e.uuid) t.events)) (map-uuid-entry_rows new row id))
    ∙ (are_fresh-parts new later t h).1
