-- ===== src/SqlAlchemy/Room.antt =====
-- Why the unique indexes of event_sourcery_sqlalchemy/models/base.py have room for events that are
-- new and above the version of their stream.
use mathlib.Core.List.{map-append}
use python_event_sourcery.Prelude.{
  ℕ, suc, ◌≤◌, ◌<◌, Option, none, some, Bool, true, not, ◌||◌, List, [], ◌∷◌, ◌++◌, all, map,
  select, ltb, ◌≡◌, ◌∙◌, ap, subst, refl, arith, Bool-cases, inl, inr, ◌==◌, nat_key, option_key,
  if◌then◌else◌,
}
use python_event_sourcery.EventLog.{IsRising}
use python_event_sourcery.Event.{RawEvent}
use python_event_sourcery.Tables.{Tables, StreamRow, EventRow}
use python_event_sourcery.Tables.Rows.{IsUpTo}
use python_event_sourcery.Django.Reads.{rows_of}
use python_event_sourcery.Django.Statements.{entry_row, entry_rows, all_fresh}
use python_event_sourcery.Django.Room.{all-append}
use python_event_sourcery.Django.Bulk.{are_fresh}
use python_event_sourcery.SqlAlchemy.Statements.{collides, fits}
use python_event_sourcery.SqlAlchemy.Flush.{have_room, event_rows-entry_rows}

-- A version that is none, or at most `p`
abbrev is_at_most : ℕ → Option ℕ → Bool
is_at_most p none = true
is_at_most p (some w) = not (ltb p w)

-- A row of another stream, or one that is not above `p`
abbrev is_below : ℕ → ℕ → EventRow → Bool
is_below stream p r = not (r.stream == stream) || is_at_most p r.version

IsUpTo-le : (p v : ℕ) (rows : List EventRow) → IsUpTo p v rows → p ≤ v
IsUpTo-le p v [] h = h
IsUpTo-le p v (e ∷ rest) h = omega (arith, h.2, IsUpTo-le h.0 v rest h.3)

-- The rows of a stream that grow up to `v` are below it.
all-is_below :
    (stream p v : ℕ) (rows : List EventRow)
    → IsUpTo p v (select (λ e. e.stream == stream) rows)
    → all (is_below stream v) rows ≡ true
all-is_below stream p v [] h = refl
all-is_below stream p v (e ∷ rest) h = elim (Bool-cases (e.stream == stream)) [
  | inr other ↦
      let mine : IsUpTo p v (select (λ e. e.stream == stream) rest) =
        subst
          (λ b. IsUpTo p v (
            if b
            then e ∷ select (λ e. e.stream == stream) rest
            else select (λ e. e.stream == stream) rest))
          other h in
      rw other (all-is_below stream p v rest mine)
  | inl same ↦
      let mine : IsUpTo p v (e ∷ select (λ e. e.stream == stream) rest) =
        subst
          (λ b. IsUpTo p v (
            if b
            then e ∷ select (λ e. e.stream == stream) rest
            else select (λ e. e.stream == stream) rest))
          same h in
      let bound = IsUpTo-le mine.0 v (select (λ e. e.stream == stream) rest) mine.3 in
      let low : is_at_most v e.version ≡ true = rw (mine.1) (ground (arith, bound)) in
      rw (same, low) (all-is_below stream mine.0 v rest mine.3)
]

-- An event of the stream above `p` collides with none of the rows below, if its UUID is new.
none_collides :
    (stream p w : ℕ) (new : EventRow) (rows : List EventRow)
    → new.stream ≡ stream
    → new.version ≡ some w
    → p < w
    → all (is_below stream p) rows ≡ true
    → all (λ v. not (v == new.uuid)) (map (λ e. e.uuid) rows) ≡ true
    → all (λ r. not (collides r new)) rows ≡ true
none_collides stream p w new [] mine at above below fresh = refl
none_collides stream p w new (r ∷ rest) mine at above below fresh =
    let others : all (λ x. not (collides x new)) rest ≡ true =
      none_collides stream p w new rest mine at above (ground arith) (ground arith) in
    let first : not (collides r new) ≡ true = apart r.version refl in rw (first, others) refl
  where
    apart : (o : Option ℕ) → r.version ≡ o → not (collides r new) ≡ true
    apart none e = rw (e) (ground (arith, below, fresh))
    apart (some x) e = rw (e, at, mine) (ground (arith, below, fresh, e))

all-is_below_mono :
    (stream p w : ℕ) (rows : List EventRow)
    → p ≤ w
    → all (is_below stream p) rows ≡ true
    → all (is_below stream w) rows ≡ true
all-is_below_mono stream p w [] h k = refl
all-is_below_mono stream p w (r ∷ rest) h k =
    let others : all (is_below stream w) rest ≡ true =
      all-is_below_mono stream p w rest h (ground arith) in
    let first : is_below stream w r ≡ true = higher r.version refl in rw (first, others) refl
  where
    higher : (o : Option ℕ) → r.version ≡ o → is_below stream w r ≡ true
    higher none e = rw e (ground arith)
    higher (some x) e = rw e (ground (arith, h, k, e))

-- The flush of events with new UUIDs, of versions that grow from above those of the stream
fits-rising :
    (rows : List EventRow) (events : List RawEvent) (row : StreamRow) (p u id : ℕ)
    → all (is_below row.id p) rows ≡ true
    → IsRising p u events
    → all_fresh (map (λ e. e.uuid) rows) (map (λ e. e.uuid) events) ≡ true
    → fits rows (entry_rows events row id) ≡ true
unfolding fits entry_rows all_fresh
fits-rising rows [] row p u id below rising fresh = refl
fits-rising rows (e ∷ rest) row p u id below (w, at, above, later) fresh =
    let new = entry_row e row id in
    let us = map (λ e. e.uuid) rows in
    let free : all (λ v. not (v == e.uuid)) us ≡ true = ground arith in
    let others : all_fresh (us ++ e.uuid ∷ []) (map (λ e. e.uuid) rest) ≡ true = ground arith in
    let stored : all_fresh (map (λ e. e.uuid) (rows ++ new ∷ [])) (map (λ e. e.uuid) rest) ≡ true =
      ap (λ l. all_fresh l (map (λ e. e.uuid) rest)) (map-append (λ e. e.uuid) rows (new ∷ []))
      ∙ others in
    let own : is_below row.id w new ≡ true = rw at (ground arith) in
    let first = none_collides row.id p w new rows refl at above below free in
    let raised : all (is_below row.id w) (rows ++ new ∷ []) ≡ true =
      all-append (is_below row.id w) rows (new ∷ [])
      ∙ (rw (all-is_below_mono row.id p w rows (omega (arith, above)) below, own) refl) in
    rw (first) (fits-rising (rows ++ new ∷ []) rest row w u (suc id) raised later stored)

-- A stream whose rows grow up to `v` has room for new events of versions that grow from above it.
pub have_room-rising :
    (events : List RawEvent) (row : StreamRow) (v u : ℕ) (t : Tables)
    → IsUpTo 0 v (rows_of row.id t)
    → IsRising v u events
    → are_fresh events t ≡ true
    → have_room events row.id t ≡ true
have_room-rising events row v u t increasing rising fresh =
    ap (fits t.events) (event_rows-entry_rows events row t.next_event)
    ∙ fits-rising t.events events row v u t.next_event (all-is_below row.id 0 v t.events increasing)
        rising fresh
