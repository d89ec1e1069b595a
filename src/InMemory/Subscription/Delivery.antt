-- ===== src/InMemory/Subscription/Delivery.antt =====
-- What a subscription delivers: each wanted record once, in the order of the log, batch by batch.
use Prim.Native.Nat.{min}
use mathlib.Core.List.{append_assoc, append-nil}
use python_event_sourcery.Prelude.{
  ℕ, zero, suc, ◌-◌, ◌≤◌, Option, none, some, Bool, true, false, List, [], ◌∷◌, ◌++◌, length,
  length-append, drop, find, select, ltb, ◌≡◌, ◌∙◌, refl, ap, sym, arith, Bool-cases, Option-cases,
  inl, inr, ltb→lt,
}
use python_event_sourcery.Errors.{Result, ok}
use python_event_sourcery.Event.{RecordedRaw}
use python_event_sourcery.InMemory.Storage.{Storage}
use python_event_sourcery.InMemory.Storage.Valid.{IsValid}
use python_event_sourcery.InMemory.Subscription.{
  Kind, Subscription, wants, pop_record, fill, answer, next_batch,
}
use python_event_sourcery.InMemory.Subscription.Pop.{after, pop_record-Popped}

-- The records from a position on that the class wants.
abbrev pub wanted_from : Kind → Storage → ℕ → List RecordedRaw
wanted_from kind s pos = select (wants kind) (drop pos s.records)

find-none :
    (p : RecordedRaw → Bool) (l : List RecordedRaw)
    → find p l ≡ none
    → (select p l ≡ []) × (after p l ≡ [])
find-none p [] h = (refl, refl)
find-none p (x ∷ l) h = let rest = find-none p l in ground arith

find-some :
    (p : RecordedRaw → Bool) (l : List RecordedRaw) {r : RecordedRaw}
    → find p l ≡ some r
    → select p l ≡ r ∷ select p (after p l)
find-some p [] h = cc
find-some p (x ∷ l) {r} h = let rest = find-some p l {r = r} in ground arith

-- `got` are the next records that the class wants, as many as the rounds and the room allow, and
-- the position moves behind them.
pub record Filled (kind : Kind) (s : Storage) (limit : ℕ) (batch : List RecordedRaw) (pos : ℕ)
    (out : Option (Result (List RecordedRaw × ℕ))) : Type 0 where
  pub got : List RecordedRaw
  pub next : ℕ
  pub filled : out ≡ some (ok (batch ++ got, next))
  pub exact : wanted_from kind s pos ≡ got ++ wanted_from kind s next
  pub amount : length got ≡ min limit (length (wanted_from kind s pos))
  pub within : pos ≤ length s.records → next ≤ length s.records

module _ (s : Storage) (v : IsValid s) (kind : Kind) (size : ℕ) where
  fill_full :
      (rounds : ℕ) (batch : List RecordedRaw) (pos : ℕ)
      → ltb (length batch) size ≡ false
      → fill (suc rounds) size kind s batch pos ≡ some (ok (batch, pos))
  unfolding fill
  fill_full rounds batch pos h = rw (h, fill)

  fill_idle :
      (rounds : ℕ) (batch : List RecordedRaw) (pos next : ℕ)
      → ltb (length batch) size ≡ true
      → pop_record kind s pos ≡ some (ok (none, next))
      → fill (suc rounds) size kind s batch pos ≡ fill rounds size kind s batch next
  unfolding fill
  fill_idle rounds batch pos next h e = rw (h, e, fill)

  fill_more :
      (rounds : ℕ) (batch : List RecordedRaw) (pos next : ℕ) (r : RecordedRaw)
      → ltb (length batch) size ≡ true
      → pop_record kind s pos ≡ some (ok (some r, next))
      → fill (suc rounds) size kind s batch pos ≡ fill rounds size kind s (batch ++ r ∷ []) next
  unfolding fill
  fill_more rounds batch pos next r h e = rw (h, e, fill)

  abbrev Fills : ℕ → List RecordedRaw → ℕ → Type 0
  Fills rounds batch pos =
      Filled kind s (min rounds (size - length batch)) batch pos (fill rounds size kind s batch pos)

  idle-Filled :
      (rounds : ℕ) (batch : List RecordedRaw) (pos : ℕ)
      → ltb (length batch) size ≡ true
      → find (wants kind) (drop pos s.records) ≡ none
      → ((next : ℕ) → Fills rounds batch next)
      → Fills (suc rounds) batch pos
  idle-Filled rounds batch pos h missing ih =
      let p = pop_record-Popped s v kind pos in
      let empty = find-none (wants kind) (drop pos s.records) missing in
      let later = ih p.next in
      let nothing : wanted_from kind s p.next ≡ [] = rw (p.left, empty.1) in
      record {
        got = later.got;
        next = later.next;
        filled =
            fill_idle rounds batch pos p.next h (p.popped ∙ ap (λ o. some (ok (o, p.next))) missing)
            ∙ later.filled;
        exact = empty.0 ∙ sym nothing ∙ later.exact;
        amount = rw empty.0 (omega (arith, later.amount, ap length nothing));
        within = λ e. later.within (p.within e);
      }

  more-Filled :
      (rounds : ℕ) (batch : List RecordedRaw) (pos : ℕ) (r : RecordedRaw)
      → ltb (length batch) size ≡ true
      → find (wants kind) (drop pos s.records) ≡ some r
      → ((next : ℕ) → Fills rounds (batch ++ r ∷ []) next)
      → Fills (suc rounds) batch pos
  more-Filled rounds batch pos r h found ih =
      let p = pop_record-Popped s v kind pos in
      let first = find-some (wants kind) (drop pos s.records) found in
      let later = ih p.next in
      let exact : wanted_from kind s pos ≡ r ∷ wanted_from kind s p.next = rw p.left first in
      let room = ltb→lt (length batch) size h in
      record {
        got = r ∷ later.got;
        next = later.next;
        filled =
            fill_more rounds batch pos p.next r h (p.popped ∙ ap (λ o. some (ok (o, p.next))) found)
            ∙ later.filled
            ∙ ap (λ l. some (ok (l, later.next))) (append_assoc batch (r ∷ []) later.got);
        exact = exact ∙ ap (◌∷◌ r) later.exact;
        amount = omega (arith, later.amount, length-append batch (r ∷ []), ap length exact, room);
        within = λ e. later.within (p.within e);
      }

  fill-Filled : (rounds : ℕ) (batch : List RecordedRaw) (pos : ℕ) → Fills rounds batch pos
  unfolding fill
  fill-Filled zero batch pos = record {
    got = [];
    next = pos;
    filled = rw append-nil;
    exact = refl;
    amount = omega arith;
    within = λ e. e;
  }
  fill-Filled (suc rounds) batch pos = elim (Bool-cases (ltb (length batch) size)) [
    | inr full ↦ record {
      got = [];
      next = pos;
      filled = fill_full rounds batch pos full ∙ rw append-nil;
      exact = refl;
      amount = ground arith;
      within = λ e. e;
    }
    | inl room ↦ elim (Option-cases (find (wants kind) (drop pos s.records))) [
      | inl missing ↦ idle-Filled rounds batch pos room missing (fill-Filled rounds batch)
      | inr (r, found) ↦
          more-Filled rounds batch pos r room found (fill-Filled rounds (batch ++ r ∷ []))
    ]
  ]

-- A call of `__next__`: the batch, and the position after it.
pub record Delivered (rounds : ℕ) (s : Storage) (sub : Subscription) : Type 0 where
  pub batch : List RecordedRaw
  pub next : ℕ
  pub returned : next_batch rounds s sub ≡ some (ok (batch, record sub { current_position = next }))
  pub exact : wanted_from sub.kind s sub.current_position ≡ batch ++ wanted_from sub.kind s next
  pub amount :
      length batch
      ≡ min (min (suc rounds) sub.batch_size) (length (wanted_from sub.kind s sub.current_position))
  pub within : sub.current_position ≤ length s.records → next ≤ length s.records

-- On a valid storage `__next__` returns, with the next records of the log that the subscription
-- wants, in order, none skipped: as many as there are, at most the batch size, and at most one for
-- each round that the time limit allows; it goes on behind them.
pub next_batch-Delivered :
    (rounds : ℕ) (s : Storage) (sub : Subscription) → IsValid s → Delivered rounds s sub
unfolding next_batch
next_batch-Delivered rounds s sub v =
    let f = fill-Filled s v sub.kind sub.batch_size (suc rounds) [] sub.current_position in
    record {
      batch = f.got;
      next = f.next;
      returned = ap (answer sub) f.filled;
      exact = f.exact;
      amount = omega (arith, f.amount);
      within = f.within;
    }
