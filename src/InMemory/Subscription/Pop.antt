-- ===== src/InMemory/Subscription/Pop.antt =====
-- `_pop_record` against the records that are left.
use python_event_sourcery.Prelude.{
  ℕ, zero, suc, ◌+◌, ◌≤◌, ◌<◌, Option, none, some, Bool, List, [], ◌∷◌, length, get_elem?, drop,
  find, ◌≡◌, refl, arith, if◌then◌else◌, Bool-cases, inl, inr,
}
use python_event_sourcery.Errors.{Result, ok}
use python_event_sourcery.Event.{RecordedRaw}
use python_event_sourcery.InMemory.Storage.{Storage}
use python_event_sourcery.InMemory.Storage.Valid.{IsValid, position_or_zero-length}
use python_event_sourcery.InMemory.Subscription.{Kind, wants, pop_any, pop_loop, pop_record}

module _ {ℓ} {A : Type ℓ} where
  -- A list that goes on at an index has an element there, and goes on behind it.
  pub drop-cons :
      (l : List A) (i : ℕ) {x : A} {rest : List A}
      → drop i l ≡ x ∷ rest
      → (get_elem? l i ≡ some x) × (drop (i + 1) l ≡ rest) × (i < length l)
  drop-cons [] zero h = cc
  drop-cons [] (suc i) h = cc
  drop-cons (y ∷ l) zero h = ground arith
  drop-cons (y ∷ l) (suc i) h = let rest = drop-cons l i h in ground arith

  pub drop-nil_lem : (l : List A) (i : ℕ) → drop i l ≡ [] → length l ≤ i
  drop-nil_lem [] zero h = omega arith
  drop-nil_lem [] (suc i) h = omega arith
  drop-nil_lem (x ∷ l) zero h = cc
  drop-nil_lem (x ∷ l) (suc i) h = omega (arith, drop-nil_lem l i h)

  -- What is left behind the first element that passes.
  abbrev pub after : (A → Bool) → List A → List A
  after p [] = []
  after p (x ∷ xs) = if p x then xs else after p xs

module _ (s : Storage) (v : IsValid s) where
  pop_any-nil : (pos : ℕ) → drop pos s.records ≡ [] → pop_any s pos ≡ ok (none, pos)
  unfolding pop_any
  pop_any-nil pos h = ground (arith, position_or_zero-length s v, drop-nil_lem s.records pos h)

  pop_any-cons :
      (pos : ℕ) (r : RecordedRaw) (rest : List RecordedRaw)
      → drop pos s.records ≡ r ∷ rest
      → pop_any s pos ≡ ok (some r, pos + 1)
  unfolding pop_any
  pop_any-cons pos r rest h = ground (arith, position_or_zero-length s v, drop-cons s.records pos h)

  -- A pop of the records `l` that are left: it ends, and raises nothing.
  pub record Popped (p : RecordedRaw → Bool) (pos : ℕ) (l : List RecordedRaw)
      (out : Option (Result (Option RecordedRaw × ℕ))) : Type 0 where
    pub next : ℕ
    pub popped : out ≡ some (ok (find p l, next))
    pub left : drop next s.records ≡ after p l
    pub within : pos ≤ length s.records → next ≤ length s.records

  pop_loop-Popped :
      (fuel : ℕ) (p : RecordedRaw → Bool) (pos : ℕ) (l : List RecordedRaw)
      → drop pos s.records ≡ l
      → length l < fuel
      → Popped p pos l (pop_loop fuel p s pos)
  unfolding pop_loop
  pop_loop-Popped zero p pos l h enough = elim enough [ ]
  pop_loop-Popped (suc fuel) p pos [] h enough = record {
    next = pos;
    popped = rw (pop_any-nil pos h, pop_loop);
    left = h;
    within = λ e. e;
  }
  pop_loop-Popped (suc fuel) p pos (r ∷ rest) h enough = elim (Bool-cases (p r)) [
    | inl wanted ↦ record {
      next = pos + 1;
      popped = rw (pop_any-cons pos r rest h, pop_loop, wanted);
      left = rw wanted (drop-cons s.records pos h).1;
      within = λ e. omega (arith, drop-cons s.records pos h);
    }
    | inr skipped ↦
        let later =
          pop_loop-Popped fuel p (pos + 1) rest (drop-cons s.records pos h).1 (omega arith) in
        record {
          next = later.next;
          popped = rw (pop_any-cons pos r rest h, pop_loop, skipped) later.popped;
          left = rw skipped later.left;
          within = λ e. later.within (omega (arith, drop-cons s.records pos h));
        }
  ]

  length-drop-le : (i : ℕ) (l : List RecordedRaw) → length (drop i l) ≤ length l
  length-drop-le zero l = omega arith
  length-drop-le (suc i) [] = omega arith
  length-drop-le (suc i) (x ∷ l) = omega (arith, length-drop-le i l)

  -- `_pop_record` always ends, with the first record from its position on that its class wants.
  pub pop_record-Popped :
      (kind : Kind) (pos : ℕ) → Popped (wants kind) pos (drop pos s.records) (pop_record kind s pos)
  unfolding pop_record
  pop_record-Popped kind pos =
      pop_loop-Popped (suc (length s.records)) (wants kind) pos (drop pos s.records) refl
        (omega (arith, length-drop-le pos s.records))
