-- ===== src/InMemory/Outbox/Order.antt =====
-- The outbox stays in the order of positions, none of them beyond the log.
use mathlib.Core.List.{append_assoc}
use python_event_sourcery.Prelude.{
  ℕ, zero, suc, ◌+◌, ◌<◌, ◌≤◌, Option, none, some, Bool, List, [], ◌∷◌, ◌++◌, length, take, drop,
  map, select, leb, sym, subst, arith, Bool-cases, inl, inr, take-append-drop,
}
use python_event_sourcery.Errors.{Result, ok, err}
use python_event_sourcery.Exec.{Exec}
use python_event_sourcery.StreamId.{TenantId}
use python_event_sourcery.Event.{RawEvent, RecordedRaw}
use python_event_sourcery.InMemory.Strategy.{Entries, recorded_from, put_into_outbox, into_outbox}
use python_event_sourcery.InMemory.Outbox.Run.{
  IsIncreasing, IsBelow, IsBelow-mono, IsBelow-append, IsBelow-kept, kept, settled,
}

-- For a log of `n` records.
abbrev pub IsOrdered : ℕ → Option Entries → Type 0
IsOrdered n none = Unit
IsOrdered n (some l) = IsIncreasing 0 l × IsBelow (suc n) l

pub IsOrdered-mono : (n m : ℕ) (o : Option Entries) → n ≤ m → IsOrdered n o → IsOrdered m o
IsOrdered-mono n m none h o = tt
IsOrdered-mono n m (some l) h o = (o.0, IsBelow-mono (suc n) (suc m) l (omega arith) o.1)

IsIncreasing-mono : (p q : ℕ) (l : Entries) → p ≤ q → IsIncreasing q l → IsIncreasing p l
IsIncreasing-mono p q [] h g = tt
IsIncreasing-mono p q (e ∷ l) h g = (omega arith, g.1)

IsIncreasing-append :
    (p n : ℕ) (xs ys : Entries)
    → p ≤ n
    → IsIncreasing p xs
    → IsBelow (suc n) xs
    → IsIncreasing n ys
    → IsIncreasing p (xs ++ ys)
IsIncreasing-append p n [] ys h g b i = IsIncreasing-mono p n ys h i
IsIncreasing-append p n (e ∷ xs) ys h g b i =
    (g.0, IsIncreasing-append e.0.position n xs ys (omega arith) g.1 b.1 i)

module _ (filterer : RawEvent → Bool) (tenant : TenantId) where
  abbrev chosen : ℕ → List RawEvent → Entries
  chosen n events =
      map (λ r. (r, 0)) (select (λ r. filterer r.entry) (recorded_from n tenant events))

  chosen-IsIncreasing : (n : ℕ) (events : List RawEvent) → IsIncreasing n (chosen n events)
  unfolding recorded_from
  chosen-IsIncreasing n [] = tt
  chosen-IsIncreasing n (e ∷ rest) = elim (Bool-cases (filterer e)) [
    | inl yes' ↦ rw yes' (omega arith, chosen-IsIncreasing (n + 1) rest)
    | inr no' ↦ rw no' (
        IsIncreasing-mono n (n + 1) (chosen (n + 1) rest) (omega arith)
          (chosen-IsIncreasing (n + 1) rest))
  ]

  chosen-IsBelow :
      (n m : ℕ) (events : List RawEvent) → n + length events < m → IsBelow m (chosen n events)
  unfolding recorded_from
  chosen-IsBelow n m [] h = tt
  chosen-IsBelow n m (e ∷ rest) h = elim (Bool-cases (filterer e)) [
    | inl yes' ↦ rw yes' (omega arith, chosen-IsBelow (n + 1) m rest (omega arith))
    | inr no' ↦ rw no' (chosen-IsBelow (n + 1) m rest (omega arith))
  ]

  pub into_outbox-IsOrdered :
      (n : ℕ) (events : List RawEvent) (o : Option Entries)
      → IsOrdered n o
      → IsOrdered (n + length events) (into_outbox filterer (recorded_from n tenant events) o)
  unfolding put_into_outbox
  into_outbox-IsOrdered n events none h = tt
  into_outbox-IsOrdered n events (some l) h = (
    IsIncreasing-append 0 n l (chosen n events) (omega arith) h.0 h.1
        (chosen-IsIncreasing n events),
    IsBelow-append (suc (n + length events)) l (chosen n events)
        (IsBelow-mono (suc n) (suc (n + length events)) l (omega arith) h.1)
        (chosen-IsBelow n (suc (n + length events)) events (omega arith)),
  )

kept-IsIncreasing :
    (max_attempts p : ℕ) (e : RecordedRaw × ℕ) (answer : Result (Unit {0})) (rest : Entries)
    → p < e.0.position
    → IsIncreasing e.0.position rest
    → IsIncreasing p (kept max_attempts e answer ++ rest)
kept-IsIncreasing max_attempts p e (ok u) rest h g =
    IsIncreasing-mono p e.0.position rest (omega arith) g
kept-IsIncreasing max_attempts p e (err x) rest h g =
    elim (Bool-cases (leb max_attempts (e.1 + 1))) [
      | inl last ↦ rw last (IsIncreasing-mono p e.0.position rest (omega arith) g)
      | inr again ↦ rw again (h, g)
    ]

module _ {ℓ} {W : Type ℓ} (max_attempts : ℕ) (attempt : RecordedRaw → Exec W (Unit {0})) where
  settled-IsIncreasing :
      (p : ℕ) (l tail : Entries) (w : W)
      → IsIncreasing p (l ++ tail)
      → IsIncreasing p ((settled max_attempts attempt l w).0 ++ tail)
  settled-IsIncreasing p [] tail w h = h
  settled-IsIncreasing p (e ∷ rest) tail w h =
      let answer = attempt e.0 w in
      let now = kept max_attempts e answer.0 in
      let after = (settled max_attempts attempt rest answer.1).0 in
      let later = settled-IsIncreasing e.0.position rest tail answer.1 h.1 in
      subst (IsIncreasing p) (sym (append_assoc now after tail))
        (kept-IsIncreasing max_attempts p e answer.0 (after ++ tail) h.0 later)

  settled-IsBelow :
      (m : ℕ) (l : Entries) (w : W) → IsBelow m l → IsBelow m (settled max_attempts attempt l w).0
  settled-IsBelow m [] w h = tt
  settled-IsBelow m (e ∷ rest) w h =
      let answer = attempt e.0 w in
      IsBelow-append m (kept max_attempts e answer.0) (settled max_attempts attempt rest answer.1).0
        (IsBelow-mono (suc e.0.position) m (kept max_attempts e answer.0) h.0
          (IsBelow-kept max_attempts e answer.0))
        (settled-IsBelow m rest answer.1 h.1)

  IsBelow-split :
      (m n : ℕ) (l : Entries) → IsBelow m l → IsBelow m (take n l) × IsBelow m (drop n l)
  IsBelow-split m zero l h = (tt, h)
  IsBelow-split m (suc n) [] h = (tt, tt)
  IsBelow-split m (suc n) (e ∷ l) h = let (a, b) = IsBelow-split m n l h.1 in ((h.0, a), b)

  -- What a run leaves is ordered again.
  pub settled-IsOrdered :
      (n limit : ℕ) (l : Entries) (w : W)
      → IsOrdered n (some l)
      → IsOrdered n (some ((settled max_attempts attempt (take limit l) w).0 ++ drop limit l))
  settled-IsOrdered n limit l w h =
      let parts = IsBelow-split (suc n) limit l h.1 in
      (
        settled-IsIncreasing 0 (take limit l) (drop limit l) w
            (subst (IsIncreasing 0) (sym (take-append-drop limit l)) h.0),
        IsBelow-append (suc n) (settled max_attempts attempt (take limit l) w).0 (drop limit l)
            (settled-IsBelow (suc n) (take limit l) w parts.0) parts.1,
      )
