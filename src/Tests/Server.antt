-- ===== src/Tests/Server.antt =====
-- A server that filters its log, and the iterator over it.
use python_event_sourcery.Prelude.{
  ℕ, Option, none, some, Bool, true, false, ◌&&◌, List, [], ◌∷◌, ◌++◌, select, select-append,
  length, ltb, not, if◌then◌else◌, ◌≡◌, ◌∙◌, ap, subst, refl, arith, ◌<◌, ◌==◌, nat_key, Bool-cases,
  inl, inr,
}
use python_event_sourcery.Event.{RecordedRaw}
use python_event_sourcery.Kurrent.Iterator.{
  Client, Iteration, Signal, commits, arrives, deadline, if_wanted, iterate_all, begin,
}
use python_event_sourcery.Kurrent.Iterator.Promised.{AreAbove, IsBehind, IsSorted, IsPast, IsClient}
use python_event_sourcery.Kurrent.Iterator.Delivered.{joined, joined-iterate_all}
use python_event_sourcery.Tests.Data

abbrev past : Option ℕ → RecordedRaw → Bool
past none r = true
past (some p) r = ltb p r.position

-- A subscription to all events but one
abbrev is_wanted : RecordedRaw → Bool
is_wanted r = not (r.entry.uuid == 5)

abbrev handed : Option ℕ → RecordedRaw → Bool
handed position r = past position r && is_wanted r

abbrev server : Client
server = record { wants = is_wanted; opened = λ position l. select (handed position) l }

past-IsPast : (position : Option ℕ) (r : RecordedRaw) → IsPast position r → past position r ≡ true
past-IsPast none r h = refl
past-IsPast (some p) r h = ground arith

past-later :
    (position : Option ℕ) (r x : RecordedRaw)
    → past position r ≡ true
    → r.position < x.position
    → past position x ≡ true
past-later none r x h k = refl
past-later (some p) r x h k = ground arith

past-same :
    (position : Option ℕ) (y r : RecordedRaw)
    → y.position ≡ r.position
    → past position y ≡ true
    → past position r ≡ true
past-same none y r h k = refl
past-same (some p) y r h k = ground arith

above-same : (p q : ℕ) (l : List RecordedRaw) → p ≡ q → AreAbove p l → AreAbove q l
above-same p q l h k = subst (λ x. AreAbove x l) h k

opened-commits :
    (position : Option ℕ) (l : List RecordedRaw) (r : RecordedRaw)
    → IsBehind r l
    → IsPast position r
    → select (handed position) (l ++ r ∷ []) ≡ select (handed position) l ++ if_wanted server r
opened-commits position l r behind h =
    select-append (handed position) l (r ∷ []) ∙ (rw (past-IsPast position r h) refl)

abbrev first_position : List RecordedRaw → ℕ
first_position [] = 0
first_position (x ∷ l) = x.position

abbrev behind_first : List RecordedRaw → List RecordedRaw
behind_first [] = []
behind_first (x ∷ l) = l

select-head :
    (p : RecordedRaw → Bool) (y : RecordedRaw) (l : List RecordedRaw) (r : RecordedRaw)
    (rest : List RecordedRaw)
    → p y ≡ true
    → select p (y ∷ l) ≡ r ∷ rest
    → (y.position ≡ r.position) × (select p l ≡ rest)
select-head p y l r rest met h =
    let kept : y ∷ select p l ≡ r ∷ rest = ground arith in
    (ap first_position kept, ap behind_first kept)

opened-within :
    (position : Option ℕ) (l : List RecordedRaw) (r : RecordedRaw) (rest : List RecordedRaw)
    (x : RecordedRaw)
    → select (handed position) l ≡ r ∷ rest
    → IsBehind x l
    → r.position < x.position
opened-within position [] r rest x h k = absurd (ground arith)
opened-within position (y ∷ l) r rest x h k = elim (Bool-cases (handed position y)) [
  | inl met ↦
      let (same, tail) = select-head (handed position) y l r rest met h in omega (arith, k.0)
  | inr unmet ↦ opened-within position l r rest x (ground arith) k.1
]

select-above :
    (position : Option ℕ) (r : RecordedRaw) (l : List RecordedRaw)
    → past position r ≡ true
    → AreAbove r.position l
    → select (handed (some r.position)) l ≡ select (handed position) l
select-above position r [] h k = refl
select-above position r (x ∷ l) h k =
    let here = past-later position r x h k.0 in
    let there : ltb r.position x.position ≡ true = ground (arith, k.0) in
    rw (here, there) (ap (λ t. if is_wanted x then x ∷ t else t) (select-above position r l h k.1))

above-within :
    (position : Option ℕ) (p : ℕ) (l : List RecordedRaw) (r : RecordedRaw) (rest : List RecordedRaw)
    → AreAbove p l
    → select (handed position) l ≡ r ∷ rest
    → p < r.position
above-within position p [] r rest k h = absurd (ground arith)
above-within position p (y ∷ l) r rest k h = elim (Bool-cases (handed position y)) [
  | inl met ↦
      let (same, tail) = select-head (handed position) y l r rest met h in omega (arith, k.0)
  | inr unmet ↦ above-within position p l r rest k.1 (ground arith)
]

opened-next :
    (position : Option ℕ) (l : List RecordedRaw) (r : RecordedRaw) (rest : List RecordedRaw)
    → IsSorted l
    → select (handed position) l ≡ r ∷ rest
    → select (handed (some r.position)) l ≡ rest
opened-next position [] r rest k h = absurd (ground arith)
opened-next position (y ∷ l) r rest k h = elim (Bool-cases (handed position y)) [
  | inl met ↦
      let (same, tail) = select-head (handed position) y l r rest met h in
      let reached : past position r ≡ true = past-same position y r same (ground arith) in
      let passed : ltb r.position y.position ≡ false = ground arith in
      rw passed
        (select-above position r l reached (above-same y.position r.position l same k.0) ∙ tail)
  | inr unmet ↦
      let later : select (handed position) l ≡ r ∷ rest = ground arith in
      let above = above-within position y.position l r rest k.0 later in
      let passed : ltb r.position y.position ≡ false = ground arith in
      rw passed (opened-next position l r rest k.1 later)
]

server-IsClient : IsClient server
server-IsClient = record {
  opened-commits = opened-commits;
  opened-within = opened-within;
  opened-next = opened-next;
}

abbrev at_position : ℕ → RecordedRaw
at_position p = record { entry = Data.raw_event p (some p); position = p; tenant_id = "" }

-- The deadline comes between two records, and two are committed in between.
abbrev happened : List Signal
happened =
    arrives ∷ deadline ∷ commits (at_position 5) ∷ commits (at_position 7) ∷ arrives ∷ arrives ∷ []

abbrev resumption : Iteration
resumption = iterate_all server 2 happened (begin server none (at_position 1 ∷ at_position 3 ∷ []))

resumed :
    (joined resumption.yielded ++ (resumption.batch ++ resumption.subscription)
      ≡ at_position 1 ∷ at_position 3 ∷ at_position 7 ∷ [])
    × (length resumption.batch < 2)
unfolding begin iterate_all
resumed =
    joined-iterate_all server server-IsClient 2 (ground arith) none happened
      (at_position 1 ∷ at_position 3 ∷ []) ((ground arith, tt), (tt, tt))
      (
        (ground arith, (ground arith, tt)),
        (tt, ((ground arith, (ground arith, (ground arith, tt))), (tt, tt))),
      )
