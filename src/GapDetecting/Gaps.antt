-- ===== src/GapDetecting/Gaps.antt =====
-- What the test of `_is_continuous` means for the ids.
use python_event_sourcery.Prelude.{
  ℕ, zero, suc, ◌+◌, ◌≤◌, ◌<◌, Bool, true, ◌&&◌, List, [], ◌∷◌, length, map, select, take, ltb, ◌≡◌,
  refl, arith, ap, nat_key, Bool-cases, inl, inr,
}
use python_event_sourcery.GapDetecting.{
  DbEvent, GetBatch, selects, get_batch, last_id, is_continuous,
}

-- The ids grow strictly, from more than one.
unfoldable pub IsGrowing : ℕ → List DbEvent → Type 0
IsGrowing low [] = Unit
IsGrowing low (row ∷ rows) = (low < row.id) × IsGrowing row.id rows

unfoldable pub ids_from : ℕ → ℕ → List ℕ
ids_from low zero = []
ids_from low (suc n) = low ∷ ids_from (suc low) n

pub last_id-le :
    (low : ℕ) (rows : List DbEvent) → IsGrowing low rows → low + length rows ≤ last_id low rows
unfolding IsGrowing last_id
last_id-le low [] h = omega arith
last_id-le low (row ∷ rows) (h, g) = let rest = last_id-le row.id rows g in omega arith

-- Growing ids whose last is as far from the first as their number lack none between.
pub consecutive :
    (low : ℕ) (rows : List DbEvent)
    → IsGrowing low rows
    → last_id low rows ≡ low + length rows
    → map (λ row. row.id) rows ≡ ids_from (suc low) (length rows)
unfolding IsGrowing last_id ids_from
consecutive low [] g h = refl
consecutive low (row ∷ rows) (l, g) h =
    let bound = last_id-le row.id rows g in
    let next_id : row.id ≡ suc low = omega arith in
    let rest : last_id row.id rows ≡ row.id + length rows = omega arith in
    let others = consecutive row.id rows g rest in rw (others, next_id) refl

-- A batch of at least two events in id order that passes the test has consecutive numbers for ids,
-- with no gap that a late transaction could fill.
pub is_continuous_lem :
    (a b : DbEvent) (rows : List DbEvent)
    → IsGrowing a.id (b ∷ rows)
    → is_continuous (a ∷ b ∷ rows) ≡ true
    → map (λ row. row.id) (a ∷ b ∷ rows) ≡ ids_from a.id (length (a ∷ b ∷ rows))
unfolding is_continuous ids_from
is_continuous_lem a b rows g h =
    let last : last_id a.id (b ∷ rows) ≡ a.id + length (b ∷ rows) = ground arith in
    ap (λ l. a.id ∷ l) (consecutive a.id (b ∷ rows) g last)

-- The ids of a batch, of two events at least, are consecutive numbers.
abbrev pub HasNoGap : List DbEvent → Type 0
HasNoGap batch =
    (1 < length batch) × (first : ℕ) × (map (λ row. row.id) batch ≡ ids_from first (length batch))

pub HasNoGap-is_continuous :
    (low : ℕ) (batch : List DbEvent)
    → IsGrowing low batch
    → is_continuous batch ≡ true
    → HasNoGap batch
unfolding IsGrowing is_continuous
HasNoGap-is_continuous low [] g h = absurd (ground arith)
HasNoGap-is_continuous low (a ∷ []) g h = absurd (ground arith)
HasNoGap-is_continuous low (a ∷ b ∷ rows) (l, g) h =
    (omega arith, a.id, is_continuous_lem a b rows g (unfold is_continuous in h))

ids_from-last :
    (low : ℕ) (rows : List DbEvent)
    → map (λ row. row.id) rows ≡ ids_from (suc low) (length rows)
    → last_id low rows ≡ low + length rows
unfolding last_id ids_from
ids_from-last low [] h = omega arith
ids_from-last low (row ∷ rows) h =
    let next_id : row.id ≡ suc low = ground arith in
    let others : map (λ row. row.id) rows ≡ ids_from (suc row.id) (length rows) =
      rw next_id (ground arith) in
    let last = ids_from-last row.id rows others in omega arith

pub is_continuous-HasNoGap : (batch : List DbEvent) → HasNoGap batch → is_continuous batch ≡ true
unfolding is_continuous ids_from
is_continuous-HasNoGap [] (long, first, h) = absurd (omega arith)
is_continuous-HasNoGap (a ∷ []) (long, first, h) = absurd (omega arith)
is_continuous-HasNoGap (a ∷ b ∷ rows) (long, first, h) =
    let start : a.id ≡ first = ground arith in
    let others : map (λ row. row.id) (b ∷ rows) ≡ ids_from (suc a.id) (length (b ∷ rows)) =
      rw start (ground arith) in
    let last = ids_from-last a.id (b ∷ rows) others in ground (arith, last)

-- What a query takes of growing rows grows.
IsGrowing-weaken :
    (low high : ℕ) (rows : List DbEvent) → low ≤ high → IsGrowing high rows → IsGrowing low rows
unfolding IsGrowing
IsGrowing-weaken low high [] h g = tt
IsGrowing-weaken low high (row ∷ rows) h (l, g) = (omega arith, g)

IsGrowing-select :
    (keep : DbEvent → Bool) (low : ℕ) (rows : List DbEvent)
    → IsGrowing low rows
    → IsGrowing low (select keep rows)
unfolding IsGrowing
IsGrowing-select keep low [] g = tt
IsGrowing-select keep low (row ∷ rows) (l, g) =
    let later = IsGrowing-select keep row.id rows g in
    elim (Bool-cases (keep row)) [
      | inl kept ↦ rw kept (l, later)
      | inr dropped ↦
          rw dropped (IsGrowing-weaken low row.id (select keep rows) (omega arith) later)
    ]

IsGrowing-take :
    (n low : ℕ) (rows : List DbEvent) → IsGrowing low rows → IsGrowing low (take n rows)
unfolding IsGrowing
IsGrowing-take zero low rows g = tt
IsGrowing-take (suc n) low [] g = tt
IsGrowing-take (suc n) low (row ∷ rows) (l, g) = (l, IsGrowing-take n row.id rows g)

pub get_batch-IsGrowing :
    (kind : GetBatch) (n position low : ℕ) (rows : List DbEvent)
    → IsGrowing low rows
    → IsGrowing low (get_batch kind n position rows)
unfolding get_batch
get_batch-IsGrowing kind n position low rows g =
    let wanted : DbEvent → Bool = λ row. selects kind row && ltb position row.id in
    IsGrowing-take n low (select wanted rows) (IsGrowing-select wanted low rows g)
