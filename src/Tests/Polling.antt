-- ===== src/Tests/Polling.antt =====
-- The iterator that waits for gaps.
use python_event_sourcery.Prelude.{
  ℕ, some, true, false, List, [], ◌∷◌, is_some, all, ltb, ◌≡◌, refl, arith,
}
use python_event_sourcery.GapDetecting.{DbEvent, Poll, to_all, get_batch, is_continuous, next}
use python_event_sourcery.GapDetecting.Gaps.{IsGrowing}
use python_event_sourcery.GapDetecting.Next.{
  Returned, here, EndsWith, AreOrdered, next-Returned, next-returns, late_event_missed,
}
use python_event_sourcery.Tests.Data.{raw_event}

abbrev row : ℕ → DbEvent
row id = record { id = id; category = "orders"; tenant_id = ""; entry = raw_event id (some id) }

abbrev quick : Poll
quick = record { rows = row 2 ∷ row 3 ∷ []; timed_out = false }

abbrev slow : Poll
slow = record { rows = row 1 ∷ row 3 ∷ []; timed_out = true }

-- A gap, and time left
abbrev slow_first : Poll
slow_first = record { rows = row 1 ∷ row 3 ∷ []; timed_out = false }

ordered : AreOrdered (slow_first ∷ quick ∷ [])
unfolding IsGrowing
ordered = ((omega arith, (omega arith, tt)), ((omega arith, (omega arith, tt)), tt))

returned :
    (poll : Poll) × EndsWith to_all 2 0 poll (slow_first ∷ quick ∷ [])
    × Returned to_all 2 0 poll (row 2 ∷ row 3 ∷ []) 3
unfolding next
returned = next-Returned to_all 2 0 (slow_first ∷ quick ∷ []) (row 2 ∷ row 3 ∷ []) 3 ordered refl

returns : is_some (next to_all 5 0 (slow ∷ [])) ≡ true
returns = next-returns to_all 5 0 (slow ∷ []) here refl

growing : IsGrowing (row 2).id (row 3 ∷ [])
unfolding IsGrowing
growing = (omega arith, tt)

missed :
    (cursor : ℕ) × (next to_all 2 0 (quick ∷ []) ≡ some (row 2 ∷ row 3 ∷ [], cursor))
    × ((m : ℕ) (visible : List DbEvent)
        → all (λ r. ltb (row 1).id r.id) (get_batch to_all m cursor visible) ≡ true)
unfolding get_batch is_continuous
missed =
    late_event_missed 2 0 (row 2) (row 3) [] quick [] (row 1) refl growing refl refl (omega arith)
      (omega arith)
