-- ===== src/Kurrent/Scope.antt =====
-- The window of a read, as a first position and a number of events.
use python_event_sourcery.Prelude.{ℕ, zero, suc, ◌-◌, ◌≤◌, Option, none, some, ◌≡◌, refl, arith}
use python_event_sourcery.Event.Json.{pos}
use python_event_sourcery.Kurrent.{scope}

-- For 1 <= start <= stop and a stop of 2 or more, the window begins at the position of the start
-- version and has as many events as there are versions from start on and before stop.
pub scope_lem :
    (start stop : ℕ)
    → 1 ≤ start
    → start ≤ stop
    → 2 ≤ stop
    → scope (some start) (some stop) ≡ (some (start - 1), pos (stop - start))
unfolding scope
scope_lem zero stop h k l = absurd (omega arith)
scope_lem (suc a) zero h k l = absurd (omega arith)
scope_lem (suc a) (suc zero) h k l = absurd (omega arith)
scope_lem (suc a) (suc (suc b)) h k l = ground arith

-- A read that is to stop before version 1 gets the window of one without a stop.
scope-stop_one : (start : Option ℕ) → scope start (some 1) ≡ scope start none
unfolding scope
scope-stop_one start = refl
