-- ===== src/ReadModel/Missed.antt =====
-- The events that a cursor has not seen, and what one call of the projector shows of them.
use python_event_sourcery.Prelude.{
  ℕ, zero, suc, ◌+◌, ◌-◌, ◌≤◌, ◌<◌, String, Option, none, some, List, ◌∷◌, [], ◌++◌, if◌then◌else◌,
  ltb, ◌≡◌, ◌∙◌, ap, sym, refl, arith, subst, nat_key, string_key, pair_key, Bool-cases, ◌⊎◌, inl,
  inr,
}
use python_event_sourcery.Errors.{Error, Result, ok, err, ahead_of_stream}
use python_event_sourcery.Exec.{Exec, continue}
use python_event_sourcery.StreamId.{StreamId, stream_id_key}
use python_event_sourcery.Event.{WrappedEvent}
use python_event_sourcery.ReadModel.{Rows, increment}
use python_event_sourcery.ReadModel.Projector.{
  State, LoadStream, read_all, catch_up, except_clauses, try_body, project_at, project,
}
use python_event_sourcery.ReadModel.Projected.{Moved, outcome, cursor_after}

-- The n events of a stream from a version on.
unfoldable pub events_from : (ℕ → WrappedEvent) → ℕ → ℕ → List WrappedEvent
events_from history from zero = []
events_from history from (suc n) = history from ∷ events_from history (suc from) n

events_from-snoc :
    (history : ℕ → WrappedEvent) (from n : ℕ)
    → events_from history from (suc n) ≡ events_from history from n ++ (history (from + n) ∷ [])
unfolding events_from
events_from-snoc history from zero = ground (arith)
events_from-snoc history from (suc n) = ground (arith, events_from-snoc history (suc from) n)

pub events_from-last :
    (history : ℕ → WrappedEvent) (from n i m : ℕ)
    → i ≡ from + n
    → m ≡ suc n
    → events_from history from n ++ (history i ∷ []) ≡ events_from history from m
events_from-last history from n i m at_end length =
    ap (λ j. events_from history from n ++ (history j ∷ [])) at_end
    ∙ sym (events_from-snoc history from n)
    ∙ ap (events_from history from) (sym length)

-- A stream is stored up to a version when `load_stream` answers its versions from start (or 1) on
-- and before stop, as far as stop is not behind the versions there are.
pub record IsStored (load_stream : LoadStream) (sid : StreamId) (top : ℕ)
    (history : ℕ → WrappedEvent) : Type 0 where
  pub versioned : (v : ℕ) → v < top → (history (suc v)).version ≡ some (suc v)
  pub from_first :
      (v : ℕ) → v ≤ top → load_stream sid none (some (suc v)) ≡ ok (events_from history 1 v)
  pub from_version :
      (c n start stop : ℕ)
      → start ≡ suc c
      → stop ≡ start + n
      → c + n ≤ top
      → load_stream sid (some start) (some stop) ≡ ok (events_from history (suc c) n)

-- The last version that a cursor has seen.
abbrev pub seen : Option ℕ → ℕ
seen none = 0
seen (some c) = c

abbrev pub maximum : ℕ → ℕ → ℕ
maximum a b = if ltb a b then b else a

pub compare-cases : (v c : ℕ) → (v ≤ c) ⊎ (((w : ℕ) × (v ≡ suc w) × (c < w)) ⊎ (v ≡ suc c))
compare-cases zero c = inl (omega arith)
compare-cases (suc w) c = elim (Bool-cases (ltb c w)) [
  | inl h ↦ inr (inl (w, refl, ground arith))
  | inr h ↦ (elim (Bool-cases (ltb w c)) [
    | inl h' ↦ inl (ground arith)
    | inr h' ↦ inr (inr (ground arith))
  ])
]

pub outcome-ahead : (v c : ℕ) → v ≤ c → outcome (some (suc c)) v ≡ err (ahead_of_stream (suc c))
outcome-ahead zero c h = refl
outcome-ahead (suc v) c h = ground arith

pub cursor_after-ahead : (v c : ℕ) → v ≤ c → cursor_after (some (suc c)) v ≡ some (suc c)
cursor_after-ahead zero c h = refl
cursor_after-ahead (suc v) c h = ground arith

module _ {ℓ} {W : Type ℓ} (read_model : WrappedEvent → StreamId → Exec W (Unit {0})) where
  -- A read model that never raises.
  unfoldable pub IsTotal : Type ℓ
  IsTotal = (e : WrappedEvent) (sid : StreamId) (w : W) → (read_model e sid w).0 ≡ ok tt

  module _ (sid : StreamId) (total : IsTotal) where
    read_all-ok :
        (events : List WrappedEvent) (w : W) → (read_all read_model sid events w).0 ≡ ok tt
    unfolding read_all IsTotal
    read_all-ok [] w = refl
    read_all-ok (e ∷ rest) w =
        rw (total e sid w, continue) (read_all-ok rest (read_model e sid w).1)

    pub read_all-append :
        (xs ys : List WrappedEvent) (w : W)
        → (read_all read_model sid (xs ++ ys) w).1
          ≡ (read_all read_model sid ys (read_all read_model sid xs w).1).1
    unfolding read_all IsTotal
    read_all-append [] ys w = refl
    read_all-append (e ∷ rest) ys w =
        rw (total e sid w, continue) (read_all-append rest ys (read_model e sid w).1)

    module _ (name : String) (load_stream : LoadStream) where
      pub catch_up-ok :
          (event : WrappedEvent) (start : Option ℕ) (version : ℕ) (missed : List WrappedEvent)
          (s : State W)
          → load_stream sid start (some version) ≡ ok missed
          → catch_up read_model name load_stream event sid start version s ≡ (
            ok tt,
            record {
              rows = s.rows;
              world = (read_all read_model sid (missed ++ (event ∷ [])) s.world).1;
            },
          )
      unfolding catch_up read_all IsTotal
      catch_up-ok event start version missed s h =
          rw
            (
              h,
              catch_up,
              continue,
              read_all-ok missed s.world,
              read_all-append missed (event ∷ []) s.world,
              total event sid (read_all read_model sid missed s.world).1,
            )
            refl

      -- The cursors after `increment`.
      abbrev pub incremented : ℕ → State W → Rows
      incremented version s = (increment (name, sid) version s.rows).1

      pub project_at-incremented :
          (event : WrappedEvent) (version : ℕ) (s : State W)
          → (increment (name, sid) version s.rows).0 ≡ ok tt
          → project_at read_model name load_stream (some version) event sid s ≡ (
            ok tt,
            record {
              rows = incremented version s;
              world = (read_all read_model sid (event ∷ []) s.world).1;
            },
          )
      unfolding project_at try_body IsTotal read_all
      project_at-incremented event version s worked =
          rw (worked, continue, total event sid s.world) refl

      pub project_at-refused :
          (event : WrappedEvent) (version : ℕ) (e : Error) (s : State W)
          → (increment (name, sid) version s.rows).0 ≡ err e
          → project_at read_model name load_stream (some version) event sid s
            ≡ except_clauses read_model name load_stream e event sid version
                (record { rows = incremented version s; world = s.world })
      unfolding project_at try_body
      project_at-refused event version e s refused = rw (refused, continue) refl

      -- What one call makes of the cursor of its stream and of the read model.
      pub record Projected (history : ℕ → WrappedEvent) (s : State W) (v : ℕ) (cursor : Option ℕ)
          (t : Result (Unit {0}) × State W) : Type ℓ where
        pub worked : t.0 ≡ ok tt
        pub cursors : Moved (name, sid) s.rows t.1.rows (some (maximum (seen cursor) (suc v)))
        pub shown :
            t.1.world
            ≡ (read_all read_model sid
                (events_from history (suc (seen cursor)) (suc v - seen cursor))
                s.world).1

      pub shown-Projected :
          (history : ℕ → WrappedEvent) (s : State W) (v : ℕ) (cursor : Option ℕ) (rows : Rows)
          (m : ℕ) (events : List WrappedEvent)
          → Moved (name, sid) s.rows rows (some m)
          → m ≡ maximum (seen cursor) (suc v)
          → events ≡ events_from history (suc (seen cursor)) (suc v - seen cursor)
          → Projected history s v cursor
              (ok tt, record { rows = rows; world = (read_all read_model sid events s.world).1 })
      shown-Projected history s v cursor rows m events f is_maximum is_range = record {
        worked = refl;
        cursors = subst (λ n. Moved (name, sid) s.rows rows (some n)) is_maximum f;
        shown = ap (λ l. (read_all read_model sid l s.world).1) is_range;
      }

      pub at_version :
          (history : ℕ → WrappedEvent) (v : ℕ) (s : State W) (cursor : Option ℕ)
          → (history (suc v)).version ≡ some (suc v)
          → Projected history s v cursor
              (project_at read_model name load_stream (some (suc v)) (history (suc v)) sid s)
          → Projected history s v cursor
              (project read_model name load_stream (history (suc v)) sid s)
      unfolding project
      at_version history v s cursor h =
          subst
            (λ o.
              Projected history s v cursor
                (project_at read_model name load_stream o (history (suc v)) sid s))
            (sym h)
