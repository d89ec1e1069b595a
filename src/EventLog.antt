-- ===== src/EventLog.antt =====
-- What a `StorageStrategy` of event_sourcery/_event_store/interfaces.py promises to writers that
-- append with an expected version, stated of a log of one stream that knows neither tables nor
-- records: the laws that a strategy has to fill, and writers that take turns over any that does.
pub mod OverMemory
use python_event_sourcery.Prelude.{
  ℕ, suc, ◌<◌, ◌≤◌, Option, none, some, Bool, true, false, List, [], ◌∷◌, ◌++◌, ◌≡◌, ◌⊎◌, inl, inr,
  subst, Bool-cases, nat_beq, nat_beq_iff,
}
use python_event_sourcery.Errors.{Error, Result, ok, err}
use python_event_sourcery.Exec.{Exec}
use python_event_sourcery.StreamId.{StreamId}
use python_event_sourcery.Versioning.{Versioning, explicit_versioning}
use python_event_sourcery.Event.{RawEvent}
use python_event_sourcery.EventStore.{StorageStrategy}

-- The versions of the events grow, from above `p` on, and the last of them is `v`.
abbrev pub IsRising : ℕ → ℕ → List RawEvent → Type 0
IsRising p v [] = p ≡ v
IsRising p v (e ∷ rest) = (w : ℕ) × (e.version ≡ some w) × (p < w) × IsRising w v rest

-- All events are for the stream.
abbrev pub IsFor : StreamId → List RawEvent → Type 0
IsFor sid [] = Unit
IsFor sid (e ∷ rest) = (e.stream_id ≡ sid) × IsFor sid rest

-- What a writer asks for, as `EventStore.append` passes it on: an expected version other than 0,
-- which is one more than `before`, one event at least, and the version of the last of them.
pub record Request (sid : StreamId) : Type 0 where
  pub before : ℕ
  pub last : ℕ
  pub first : RawEvent
  pub more : List RawEvent
  pub rising : IsRising (suc before) last (first ∷ more)
  pub addressed : IsFor sid (first ∷ more)

abbrev pub events_of : {sid : StreamId} → Request sid → List RawEvent
events_of r = r.first ∷ r.more

-- `strategy.insert_events` of a request
abbrev pub ask {ℓ} :
    {S : Type ℓ} → StorageStrategy S → (sid : StreamId) → Request sid → Exec S (Unit {0})
ask strategy sid r =
    strategy.insert_events sid (explicit_versioning (suc r.before) (some r.last)) (events_of r)

-- The events of all requests
abbrev pub all_events : {sid : StreamId} → List (Request sid) → List RawEvent
all_events [] = []
all_events (r ∷ rest) = events_of r ++ all_events rest

-- The laws. `undo` takes the states before a call that raised and after it to the one that the
-- transaction around the call leaves. Every request at the version of the stream is accepted, and
-- every other one refused, while the store has room for the events that are asked for.
pub record LockedLog {ℓ} {S : Type ℓ} (strategy : StorageStrategy S) (undo : S → S → S)
    : Type (ℓ ⊔ 1) where
  pub Holds : StreamId → ℕ → List RawEvent → S → Type 0
  pub HasRoom : List RawEvent → S → Type 0
  pub reads :
      (sid : StreamId) (v : ℕ) (log : List RawEvent) (s : S)
      → Holds sid v log s
      → strategy.fetch_events sid none none s ≡ ok log
  pub accepts :
      (sid : StreamId) (r : Request sid) (log later : List RawEvent) (s : S)
      → Holds sid (suc r.before) log s
      → HasRoom (events_of r ++ later) s
      → ((ask strategy sid r s).0 ≡ ok tt)
        × Holds sid r.last (log ++ events_of r) (ask strategy sid r s).1
        × HasRoom later (ask strategy sid r s).1
  pub refuses :
      (sid : StreamId) (r : Request sid) (v : ℕ) (log later : List RawEvent) (s : S)
      → Holds sid v log s
      → nat_beq v (suc r.before) ≡ false
      → HasRoom (events_of r ++ later) s
      → (e : Error) × ((ask strategy sid r s).0 ≡ err e)
        × Holds sid v log (undo s (ask strategy sid r s).1)
        × HasRoom later (undo s (ask strategy sid r s).1)

-- The specification: a stream is its version and its events. A request that expects the version is
-- accepted, which appends its events and moves the version to the last of them; one that expects
-- another is refused, which changes nothing. The Booleans are the answers.
pub data Commits (sid : StreamId)
    : List (Request sid) → List Bool → ℕ → List RawEvent → ℕ → List RawEvent → Type 0 where
  done : {v : ℕ} {log : List RawEvent} → Commits sid [] [] v log v log
  accepted :
      {r : Request sid} {rest : List (Request sid)} {answers : List Bool} {v w : ℕ}
      {log after : List RawEvent}
      → v ≡ suc r.before
      → Commits sid rest answers r.last (log ++ events_of r) w after
      → Commits sid (r ∷ rest) (true ∷ answers) v log w after
  refused :
      {r : Request sid} {rest : List (Request sid)} {answers : List Bool} {v w : ℕ}
      {log after : List RawEvent}
      → nat_beq v (suc r.before) ≡ false
      → Commits sid rest answers v log w after
      → Commits sid (r ∷ rest) (false ∷ answers) v log w after

abbrev pub is_ok {ℓ} : {A : Type ℓ} → Result A → Bool
is_ok (ok a) = true
is_ok (err e) = false

-- Writers that take turns, each in a transaction of its own
module _ {ℓ} {S : Type ℓ} (strategy : StorageStrategy S) (undo : S → S → S) (sid : StreamId) where
  abbrev left_by : Result (Unit {0}) → S → S → S
  left_by (ok u) s s' = s'
  left_by (err e) s s' = undo s s'

  unfoldable pub take_turns : List (Request sid) → S → List Bool × S
  take_turns [] s = ([], s)
  take_turns (r ∷ rest) s =
      let answer = ask strategy sid r s in
      let later = take_turns rest (left_by answer.0 s answer.1) in
      (is_ok answer.0 ∷ later.0, later.1)

  -- If a strategy fills the laws, a stream holds `log` up to the version `v` and there is room for
  -- all events, then whatever the writers ask for and in whatever order, the answers they get are
  -- those of the run of the specification from `v` and `log`, and the stream reads afterwards as
  -- the log that this run ends in.
  pub take_turns-Commits :
      (laws : LockedLog strategy undo) (requests : List (Request sid)) (v : ℕ) (log : List RawEvent)
      (s : S)
      → laws.Holds sid v log s
      → laws.HasRoom (all_events requests) s
      → (w : ℕ) × (after : List RawEvent) × Commits sid requests
          (take_turns requests s).0
          v
          log
          w
          after
        × laws.Holds sid w after (take_turns requests s).1
        × (strategy.fetch_events sid none none (take_turns requests s).1 ≡ ok after)
  unfolding take_turns
  take_turns-Commits laws [] v log s h room = (v, log, done, h, laws.reads sid v log s h)
  take_turns-Commits laws (r ∷ rest) v log s h room = elim (Bool-cases (nat_beq v (suc r.before))) [
    | inl equal ↦
        let at = (nat_beq_iff v (suc r.before)).0 equal in
        let (said, held, left) =
          laws.accepts sid r log (all_events rest) s (subst (λ n. laws.Holds sid n log s) at h)
            room in
        let (w, after, steps, kept, read) =
          take_turns-Commits laws rest r.last (log ++ events_of r) (ask strategy sid r s).1 held
            left in
        rw said (w, after, accepted at steps, kept, read)
    | inr stale ↦
        let (e, said, held, left) = laws.refuses sid r v log (all_events rest) s h stale room in
        let (w, after, steps, kept, read) =
          take_turns-Commits laws rest v log (undo s (ask strategy sid r s).1) held left in
        rw said (w, after, refused stale steps, kept, read)
  ]
