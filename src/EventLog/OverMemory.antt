-- ===== src/EventLog/OverMemory.antt =====
-- The laws of the event log for `InMemoryStorageStrategy` of
-- event_sourcery/_event_store/in_memory.py, whose inserts are in no transaction.
use python_event_sourcery.Prelude.{
  ℕ, suc, Option, none, some, Bool, true, false, List, [], ◌∷◌, ◌++◌, all, ◌≡◌, ◌∙◌, ap, sym, subst,
  refl, arith, nat_beq, nat_beq_iff,
}
use python_event_sourcery.Errors.{ok, err, concurrent_stream_write}
use python_event_sourcery.Exec.{Exec}
use python_event_sourcery.StreamId.{StreamId, stream_id_same, stream_id_refl}
use python_event_sourcery.Versioning.{explicit_versioning}
use python_event_sourcery.Event.{RawEvent, RecordedRaw}
use python_event_sourcery.EventStore.OverMemory.{in_memory}
use python_event_sourcery.EventLog.{
  LockedLog, Request, IsRising, IsFor, ask, events_of, Commits, take_turns, take_turns-Commits,
}
use python_event_sourcery.InMemory.Storage.{position_or_zero}
use python_event_sourcery.InMemory.Storage.Valid.{IsValid}
use python_event_sourcery.InMemory.Strategy.{Strategy, fetch_events}
use python_event_sourcery.InMemory.Created.{version_before, stream_version}
use python_event_sourcery.InMemory.Insert.{verdict}
use python_event_sourcery.InMemory.Inserted.{new_records, insert-Inserted, insert-refused_there}
use python_event_sourcery.InMemory.Reads.{fetch_events-insert_events}
use python_event_sourcery.InMemory.Invariant.{insert_events-IsValid}
use python_event_sourcery.InMemory.Locking.{
  last_of, version_after-recorded_from, verdict_match, verdict_mismatch,
}

-- There is no transaction: what was written stays.
abbrev pub kept_as_is {ℓ} : {S : Type ℓ} → S → S → S
kept_as_is s s' = s'

last_of-IsRising :
    (p u : ℕ) (v : Option ℕ) (events : List RawEvent)
    → v ≡ some p
    → IsRising p u events
    → last_of v events ≡ some u
last_of-IsRising p u v [] h k = h ∙ ap some k
last_of-IsRising p u v (e ∷ rest) h k = last_of-IsRising k.0 u e.version rest k.1 k.3

all-IsFor :
    (sid : StreamId) (events : List RawEvent)
    → IsFor sid events
    → all (λ e. stream_id_same sid e.stream_id) events ≡ true
all-IsFor sid [] h = refl
all-IsFor sid (e ∷ rest) h =
    let same : stream_id_same sid e.stream_id ≡ true =
      subst (λ i. stream_id_same sid i ≡ true) (sym h.0) (stream_id_refl sid) in
    rw (same, all-IsFor sid rest h.1) refl

module _ {ℓ} {T : Type ℓ} (filterer : RawEvent → Bool)
    (dispatch : List RecordedRaw → Exec T (Unit {0}))
    (quiet : (records : List RecordedRaw) (t : T) → (dispatch records t).0 ≡ ok tt) where
  -- A stream with a version in a valid storage
  record HoldsIn (sid : StreamId) (v : ℕ) (log : List RawEvent) (s : Strategy T) : Type 0 where
    pub valid : IsValid s.storage
    pub version : stream_version sid s.storage ≡ some (some v)
    pub reads : fetch_events sid none none s ≡ ok log

  accepted-HoldsIn :
      (sid : StreamId) (r : Request sid) (v : ℕ) (log : List RawEvent) (s : Strategy T)
      → HoldsIn sid v log s
      → v ≡ suc r.before
      → ((ask (in_memory filterer dispatch) sid r s).0 ≡ ok tt)
        × HoldsIn sid r.last (log ++ events_of r) (ask (in_memory filterer dispatch) sid r s).1
  unfolding in_memory
  accepted-HoldsIn sid r v log s h at =
      let vs = explicit_versioning (suc r.before) (some r.last) in
      let new = events_of r in
      let mine = all-IsFor sid new r.addressed in
      let accepted : verdict vs (stream_version sid s.storage) ≡ ok tt = rw h.version (
        subst (λ w. verdict vs (some (some w)) ≡ ok tt) (sym at)
          (verdict_match r.before (some r.last))) in
      let done = insert-Inserted filterer dispatch sid vs new s h.valid accepted mine in
      let before = version_before vs (stream_version sid s.storage) in
      (
        ap (λ r. r.0) done.sent ∙ quiet (new_records filterer dispatch sid vs new s) s.dispatched,
        record {
          valid = insert_events-IsValid filterer dispatch sid vs new s h.valid;
          version =
              rw (done.at_version sid, stream_id_refl sid)
                (ap some (
                  version_after-recorded_from before (position_or_zero s.storage) s.tenant_id new
                  ∙ last_of-IsRising r.rising.0 r.last r.first.version r.more r.rising.1
                      r.rising.3));
          reads =
              (fetch_events-insert_events filterer dispatch sid vs new s h.valid accepted mine).0
                log h.reads;
        },
      )

  refused-HoldsIn :
      (sid : StreamId) (r : Request sid) (v : ℕ) (log : List RawEvent) (s : Strategy T)
      → HoldsIn sid v log s
      → nat_beq v (suc r.before) ≡ false
      → ((ask (in_memory filterer dispatch) sid r s).0
          ≡ err (concurrent_stream_write (some v) (suc r.before)))
        × HoldsIn sid v log (ask (in_memory filterer dispatch) sid r s).1
  unfolding in_memory
  refused-HoldsIn sid r v log s h stale =
      let vs = explicit_versioning (suc r.before) (some r.last) in
      let new = events_of r in
      let refused : verdict vs (stream_version sid s.storage)
          ≡ err (concurrent_stream_write (some v) (suc r.before)) =
        rw h.version (
          verdict_mismatch r.before v (some r.last)
            (λ e. ground (arith, nat_beq_iff v (suc r.before)))) in
      let nothing =
        insert-refused_there filterer dispatch sid vs new s (some v) h.valid h.version refused in
      (ap (λ r. r.0) nothing, subst (λ r. HoldsIn sid v log r.1) (sym nothing) h)

  -- The laws of the event log. There is room for all events, since nothing is compared with what
  -- is stored.
  pub memory-LockedLog : LockedLog (in_memory filterer dispatch) kept_as_is
  unfolding in_memory
  memory-LockedLog = record {
    Holds = HoldsIn;
    HasRoom = λ events s. Unit {0};
    reads = λ sid v log s h. h.reads;
    accepts = λ sid r log later s h room.
        let (returned, held) = accepted-HoldsIn sid r (suc r.before) log s h refl in
        (returned, held, tt);
    refuses = λ sid r v log later s h stale room.
        let (raised, held) = refused-HoldsIn sid r v log s h stale in
        (concurrent_stream_write (some v) (suc r.before), raised, held, tt);
  }

  abbrev pub turns : (sid : StreamId) → List (Request sid) → Strategy T → List Bool × Strategy T
  turns = take_turns (in_memory filterer dispatch) kept_as_is

  -- Over the in-memory strategy with a dispatcher that raises nothing, from a valid storage in
  -- which a stream has a version v and reads as `log`: whatever writers ask for with an expected
  -- version other than 0 and one event of the stream at least, of versions that grow from above it,
  -- in whatever order, the answers are those of the run of the specification from v and `log`,
  -- which accepts a request exactly if it expects the version that the stream then has; and the
  -- stream has the version and the events that this run ends in.
  pub take_turns-in_memory :
      (sid : StreamId) (requests : List (Request sid)) (v : ℕ) (log : List RawEvent)
      (s : Strategy T)
      → IsValid s.storage
      → stream_version sid s.storage ≡ some (some v)
      → fetch_events sid none none s ≡ ok log
      → (w : ℕ) × (after : List RawEvent) × Commits sid requests
          (turns sid requests s).0
          v
          log
          w
          after
        × (stream_version sid (turns sid requests s).1.storage ≡ some (some w))
        × (fetch_events sid none none (turns sid requests s).1 ≡ ok after)
  unfolding memory-LockedLog
  take_turns-in_memory sid requests v log s valid at read =
      let (w, after, steps, held, reads) =
        take_turns-Commits (in_memory filterer dispatch) kept_as_is sid memory-LockedLog requests v
          log s (record { valid = valid; version = at; reads = read }) tt in
      (w, after, steps, held.version, held.reads)
