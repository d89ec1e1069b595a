-- ===== src/InMemory/Locking.antt =====
-- Optimistic locking: of two writers who read the same version, one writes.
use python_event_sourcery.Prelude.{
  ℕ, String, inl, inr, zero, suc, ◌+◌, Option, none, some, Bool, true, List, [], ◌∷◌, ◌++◌, all,
  ◌≡◌, ◌≢◌, ◌∙◌, ap, refl, arith, nat_key, nat_beq_iff,
}
use python_event_sourcery.Errors.{Result-cases, ◌>>◌, ok, err, concurrent_stream_write}
use python_event_sourcery.Exec.{Exec}
use python_event_sourcery.StreamId.{StreamId, stream_id_same, stream_id_refl}
use python_event_sourcery.Versioning.{Versioning, explicit_versioning}
use python_event_sourcery.Event.{RawEvent, RecordedRaw}
use python_event_sourcery.InMemory.Storage.{position_or_zero}
use python_event_sourcery.InMemory.Storage.Append.{version_after}
use python_event_sourcery.InMemory.Storage.Valid.{IsValid}
use python_event_sourcery.InMemory.Strategy.{Strategy, recorded_from, insert_events, fetch_events}
use python_event_sourcery.InMemory.Created.{version_before, stream_version}
use python_event_sourcery.InMemory.Insert.{verdict}
use python_event_sourcery.InMemory.Inserted.{new_records, insert-Inserted, insert-Refused}
use python_event_sourcery.InMemory.Reads.{fetch_events-insert_events}
use python_event_sourcery.InMemory.Invariant.{insert_events-IsValid}

-- The version of the last event.
abbrev pub last_of : Option ℕ → List RawEvent → Option ℕ
last_of v [] = v
last_of v (e ∷ rest) = last_of e.version rest

pub version_after-recorded_from :
    (v : Option ℕ) (p : ℕ) (tenant : String) (events : List RawEvent)
    → version_after v (recorded_from p tenant events) ≡ last_of v events
unfolding recorded_from
version_after-recorded_from v p tenant [] = refl
version_after-recorded_from v p tenant (e ∷ rest) =
    version_after-recorded_from e.version (p + 1) tenant rest

pub verdict_mismatch :
    (e v : ℕ) (i : Option ℕ)
    → v ≢ suc e
    → verdict (explicit_versioning (suc e) i) (some (some v))
      ≡ err (concurrent_stream_write (some v) (suc e))
verdict_mismatch e v i ne = ground (arith, nat_beq_iff v (suc e))

pub verdict_match :
    (e : ℕ) (i : Option ℕ) → verdict (explicit_versioning (suc e) i) (some (some (suc e))) ≡ ok tt
verdict_match e i = ground (arith, nat_beq_iff (suc e) (suc e))

module _ {ℓ} {T : Type ℓ} (filterer : RawEvent → Bool)
    (dispatch : List RecordedRaw → Exec T (Unit {0})) (sid : StreamId) where
  -- What an insert of events of its stream into a valid storage answers: what the verdict on the
  -- versioning and the stream's version raises, and otherwise what the dispatcher answers to the
  -- new records.
  pub insert_events-verdict :
      (vs : Versioning) (events : List RawEvent) (s : Strategy T)
      → IsValid s.storage
      → all (λ ev. stream_id_same sid ev.stream_id) events ≡ true
      → (insert_events filterer dispatch sid vs events s).0 ≡ (
          verdict vs (stream_version sid s.storage)
          >> (dispatch (new_records filterer dispatch sid vs events s) s.dispatched).0)
  insert_events-verdict vs events s v mine =
      elim (Result-cases (verdict vs (stream_version sid s.storage))) [
        | inl (u, accepted) ↦
            let i = insert-Inserted filterer dispatch sid vs events s v accepted mine in
            rw accepted (ap (λ r. r.0) i.sent)
        | inr (e, refused) ↦
            rw refused (insert-Refused filterer dispatch sid vs events s v refused).0
      ]

  -- In a valid storage, after one writer's insert at the expected version of its stream, not 0, of
  -- a first event of the stream and more, the last of which has another version w, a second insert
  -- of anything at the same expected version is refused, and told the version w.
  second_writer :
      (e w : ℕ) (i j : Option ℕ) (first : RawEvent) (more others : List RawEvent) (s : Strategy T)
      → IsValid s.storage
      → stream_version sid s.storage ≡ some (some (suc e))
      → all (λ ev. stream_id_same sid ev.stream_id) (first ∷ more) ≡ true
      → last_of first.version more ≡ some w
      → w ≢ suc e
      → (insert_events filterer dispatch sid
          (explicit_versioning (suc e) j)
          others
          (insert_events filterer dispatch sid
            (explicit_versioning (suc e) i)
            (first ∷ more)
            s).1).0
        ≡ err (concurrent_stream_write (some w) (suc e))
  second_writer e w i j first more others s v at mine last ne =
      let vs = explicit_versioning (suc e) i in
      let t = (insert_events filterer dispatch sid vs (first ∷ more) s).1 in
      let accepted : verdict vs (stream_version sid s.storage) ≡ ok tt =
        rw at (verdict_match e i) in
      let done = insert-Inserted filterer dispatch sid vs (first ∷ more) s v accepted mine in
      let p = position_or_zero s.storage in
      let before = version_before vs (stream_version sid s.storage) in
      let moved : stream_version sid t.storage ≡ some (some w) =
        rw (done.at_version sid, stream_id_refl sid)
          (ap some (version_after-recorded_from before p s.tenant_id (first ∷ more) ∙ last)) in
      let refused : verdict (explicit_versioning (suc e) j) (stream_version sid t.storage)
          ≡ err (concurrent_stream_write (some w) (suc e)) =
        rw moved (verdict_mismatch e w j ne) in
      (insert-Refused filterer dispatch sid (explicit_versioning (suc e) j) others t
        (insert_events-IsValid filterer dispatch sid vs (first ∷ more) s v) refused).0

  -- An insert of events of its stream at the expected version 0, the default of `append`, is not
  -- compared: in a valid storage, on a stream that has any version v, it is accepted, and its
  -- events are read after those that are there.
  pub expected_zero :
      (v : ℕ) (i : Option ℕ) (events : List RawEvent) (s : Strategy T)
      → IsValid s.storage
      → stream_version sid s.storage ≡ some (some v)
      → all (λ ev. stream_id_same sid ev.stream_id) events ≡ true
      → (old : List RawEvent) → fetch_events sid none none s ≡ ok old
      → fetch_events sid none none
          (insert_events filterer dispatch sid (explicit_versioning zero i) events s).1
        ≡ ok (old ++ events)
  expected_zero v i events s valid at mine old read =
      (fetch_events-insert_events filterer dispatch sid (explicit_versioning zero i) events s valid
          (rw at) mine).0
        old read
