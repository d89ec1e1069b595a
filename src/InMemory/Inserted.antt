-- ===== src/InMemory/Inserted.antt =====
-- What `insert_events` does on each of its branches: the storage, the outbox and the dispatcher.
use python_event_sourcery.Prelude.{
  Option, ℕ, ◌+◌, some, Bool, true, List, [], ◌∷◌, ◌++◌, all, ◌≡◌, ◌∙◌, ap, refl, arith,
  if◌then◌else◌, nat_key, option_key,
}
use python_event_sourcery.Errors.{Error, Result, ok, err}
use python_event_sourcery.Exec.{Exec}
use python_event_sourcery.StreamId.{StreamId, TenantId, stream_id_same, stream_id_key}
use python_event_sourcery.Versioning.{Versioning}
use python_event_sourcery.Event.{RawEvent, RecordedRaw}
use python_event_sourcery.InMemory.Storage
use python_event_sourcery.InMemory.Storage.{Storage, has_stream, first_version, position_or_zero}
use python_event_sourcery.InMemory.Insert.{verdict, ensure_stream-verdict}
use python_event_sourcery.InMemory.Storage.Append.{append-Appended, belongs_to, version_after}
use python_event_sourcery.InMemory.Storage.Valid.{IsValid}
use python_event_sourcery.InMemory.Strategy.{
  Strategy, create_if_missing, ensure_stream, recorded_from, store_records, insert_events,
  into_outbox,
}
use python_event_sourcery.InMemory.Created.{
  contents, stream_version, create_if_missing-there, version_before, contents-create_if_missing,
  lookup-create_if_missing, version-create_if_missing, stream_version-create_if_missing,
  contents-Appended, stream_version-Appended,
}
use python_event_sourcery.InMemory.Invariant.{records-create_if_missing, ensure_stream_state}

all_belong_from :
    (sid : StreamId) (tenant : TenantId) (events : List RawEvent)
    → all (λ e. stream_id_same sid e.stream_id) events ≡ true
    → (p : ℕ) → all (belongs_to sid) (recorded_from p tenant events) ≡ true
unfolding recorded_from
all_belong_from sid tenant [] h p = refl
all_belong_from sid tenant (e ∷ rest) h p =
    ground (arith, all_belong_from sid tenant rest (ground arith) (p + 1))

-- `store_records` after an `append` that returns.
pub stored_outcome {ℓ} :
    {T : Type ℓ} (filterer : RawEvent → Bool) (dispatch : List RecordedRaw → Exec T (Unit {0}))
    (records : List RecordedRaw) (s : Strategy T)
    → (Storage.append records s.storage).0 ≡ ok tt
    → store_records filterer dispatch records s ≡ (
      (dispatch records s.dispatched).0,
      record s {
        storage = (Storage.append records s.storage).1;
        outbox = into_outbox filterer records s.outbox;
        dispatched = (dispatch records s.dispatched).1;
      },
    )
stored_outcome filterer dispatch records s h = unfold store_records in rw h

module _ {ℓ} {T : Type ℓ} (filterer : RawEvent → Bool)
    (dispatch : List RecordedRaw → Exec T (Unit {0})) (sid : StreamId) (vs : Versioning)
    (events : List RawEvent) (s : Strategy T) where
  -- The records that the insert makes.
  abbrev pub new_records : List RecordedRaw
  new_records = recorded_from (position_or_zero s.storage) s.tenant_id events

  -- An insert that the verdict lets through: `t` is the state after it, `r` its result.
  pub record Inserted (r : Result (Unit {0})) (t : Strategy T) : Type ℓ where
    pub log : t.storage.records ≡ s.storage.records ++ new_records
    pub at_contents :
        (j : StreamId)
        → contents j t.storage ≡ (
            if stream_id_same sid j
            then contents sid s.storage ++ new_records
            else contents j s.storage)
    pub at_version :
        (j : StreamId)
        → stream_version j t.storage ≡ (
            if stream_id_same sid j
            then some (version_after (version_before vs (stream_version sid s.storage)) new_records)
            else stream_version j s.storage)
    pub in_outbox : t.outbox ≡ into_outbox filterer new_records s.outbox
    pub tenant : t.tenant_id ≡ s.tenant_id
    pub sent : (r, t.dispatched) ≡ dispatch new_records s.dispatched

  -- An insert that is refused: what can be read stays, and nothing is sent.
  pub record Refused (t : Strategy T) : Type ℓ where
    pub log : t.storage.records ≡ s.storage.records
    pub at_contents : (j : StreamId) → contents j t.storage ≡ contents j s.storage
    pub in_outbox : t.outbox ≡ s.outbox
    pub tenant : t.tenant_id ≡ s.tenant_id
    pub sent : t.dispatched ≡ s.dispatched

  abbrev outcome : Result (Unit {0}) × Strategy T
  outcome = insert_events filterer dispatch sid vs events s

  accepted_outcome :
      (ensure_stream sid vs s.storage).0 ≡ ok tt
      → outcome
        ≡ store_records filterer dispatch new_records
            (record s { storage = create_if_missing sid vs s.storage })
  accepted_outcome h =
      let same_state = ensure_stream_state sid vs s.storage in
      unfold insert_events in rw (h, same_state)

  refused_outcome :
      {e : Error}
      → (ensure_stream sid vs s.storage).0 ≡ err e
      → outcome ≡ (err e, record s { storage = create_if_missing sid vs s.storage })
  refused_outcome h =
      let same_state = ensure_stream_state sid vs s.storage in
      unfold insert_events in rw (h, same_state)

  all_belong :
      all (λ e. stream_id_same sid e.stream_id) events ≡ true
      → (p : ℕ) → all (belongs_to sid) (recorded_from p s.tenant_id events) ≡ true
  all_belong = all_belong_from sid s.tenant_id events

  -- An accepted insert whose events belong to its stream puts the records last in the log, in the
  -- stream and in the outbox, leaves every other stream alone, and returns what the dispatcher
  -- returns.
  pub insert-Inserted :
      IsValid s.storage
      → verdict vs (stream_version sid s.storage) ≡ ok tt
      → all (λ e. stream_id_same sid e.stream_id) events ≡ true
      → Inserted outcome.0 outcome.1
  unfolding has_stream
  insert-Inserted v accepted mine =
      let made = create_if_missing sid vs s.storage in
      let passed : (ensure_stream sid vs s.storage).0 ≡ ok tt =
        ensure_stream-verdict sid vs s.storage v ∙ accepted in
      let appended =
        append-Appended sid new_records (contents sid s.storage)
          (version_before vs (stream_version sid s.storage)) made
          (lookup-create_if_missing sid vs s.storage) (version-create_if_missing sid vs s.storage v)
          (all_belong mine (position_or_zero s.storage)) in
      rw
        (
          accepted_outcome passed,
          stored_outcome filterer dispatch new_records (record s { storage = made }) appended.0,
        )
        (record {
          log =
              appended.1.same_records
              ∙ ap (λ l. l ++ new_records) (records-create_if_missing sid vs s.storage);
          at_contents = λ j. ground (
            arith,
            contents-Appended appended.1 j,
            contents-create_if_missing sid vs s.storage j,
          );
          at_version = λ j. ground (
            arith,
            stream_version-Appended appended.1 j,
            stream_version-create_if_missing sid vs s.storage j,
          );
          in_outbox = refl;
          tenant = refl;
          sent = refl;
        })

  -- A refused insert raises the verdict, and changes nothing that can be read.
  pub insert-Refused :
      {e : Error}
      → IsValid s.storage
      → verdict vs (stream_version sid s.storage) ≡ err e
      → (outcome.0 ≡ err e) × Refused outcome.1
  insert-Refused {e} v refused =
      let failed : (ensure_stream sid vs s.storage).0 ≡ err e =
        ensure_stream-verdict sid vs s.storage v ∙ refused in
      rw (refused_outcome failed) (
        refl,
        record {
          log = records-create_if_missing sid vs s.storage;
          at_contents = contents-create_if_missing sid vs s.storage;
          in_outbox = refl;
          tenant = refl;
          sent = refl;
        },
      )

  -- On a stream that is there it changes nothing at all.
  pub insert-refused_there :
      {e : Error} (w : Option ℕ)
      → IsValid s.storage
      → stream_version sid s.storage ≡ some w
      → verdict vs (stream_version sid s.storage) ≡ err e
      → outcome ≡ (err e, s)
  insert-refused_there {e} w v there refused =
      let failed : (ensure_stream sid vs s.storage).0 ≡ err e =
        ensure_stream-verdict sid vs s.storage v ∙ refused in
      refused_outcome failed
      ∙ ap (λ storage. (err e, record s { storage = storage }))
          (create_if_missing-there sid vs s.storage w there)
