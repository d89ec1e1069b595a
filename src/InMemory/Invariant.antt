-- ===== src/InMemory/Invariant.antt =====
-- The storage of the in-memory strategy stays valid under every operation, whether it returns or
-- raises.
use python_event_sourcery.Prelude.{
  ℕ, ◌+◌, Bool, List, [], ◌∷◌, length, ◌≡◌, refl, subst, arith, Bool-cases, inl, inr,
}
use python_event_sourcery.Exec.{Exec, bind_state, bind_keeps}
use python_event_sourcery.StreamId.{StreamId, TenantId}
use python_event_sourcery.Versioning.{Versioning}
use python_event_sourcery.Event.{RawEvent, RecordedRaw}
use python_event_sourcery.InMemory.Storage
use python_event_sourcery.InMemory.Storage.{Storage, position_or_zero, has_stream}
use python_event_sourcery.InMemory.Storage.Valid.{
  IsValid, IsNumbered, position_or_zero-length, create-IsValid, append-IsValid, replace-IsValid,
  remove-IsValid,
}
use python_event_sourcery.InMemory.Strategy.{
  Strategy, create_if_missing, validate, check_expected, ensure_stream, recorded_from,
  store_records, insert_events, save_snapshot, delete_stream, on_storage,
}

pub recorded_from-IsNumbered :
    (p : ℕ) (tenant : TenantId) (events : List RawEvent)
    → IsNumbered p (recorded_from p tenant events)
unfolding recorded_from
recorded_from-IsNumbered p tenant [] = tt
recorded_from-IsNumbered p tenant (e ∷ rest) = (refl, recorded_from-IsNumbered (p + 1) tenant rest)

pub create_if_missing-IsValid :
    (sid : StreamId) (vs : Versioning) (s : Storage)
    → IsValid s
    → IsValid (create_if_missing sid vs s)
unfolding create_if_missing has_stream
create_if_missing-IsValid sid vs s v = elim (Bool-cases (has_stream sid s)) [
  | inl there ↦ rw there v
  | inr missing ↦ rw missing (create-IsValid s v sid vs)
]

validate_state : (sid : StreamId) (vs : Versioning) (s : Storage) → (validate sid vs s).1 ≡ s
unfolding validate
validate_state sid vs s = ground arith

check_expected_state :
    (sid : StreamId) (vs : Versioning) (s : Storage) → (check_expected sid vs s).1 ≡ s
unfolding check_expected
check_expected_state sid vs s = ground arith

-- `ensure_stream` does nothing to the storage but create the stream.
pub ensure_stream_state :
    (sid : StreamId) (vs : Versioning) (s : Storage)
    → (ensure_stream sid vs s).1 ≡ create_if_missing sid vs s
ensure_stream_state sid vs s =
    let created = create_if_missing sid vs s in
    unfold ensure_stream in
    bind_state (validate sid vs) (λ _. check_expected sid vs) created
      (validate_state sid vs created) (λ _. check_expected_state sid vs created)

pub records-create_if_missing :
    (sid : StreamId) (vs : Versioning) (s : Storage)
    → (create_if_missing sid vs s).records ≡ s.records
unfolding create_if_missing Storage.create
records-create_if_missing sid vs s = ground arith

module _ {ℓ} {T : Type ℓ} where
  abbrev IsValidStrategy : Strategy T → Type 0
  IsValidStrategy s = IsValid s.storage

  store_records-IsValid :
      (filterer : RawEvent → Bool) (dispatch : List RecordedRaw → Exec T (Unit {0}))
      (records : List RecordedRaw) (s : Strategy T)
      → IsValid s.storage
      → IsNumbered (length s.storage.records) records
      → IsValid (store_records filterer dispatch records s).1.storage
  store_records-IsValid filterer dispatch records s v h =
      unfold store_records in
      bind_keeps IsValidStrategy (on_storage (Storage.append records)) _ s
        (append-IsValid records s.storage v h)
        (λ _ t e. rw e (append-IsValid records s.storage v h))

  pub insert_events-IsValid :
      (filterer : RawEvent → Bool) (dispatch : List RecordedRaw → Exec T (Unit {0}))
      (sid : StreamId) (vs : Versioning) (events : List RawEvent) (s : Strategy T)
      → IsValid s.storage
      → IsValid (insert_events filterer dispatch sid vs events s).1.storage
  insert_events-IsValid filterer dispatch sid vs events s v =
      let position = position_or_zero s.storage in
      let created = create_if_missing sid vs s.storage in
      let created_valid = create_if_missing-IsValid sid vs s.storage v in
      let same_state = ensure_stream_state sid vs s.storage in
      let numbered : IsNumbered (length s.storage.records)
          (recorded_from position s.tenant_id events) =
        subst (λ p. IsNumbered p (recorded_from position s.tenant_id events))
          (position_or_zero-length s.storage v)
          (recorded_from-IsNumbered position s.tenant_id events) in
      unfold insert_events in
      bind_keeps IsValidStrategy (on_storage (ensure_stream sid vs)) _ s
        (rw same_state created_valid)
        (λ _ t e.
          store_records-IsValid filterer dispatch (recorded_from position s.tenant_id events) t
            (rw (e, same_state) created_valid)
            (rw (e, same_state, records-create_if_missing) numbered))

  pub save_snapshot-IsValid :
      (snapshot : RawEvent) (s : Strategy T)
      → IsValid s.storage
      → IsValid (save_snapshot snapshot s).storage
  unfolding save_snapshot
  save_snapshot-IsValid snapshot s v = replace-IsValid s.storage v _

  pub delete_stream-IsValid :
      (sid : StreamId) (s : Strategy T)
      → IsValid s.storage
      → IsValid (delete_stream sid s).1.storage
  delete_stream-IsValid sid s v = elim (Bool-cases (has_stream sid s.storage)) [
    | inr missing ↦ unfold delete_stream in rw missing v
    | inl there ↦ unfold delete_stream in rw there (remove-IsValid s.storage v sid)
  ]
