-- ===== src/InMemory/Insert.antt =====
-- What `insert_events` does on each of its branches.
use python_event_sourcery.Prelude.{
  ℕ, zero, suc, Option, none, some, true, false, [], ◌≡◌, ◌∙◌, ap, refl, arith, if◌then◌else◌,
  Bool-cases, inl, inr, ◌==◌, nat_key, option_key,
}
use python_event_sourcery.Prelude.Dict.{lookup, lookup-insert_self}
use python_event_sourcery.Errors.{
  Result, ok, err, concurrent_stream_write, expected_version_used_on_versionless_stream,
  no_expected_version_given_on_versioned_stream,
}
use python_event_sourcery.StreamId.{StreamId, stream_id_key}
use python_event_sourcery.Versioning.{Versioning, no_versioning, explicit_versioning}
use python_event_sourcery.InMemory.Storage
use python_event_sourcery.InMemory.Storage.{Storage, has_stream, first_version, position_or_zero}
use python_event_sourcery.InMemory.Storage.Valid.{IsValid}
use python_event_sourcery.InMemory.Strategy.{ensure_stream}
use python_event_sourcery.InMemory.Created.{stream_version, version_there}

-- Who may write: by the versioning and what the storage knows of the stream.
abbrev pub verdict : Versioning → Option (Option ℕ) → Result (Unit {0})
verdict no_versioning none = ok tt
verdict no_versioning (some none) = ok tt
verdict no_versioning (some (some v)) = err no_expected_version_given_on_versioned_stream
verdict (explicit_versioning zero i) none = ok tt
verdict (explicit_versioning (suc e) i) none = err (concurrent_stream_write (some 0) (suc e))
verdict (explicit_versioning e i) (some none) = err expected_version_used_on_versionless_stream
verdict (explicit_versioning zero i) (some (some v)) = ok tt
verdict (explicit_versioning (suc e) i) (some (some v)) =
    if v == suc e then ok tt else err (concurrent_stream_write (some v) (suc e))

-- `ensure_stream` on a stream that is there, with its version.
ensure_existing :
    (sid : StreamId) (vs : Versioning) (v : Option ℕ) (s : Storage)
    → has_stream sid s ≡ true
    → lookup sid s.versions ≡ some v
    → (ensure_stream sid vs s).0 ≡ verdict vs (some v)
unfolding ensure_stream
ensure_existing sid no_versioning none s h e = ground arith
ensure_existing sid no_versioning (some v) s h e = ground arith
ensure_existing sid (explicit_versioning n i) none s h e = ground arith
ensure_existing sid (explicit_versioning zero i) (some v) s h e = ground arith
ensure_existing sid (explicit_versioning (suc n) i) (some v) s h e = ground arith

abbrev created : StreamId → Versioning → Storage → Storage
created = Storage.create

created_stream :
    (sid : StreamId) (vs : Versioning) (s : Storage)
    → (has_stream sid (created sid vs s) ≡ true)
      × (lookup sid (created sid vs s).versions ≡ some (first_version vs))
unfolding has_stream Storage.create
created_stream sid vs s = ground (
  arith,
  lookup-insert_self sid [] s.streams,
  lookup-insert_self sid (first_version vs) s.versions,
)

created_verdict : (vs : Versioning) → verdict vs (some (first_version vs)) ≡ verdict vs none
created_verdict no_versioning = refl
created_verdict (explicit_versioning zero i) = refl
created_verdict (explicit_versioning (suc e) i) = ground arith

ensure_created :
    (sid : StreamId) (vs : Versioning) (s : Storage)
    → has_stream sid s ≡ false
    → ensure_stream sid vs s ≡ ensure_stream sid vs (created sid vs s)
ensure_created sid vs s h =
    let there = (created_stream sid vs s).0 in unfold ensure_stream has_stream in rw (h, there)

ensure_missing :
    (sid : StreamId) (vs : Versioning) (s : Storage)
    → has_stream sid s ≡ false
    → (ensure_stream sid vs s).0 ≡ verdict vs none
ensure_missing sid vs s h =
    let new = created_stream sid vs s in
    ap (λ r. r.0) (ensure_created sid vs s h)
    ∙ ensure_existing sid vs (first_version vs) (created sid vs s) new.0 new.1
    ∙ created_verdict vs

-- Whether `ensure_stream` returns, and what it raises, is the verdict.
pub ensure_stream-verdict :
    (sid : StreamId) (vs : Versioning) (s : Storage)
    → IsValid s
    → (ensure_stream sid vs s).0 ≡ verdict vs (stream_version sid s)
ensure_stream-verdict sid vs s v = elim (Bool-cases (has_stream sid s)) [
  | inr missing ↦ rw missing (ensure_missing sid vs s missing)
  | inl there ↦
      let (w, e) = version_there sid s v there in rw (there, e) (ensure_existing sid vs w s there e)
]
