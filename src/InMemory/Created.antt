-- ===== src/InMemory/Created.antt =====
-- What `insert_events` sees of a stream once it has made sure that the stream is there.
use python_event_sourcery.Prelude.{
  ℕ, Option, none, some, true, false, List, [], ◌++◌, ◌≡◌, refl, arith, if◌then◌else◌, Option-cases,
  Bool-cases, inl, inr,
}
use python_event_sourcery.Prelude.Dict.{lookup, lookup-insert, lookup-insert_self, lookup_congr}
use python_event_sourcery.StreamId.{StreamId, stream_id_same, stream_id_key}
use python_event_sourcery.Versioning.{Versioning}
use python_event_sourcery.Event.{RecordedRaw}
use python_event_sourcery.InMemory.Storage
use python_event_sourcery.InMemory.Storage.{Storage, has_stream, first_version}
use python_event_sourcery.InMemory.Storage.Append.{Appended, version_after}
use python_event_sourcery.InMemory.Storage.Valid.{IsValid}
use python_event_sourcery.InMemory.Strategy.{create_if_missing}

abbrev pub or_nil : Option (List RecordedRaw) → List RecordedRaw
or_nil none = []
or_nil (some l) = l

-- The records of a stream, none if it is not there.
abbrev pub contents : StreamId → Storage → List RecordedRaw
contents sid s = or_nil (lookup sid s.streams)

-- The version of a stream, if the stream is there: `some none` is a stream without versions.
abbrev pub stream_version : StreamId → Storage → Option (Option ℕ)
stream_version sid s = if has_stream sid s then lookup sid s.versions else none

-- The version from which an insert goes on.
abbrev pub version_before : Versioning → Option (Option ℕ) → Option ℕ
version_before vs none = first_version vs
version_before vs (some v) = v

pub version_there :
    (sid : StreamId) (s : Storage)
    → IsValid s
    → has_stream sid s ≡ true
    → (w : Option ℕ) × (lookup sid s.versions ≡ some w)
unfolding has_stream
version_there sid s v h = elim (Option-cases (lookup sid s.versions)) [
  | inl e ↦ absurd (ground (arith, v.has_version sid h))
  | inr (w, e) ↦ (w, e)
]

module _ (sid : StreamId) (vs : Versioning) (s : Storage) where
  pub contents-create_if_missing :
      (j : StreamId) → contents j (create_if_missing sid vs s) ≡ contents j s
  unfolding create_if_missing has_stream Storage.create
  contents-create_if_missing j =
      ground (arith, lookup-insert sid j [] s.streams, lookup_congr sid j s.streams)

  pub lookup-create_if_missing :
      lookup sid (create_if_missing sid vs s).streams ≡ some (contents sid s)
  unfolding create_if_missing has_stream Storage.create
  lookup-create_if_missing = ground (arith, lookup-insert_self sid [] s.streams)

  pub version-create_if_missing :
      IsValid s
      → lookup sid (create_if_missing sid vs s).versions
        ≡ some (version_before vs (stream_version sid s))
  unfolding create_if_missing has_stream Storage.create
  version-create_if_missing v =
      ground (arith, v.has_version sid, lookup-insert_self sid (first_version vs) s.versions)

  pub stream_version-create_if_missing :
      (j : StreamId)
      → stream_id_same sid j ≡ false
      → stream_version j (create_if_missing sid vs s) ≡ stream_version j s
  unfolding create_if_missing has_stream Storage.create
  stream_version-create_if_missing j h =
      ground
        (arith, lookup-insert sid j [] s.streams, lookup-insert sid j (first_version vs) s.versions)

  -- A stream that is there is not created again.
  pub create_if_missing-there :
      (w : Option ℕ) → stream_version sid s ≡ some w → create_if_missing sid vs s ≡ s
  unfolding create_if_missing
  create_if_missing-there w h = elim (Bool-cases (has_stream sid s)) [
    | inl there ↦ rw there refl
    | inr missing ↦ absurd (ground arith)
  ]

-- What `append` leaves, in terms of the contents and versions.
module _ {sid : StreamId} {l : List RecordedRaw} {v : Option ℕ} {rs : List RecordedRaw}
    {s t : Storage} (a : Appended sid l v rs s t) where
  pub contents-Appended :
      (j : StreamId) → contents j t ≡ (if stream_id_same sid j then l ++ rs else contents j s)
  contents-Appended j = ground (arith, a.at_stream j)

  pub stream_version-Appended :
      (j : StreamId)
      → stream_version j t
        ≡ (if stream_id_same sid j then some (version_after v rs) else stream_version j s)
  unfolding has_stream
  stream_version-Appended j = ground (arith, a.at_stream j, a.at_version j)
