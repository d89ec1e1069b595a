-- ===== src/Django/Ensure.antt =====
-- `_ensure_stream` of event_sourcery_django/event_store.py, on a stream that is there and on one
-- that is not.
use python_event_sourcery.Prelude.{
  ℕ, suc, Option, none, some, Bool, true, false, not, [], ◌∷◌, ◌++◌, select, if◌then◌else◌, ◌≡◌,
  ◌∙◌, ap, sym, refl, arith, Option-cases, inl, inr, all, ◌==◌, nat_key, string_key, option_key,
  nat_refl, nat_beq, length,
}
use python_event_sourcery.Errors.{ok, err, concurrent_stream_write_without_arguments}
use python_event_sourcery.StreamId.{StreamId, TenantId, truthy}
use python_event_sourcery.Versioning.{explicit_versioning, validate_if_compatible}
use python_event_sourcery.Tables.{Tables, StreamRow, by_stream_id, get_one, conflicts}
use python_event_sourcery.Tables.Rows.{
  IsDistinct, In-select, select-IsDistinct, select-select, select-implied, map-unmatched,
}
use python_event_sourcery.Django.Query.{streams_of}
use python_event_sourcery.Django.Statements.{
  check_uuid, check_same_name, same_columns, get_or_create, or_created, create_stream_row, new_row,
  has_version, bump_version, lock_stream, ensure_row,
}

abbrev pub at_version : Option ℕ → StreamRow → StreamRow
at_version version row = record row { version = version }

abbrev pub bumped : ℕ → ℕ → Option ℕ → Tables → Tables
bumped id expected version t = record t { streams = bump_version id expected version t.streams }

by_stream_id-same_columns :
    (sid : StreamId) (tenant : TenantId) (r : StreamRow)
    → same_columns sid tenant r ≡ true
    → by_stream_id sid tenant r ≡ true
unfolding by_stream_id
by_stream_id-same_columns sid tenant r h = ground arith

check_uuid-if :
    (sid : StreamId) (row : StreamRow) (b : Bool)
    → row.uuid == sid.uuid ≡ true
    → check_uuid sid (if b then some row else none) ≡ ok tt
unfolding check_uuid
check_uuid-if sid row true h = rw h refl
check_uuid-if sid row false h = refl

check_same_name-one :
    (sid : StreamId) (row : StreamRow)
    → row.uuid == sid.uuid ≡ true
    → check_same_name sid (row ∷ []) ≡ ok tt
unfolding check_same_name
check_same_name-one sid row h = elim (Option-cases (truthy sid.name)) [
  | inl unnamed ↦ rw (check_same_name, unnamed) refl
  | inr named ↦ rw (check_same_name, named.1) (check_uuid-if sid row (row.name == some named.0) h)
]

check_same_name-nil : (sid : StreamId) → check_same_name sid [] ≡ ok tt
unfolding check_uuid check_same_name
check_same_name-nil sid = elim (Option-cases (truthy sid.name)) [
  | inl unnamed ↦ rw (check_same_name, unnamed) refl
  | inr named ↦ rw (check_same_name, named.1) refl
]

module _ (sid : StreamId) (tenant : TenantId) (row : StreamRow) (t : Tables)
    (found : streams_of sid tenant t ≡ row ∷ []) (same : same_columns sid tenant row ≡ true) where
  check_same_name-found : check_same_name sid (streams_of sid tenant t) ≡ ok tt
  unfolding check_same_name
  check_same_name-found =
      ap (check_same_name sid) found ∙ check_same_name-one sid row (ground arith)

  get_or_create-found : (version : Option ℕ) → get_or_create sid tenant version t ≡ (ok row, t)
  unfolding get_or_create
  get_or_create-found version =
      let columns = same_columns sid tenant in
      let implied =
        select-implied (by_stream_id sid tenant) columns t.streams
          (by_stream_id-same_columns sid tenant) in
      let one : select columns t.streams ≡ row ∷ [] =
        sym implied ∙ ap (select columns) found ∙ (rw same refl) in
      rw (get_or_create, ap get_one one, get_one) refl

  has_version-found :
      (expected : ℕ)
      → IsDistinct t.streams
      → row.version ≡ some expected
      → select (has_version row.id expected) t.streams ≡ row ∷ []
  has_version-found expected distinct v =
      let alone =
        select-IsDistinct row t.streams distinct
          (In-select (by_stream_id sid tenant) t.streams row [] found).0 in
      select-select (λ r. r.id == row.id) (λ r. r.version == some expected) t.streams
      ∙ ap (select (λ r. r.version == some expected)) alone
      ∙ (rw v (rw (nat_refl expected) refl))

  has_version-other :
      (version expected : ℕ)
      → IsDistinct t.streams
      → row.version ≡ some version
      → nat_beq version expected ≡ false
      → select (has_version row.id expected) t.streams ≡ []
  has_version-other version expected distinct v h =
      let alone =
        select-IsDistinct row t.streams distinct
          (In-select (by_stream_id sid tenant) t.streams row [] found).0 in
      select-select (λ r. r.id == row.id) (λ r. r.version == some expected) t.streams
      ∙ ap (select (λ r. r.version == some expected)) alone
      ∙ (rw v (rw h refl))

  -- On the row of a versioned stream, the lock compares the version with the expected one, and
  -- moves it when they are equal.
  pub ensure_row-found :
      (expected : ℕ) (last : Option ℕ)
      → IsDistinct t.streams
      → row.version ≡ some (suc expected)
      → ensure_row sid tenant (explicit_versioning (suc expected) last) t
        ≡ (ok tt, bumped row.id (suc expected) last t)
  unfolding ensure_row lock_stream
  ensure_row-found expected last distinct v =
      rw
        (
          check_same_name-found,
          get_or_create-found last,
          ap (validate_if_compatible (explicit_versioning (suc expected) last)) v,
          ap length (has_version-found (suc expected) distinct v),
        )
        refl

  pub ensure_row-stale :
      (version expected : ℕ) (last : Option ℕ)
      → IsDistinct t.streams
      → row.version ≡ some version
      → nat_beq version (suc expected) ≡ false
      → ensure_row sid tenant (explicit_versioning (suc expected) last) t
        ≡ (err concurrent_stream_write_without_arguments, t)
  unfolding ensure_row lock_stream bump_version
  ensure_row-stale version expected last distinct v h =
      let none_met = has_version-other version (suc expected) distinct v h in
      rw
        (
          check_same_name-found,
          get_or_create-found last,
          ap (validate_if_compatible (explicit_versioning (suc expected) last)) v,
          ap length none_met,
        )
        (ap (λ rows. (err concurrent_stream_write_without_arguments, record t { streams = rows }))
          (map-unmatched (has_version row.id (suc expected)) (at_version last) t.streams none_met))

abbrev pub with_stream : StreamRow → Tables → Tables
with_stream row t = record t { streams = t.streams ++ row ∷ []; next_stream = suc t.next_stream }

get_or_create-new :
    (sid : StreamId) (tenant : TenantId) (version : Option ℕ) (t : Tables)
    → select (same_columns sid tenant) t.streams ≡ []
    → all (λ r. not (conflicts r (new_row sid tenant version t.next_stream))) t.streams ≡ true
    → get_or_create sid tenant version t ≡ (
      ok (new_row sid tenant version t.next_stream),
      with_stream (new_row sid tenant version t.next_stream) t,
    )
unfolding create_stream_row or_created get_or_create
get_or_create-new sid tenant version t h k = rw (ap get_one h, get_one, k) refl

-- A stream that no row stands for, and that conflicts with none, is created at the version of the
-- insert.
pub ensure_row-new :
    (sid : StreamId) (tenant : TenantId) (last : ℕ) (t : Tables)
    → streams_of sid tenant t ≡ []
    → all (λ r. not (conflicts r (new_row sid tenant (some last) t.next_stream))) t.streams ≡ true
    → ensure_row sid tenant (explicit_versioning 0 (some last)) t
      ≡ (ok tt, with_stream (new_row sid tenant (some last) t.next_stream) t)
unfolding ensure_row
ensure_row-new sid tenant last t none_found fresh =
    let columns = same_columns sid tenant in
    let implied =
      select-implied (by_stream_id sid tenant) columns t.streams
        (by_stream_id-same_columns sid tenant) in
    let none_same : select columns t.streams ≡ [] = sym implied ∙ ap (select columns) none_found in
    let created = get_or_create-new sid tenant (some last) t none_same fresh in
    rw (ap (check_same_name sid) none_found ∙ check_same_name-nil sid, created) refl
