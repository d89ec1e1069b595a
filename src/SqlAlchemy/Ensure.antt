-- ===== src/SqlAlchemy/Ensure.antt =====
-- `_ensure_stream` of event_sourcery_sqlalchemy/event_store.py on a stream that is there.
use python_event_sourcery.Prelude.{
  ℕ, String, suc, Option, none, some, true, false, ◌&&◌, List, [], ◌∷◌, map, select, if◌then◌else◌,
  ◌≡◌, ◌∙◌, ap, subst, refl, arith, ◌↔◌, Bool-cases, inl, inr, ◌==◌, nat_key, string_key,
  option_key, nat_refl, nat_beq, length, is_some,
}
use python_event_sourcery.Errors.{ok, err, concurrent_stream_write_without_arguments}
use python_event_sourcery.StreamId.{
  StreamId, TenantId, truthy, or_empty, stream_id_same, stream_id_refl,
}
use python_event_sourcery.Versioning.{
  Versioning, explicit_versioning, validate_if_compatible, initial_version,
}
use python_event_sourcery.Tables.{Tables, StreamRow, RowOrder, by_stream_id, stream_id_of}
use python_event_sourcery.Tables.Rows.{
  IsDistinct, In, In-select, select-select, select-map, map-unmatched,
}
use python_event_sourcery.Django.Statements.{same_columns}
use python_event_sourcery.Django.Ensure.{at_version}
use python_event_sourcery.Django.Holds.{Holds, Holds-same_columns}
use python_event_sourcery.SqlAlchemy.{
  Session, is_object, ensure_streams, ensure_matching, add_object, bump_rows,
}
use python_event_sourcery.SqlAlchemy.Query.{compares, name_matches}
use python_event_sourcery.SqlAlchemy.Reads.{IsOf}
use python_event_sourcery.Django.Query.{latest_snapshot}
use python_event_sourcery.Event.{RawEvent}
use python_event_sourcery.SqlAlchemy.Statements.{
  matching_streams, insert_if_none, check_named, first_same, is_named, to_bump, update_version,
}

-- The tables after the lock of a stream
abbrev pub locked : StreamId → ℕ → Option ℕ → Tables → Tables
locked sid expected u t = record t { streams = update_version sid expected u t.streams }

name_matches-at_version :
    (name : Option String) (u : Option ℕ) (r : StreamRow)
    → name_matches name (at_version u r) ≡ name_matches name r
name_matches-at_version none u r = refl
name_matches-at_version (some n) u r = refl

compares-at_version :
    (sid : StreamId) (u : Option ℕ) (r : StreamRow) → compares sid (at_version u r) ≡ compares sid r
unfolding compares
compares-at_version sid u r =
    ap (λ b. (r.uuid == sid.uuid) && (b && (r.category == or_empty sid.category)))
      (name_matches-at_version (truthy sid.name) u r)

module _ (sid : StreamId) (tenant : TenantId) (row : StreamRow) (t : Tables)
    (found : matching_streams sid tenant t ≡ row ∷ []) (named : stream_id_of row ≡ sid) where
  same_row : stream_id_same (stream_id_of row) sid ≡ true
  same_row =
      subst (λ i. stream_id_same (stream_id_of row) i ≡ true) named
        (stream_id_refl (stream_id_of row))

  insert_if_none-found : (version : Option ℕ) → insert_if_none sid tenant version t ≡ t
  unfolding insert_if_none
  insert_if_none-found version = rw found refl

  pub check_named-found : same_columns sid tenant row ≡ true → check_named sid (row ∷ []) ≡ ok tt
  unfolding check_named
  check_named-found same = elim (Bool-cases (is_some sid.name)) [
    | inr unnamed ↦ rw unnamed refl
    | inl has_name ↦
        let hit : is_named sid row ≡ true = ground arith in rw has_name (rw hit (rw same_row refl))
  ]

  pub first_same-found : first_same sid (row ∷ []) ≡ ok row
  unfolding first_same
  first_same-found = rw same_row refl

  -- The count of the lock
  to_bump-one :
      (expected : ℕ)
      → select (compares sid) t.streams ≡ row ∷ []
      → row.version ≡ some expected
      → select (to_bump sid expected) t.streams ≡ row ∷ []
  to_bump-one expected alone v =
      select-select (compares sid) (λ r. r.version == some expected) t.streams
      ∙ ap (select (λ r. r.version == some expected)) alone
      ∙ (rw v (rw (nat_refl expected) refl))

  to_bump-none :
      (version expected : ℕ)
      → select (compares sid) t.streams ≡ row ∷ []
      → row.version ≡ some version
      → nat_beq version expected ≡ false
      → select (to_bump sid expected) t.streams ≡ []
  to_bump-none version expected alone v h =
      select-select (compares sid) (λ r. r.version == some expected) t.streams
      ∙ ap (select (λ r. r.version == some expected)) alone
      ∙ (rw v (rw h refl))

  pub to_bump-row :
      (expected : ℕ)
      → compares sid row ≡ true
      → row.version ≡ some expected
      → to_bump sid expected row ≡ true
  to_bump-row expected met v =
      let same_version : row.version == some expected ≡ true = rw v (nat_refl expected) in
      rw met same_version

  pub matching_streams-locked :
      (expected : ℕ) (u : Option ℕ)
      → compares sid row ≡ true
      → row.version ≡ some expected
      → matching_streams sid tenant (locked sid expected u t) ≡ at_version u row ∷ []
  unfolding update_version by_stream_id
  matching_streams-locked expected u met v =
      let change : StreamRow → StreamRow =
        λ r. if to_bump sid expected r then at_version u r else r in
      let hits = to_bump-row expected met v in
      select-map (by_stream_id sid tenant) change t.streams
        (λ r. elim (Bool-cases (to_bump sid expected r)) [ inl a ↦ rw a refl | inr b ↦ rw b refl ])
      ∙ ap (map change) found
      ∙ (rw hits refl)

  -- The row that is compared stays the one.
  pub compares-locked :
      (expected : ℕ) (u : Option ℕ)
      → select (compares sid) t.streams ≡ row ∷ []
      → row.version ≡ some expected
      → select (compares sid) (locked sid expected u t).streams ≡ at_version u row ∷ []
  unfolding update_version
  compares-locked expected u alone v =
      let change : StreamRow → StreamRow =
        λ r. if to_bump sid expected r then at_version u r else r in
      let met = (In-select (compares sid) t.streams row [] alone).1 in
      let hits = to_bump-row expected met v in
      select-map (compares sid) change t.streams (λ r. elim (Bool-cases (to_bump sid expected r)) [
        | inl a ↦ rw a (compares-at_version sid u r)
        | inr b ↦ rw b refl
      ])
      ∙ ap (map change) alone
      ∙ (rw hits refl)

abbrev pub after_lock {ℓ} :
    {T : Type ℓ} → StreamId → ℕ → Option ℕ → StreamRow → Session T → Session T
after_lock sid expected u row s = record s {
  tables = locked sid expected u s.tables;
  strong_set = add_object row s.strong_set;
}

module _ {ℓ} {T : Type ℓ} (order : RowOrder) where
  -- What the session holds of a stream: its row is the only one of its identifier, whichever the
  -- tenant, and the objects kept for the identifier and the tenant are those of this row.
  pub record HoldsAlone (sid : StreamId) (v : ℕ) (log : List RawEvent) (s : Session T)
      : Type 0 where
    pub held : Holds order sid s.tenant_id v log s.tables
    pub distinct : IsDistinct s.tables.streams
    pub alone : select (compares sid) s.tables.streams ≡ held.row ∷ []
    pub own : IsOf held.row.id (latest_snapshot order held.row.id none none s.tables)
    pub objects :
        (o : StreamRow)
        → In o s.strong_set
        → (is_object sid s.tenant_id o ≡ true) ↔ (o.id ≡ held.row.id)

  pub ensure_streams-matching :
      (sid : StreamId) (v : ℕ) (vs : Versioning) (log : List RawEvent) (s : Session T)
      (h : Holds order sid s.tenant_id v log s.tables)
      → ensure_streams sid vs s ≡ ensure_matching sid vs (h.row ∷ []) s
  unfolding ensure_streams
  ensure_streams-matching sid v vs log s h =
      let tables =
        insert_if_none-found sid s.tenant_id h.row s.tables h.found h.named (initial_version vs) in
      ap
        (λ t. ensure_matching sid vs (matching_streams sid s.tenant_id t) (record s { tables = t }))
        tables
      ∙ ap (λ l. ensure_matching sid vs l s) h.found

  pub ensure_streams-found :
      (sid : StreamId) (expected : ℕ) (u : Option ℕ) (log : List RawEvent) (s : Session T)
      (h : HoldsAlone sid (suc expected) log s)
      → ensure_streams sid (explicit_versioning (suc expected) u) s
        ≡ (ok tt, after_lock sid (suc expected) u h.held.row s)
  unfolding bump_rows ensure_matching
  ensure_streams-found sid expected u log s h =
      let row = h.held.row in
      let t = s.tables in
      let vs = explicit_versioning (suc expected) u in
      ensure_streams-matching sid (suc expected) vs log s h.held
      ∙ (rw
          (
            check_named-found sid s.tenant_id row t h.held.found h.held.named
                (Holds-same_columns h.held),
            first_same-found sid s.tenant_id row t h.held.found h.held.named,
            ap (validate_if_compatible vs) h.held.version,
            ap length (
                to_bump-one sid s.tenant_id row t h.held.found h.held.named (suc expected) h.alone
                  h.held.version),
          )
          refl)

  pub ensure_streams-stale :
      (sid : StreamId) (v expected : ℕ) (u : Option ℕ) (log : List RawEvent) (s : Session T)
      (h : HoldsAlone sid v log s)
      → nat_beq v (suc expected) ≡ false
      → ensure_streams sid (explicit_versioning (suc expected) u) s ≡ (
        err concurrent_stream_write_without_arguments,
        record s { strong_set = add_object h.held.row s.strong_set },
      )
  unfolding bump_rows update_version ensure_matching
  ensure_streams-stale sid v expected u log s h stale =
      let row = h.held.row in
      let t = s.tables in
      let vs = explicit_versioning (suc expected) u in
      let none_met =
        to_bump-none sid s.tenant_id row t h.held.found h.held.named v (suc expected) h.alone
          h.held.version stale in
      ensure_streams-matching sid v vs log s h.held
      ∙ (rw
          (
            check_named-found sid s.tenant_id row t h.held.found h.held.named
                (Holds-same_columns h.held),
            first_same-found sid s.tenant_id row t h.held.found h.held.named,
            ap (validate_if_compatible vs) h.held.version,
            ap length none_met,
          )
          (ap
            (λ rows. (
              err concurrent_stream_write_without_arguments,
              record s {
                tables = record t { streams = rows };
                strong_set = add_object row s.strong_set;
              },
            ))
            (map-unmatched (to_bump sid (suc expected)) (at_version u) t.streams none_met)))
