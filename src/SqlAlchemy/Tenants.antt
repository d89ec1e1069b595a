-- ===== src/SqlAlchemy/Tenants.antt =====
-- The statements of event_sourcery_sqlalchemy/event_store.py that do not look at the tenant.
use python_event_sourcery.Prelude.{
  ℕ, suc, String, Option, none, some, Bool, true, false, List, [], ◌∷◌, select, length, ◌≡◌, ◌∙◌,
  ap, sym, refl, arith, Bool-cases, inl, inr, nat_refl, nat_beq, ◌==◌, nat_key, option_key,
  string_key,
}
use python_event_sourcery.Errors.{err, concurrent_stream_write_without_arguments}
use python_event_sourcery.Exec.{Exec}
use python_event_sourcery.StreamId.{StreamId, TenantId, truthy}
use python_event_sourcery.Versioning.{explicit_versioning, validate_if_compatible}
use python_event_sourcery.Event.{RawEvent, RecordedRaw}
use python_event_sourcery.Tables.{StreamRow, RowOrder, by_stream_id}
use python_event_sourcery.Tables.Rows.{In, In-select, In-to_select}
use python_event_sourcery.TableOutbox.{Texts, OutboxSetting}
use python_event_sourcery.Django.Holds.{Holds, Holds-same_columns}
use python_event_sourcery.Django.Statements.{same_columns}
use python_event_sourcery.SqlAlchemy.{Session, ensure_matching, bump_rows, insert_events}
use python_event_sourcery.SqlAlchemy.Query.{compares, name_matches}
use python_event_sourcery.SqlAlchemy.Statements.{to_bump}
use python_event_sourcery.SqlAlchemy.Ensure.{
  ensure_streams-matching, check_named-found, first_same-found,
}

pub compares-same_columns :
    (sid : StreamId) (tenant : TenantId) (row : StreamRow)
    → same_columns sid tenant row ≡ true
    → compares sid row ≡ true
unfolding compares
compares-same_columns sid tenant row h =
    let named : name_matches (truthy sid.name) row ≡ true = by_name sid.name refl in
    ground (arith, named)
  where
    by_name : (o : Option String) → sid.name ≡ o → name_matches (truthy o) row ≡ true
    by_name none e = refl
    by_name (some n) e = elim (Bool-cases (n == "")) [
      | inl empty ↦ rw empty refl
      | inr filled ↦ rw filled (rw (sym e) (ground arith))
    ]

-- Two rows of different numbers that pass a test are more than one row.
not_one :
    (a b : StreamRow) (rows : List StreamRow)
    → In a rows
    → In b rows
    → nat_beq b.id a.id ≡ false
    → length rows == 1 ≡ false
not_one a b [] h k apart = absurd h
not_one a b (r ∷ []) (inl e) (inl e') apart =
    absurd (ground (arith, ap (λ z. z.id) (e' ∙ sym e), nat_refl a.id))
not_one a b (r ∷ []) (inl e) (inr k) apart = absurd k
not_one a b (r ∷ []) (inr h) k apart = absurd h
not_one a b (r ∷ r' ∷ rest) h k apart = ground arith

module _ {ℓ} {T : Type ℓ} (order : RowOrder) (iterate : List StreamRow → List StreamRow)
    (texts : Texts) (outbox : Option OutboxSetting)
    (dispatch : List RecordedRaw → Exec T (Unit {0})) where
  -- A tenant's stream holds `log` up to the version `expected`, not 0, and another row, with
  -- another number, as that of another tenant, has the same identifier and the same version. Then
  -- an insert with `expected` as the expected version is refused as a concurrent write, whatever
  -- its events, though nobody wrote: the update counts more rows than one.
  pub insert_events-two_tenants :
      (sid : StreamId) (expected u : ℕ) (log events : List RawEvent) (other : StreamRow)
      (s : Session T)
      → (h : Holds order sid s.tenant_id (suc expected) log s.tables) → In other s.tables.streams
      → nat_beq other.id h.row.id ≡ false
      → compares sid other ≡ true
      → other.version ≡ some (suc expected)
      → (insert_events iterate texts outbox dispatch sid
          (explicit_versioning (suc expected) (some u))
          events
          s).0
        ≡ err concurrent_stream_write_without_arguments
  unfolding bump_rows ensure_matching insert_events
  insert_events-two_tenants sid expected u log events other s h there apart same at =
      let vs = explicit_versioning (suc expected) (some u) in
      let t = s.tables in
      let mine = (In-select (by_stream_id sid s.tenant_id) t.streams h.row [] h.found).0 in
      let own = compares-same_columns sid s.tenant_id h.row (Holds-same_columns h) in
      let bumps : StreamRow → Bool = to_bump sid (suc expected) in
      let first : bumps h.row ≡ true = rw (own, h.version) (nat_refl (suc expected)) in
      let second : bumps other ≡ true = rw (same, at) (nat_refl (suc expected)) in
      let counted =
        not_one h.row other (select bumps t.streams) (In-to_select bumps t.streams h.row mine first)
          (In-to_select bumps t.streams other there second) apart in
      rw
        (
          ensure_streams-matching order sid (suc expected) vs log s h,
          check_named-found sid s.tenant_id h.row t h.found h.named (Holds-same_columns h),
          first_same-found sid s.tenant_id h.row t h.found h.named,
          ap (validate_if_compatible vs) h.version,
          counted,
        )
        refl
