-- ===== src/Django/Deletes.antt =====
-- What `delete_stream` of event_sourcery_django/event_store.py deletes, and what it leaves alone.
use python_event_sourcery.Prelude.{
  ℕ, Option, Bool, true, false, not, List, [], ◌∷◌, select, find, ◌≡◌, ◌∙◌, ap, refl, arith,
  Bool-cases, Option-cases, inl, inr, ◌==◌, nat_key, string_key, string_key, nat_beq, nat_beq_iff,
  string_cong,
}
use python_event_sourcery.Errors.{ok}
use python_event_sourcery.StreamId.{StreamId, TenantId}
use python_event_sourcery.Tables.{StreamRow, RowOrder, by_stream_id, get_one}
use python_event_sourcery.Tables.Rows.{
  IsDistinct, In, In-of_select, In-same_id, select-implied, find-some,
}
use python_event_sourcery.Django
use python_event_sourcery.Django.{DjangoState}
use python_event_sourcery.Django.Query.{read_found, fetch_rows}
use python_event_sourcery.Django.Statements.{is_in, delete_rows}
use python_event_sourcery.Django.Agree.{fetch_rows-Agree}

select-none :
    (p : StreamRow → Bool) (rows : List StreamRow) → select p (select (λ r. not (p r)) rows) ≡ []
select-none p [] = refl
select-none p (r ∷ rest) = elim (Bool-cases (p r)) [
  | inl met ↦ rw met (select-none p rest)
  | inr unmet ↦ rw unmet (rw unmet (select-none p rest))
]

-- A row of one tenant is found by no lookup of another.
other_tenant :
    (sid j : StreamId) (tenant other : TenantId) (r : StreamRow)
    → other == tenant ≡ false
    → by_stream_id j other r ≡ true
    → by_stream_id sid tenant r ≡ false
unfolding by_stream_id
other_tenant sid j tenant other r h k =
    let own : r.tenant_id == other ≡ true = ground arith in
    let apart : r.tenant_id == tenant ≡ false = string_cong r.tenant_id other tenant own ∙ h in
    ground arith

-- Rows of a stream that is not among the deleted stay.
select-kept {ℓ} :
    {A : Type ℓ} (stream : A → ℕ) (deleted : List StreamRow) (id : ℕ) (rows : List A)
    → is_in deleted id ≡ false
    → select (λ e. stream e == id) (select (λ e. not (is_in deleted (stream e))) rows)
      ≡ select (λ e. stream e == id) rows
select-kept stream deleted id [] h = refl
select-kept stream deleted id (e ∷ rest) h = elim (Bool-cases (nat_beq (stream e) id)) [
  | inl own ↦
      let stays : is_in deleted (stream e) ≡ false =
        ap (is_in deleted) ((nat_beq_iff (stream e) id).0 own) ∙ h in
      rw stays (rw own (ap (◌∷◌ e) (select-kept stream deleted id rest h)))
  | inr other ↦ elim (Bool-cases (is_in deleted (stream e))) [
    | inl gone ↦ rw (gone, other) (select-kept stream deleted id rest h)
    | inr stays ↦ rw stays (rw other (select-kept stream deleted id rest h))
  ]
]

not_deleted :
    (p : StreamRow → Bool) (rows : List StreamRow) (r : StreamRow)
    → IsDistinct rows
    → In r rows
    → p r ≡ false
    → is_in (select p rows) r.id ≡ false
not_deleted p rows r distinct there missed =
    elim (Option-cases (find (λ d. d.id == r.id) (select p rows))) [
      | inl none_there ↦ rw none_there refl
      | inr (d, found) ↦
          let (within, same) = find-some (λ d. d.id == r.id) (select p rows) d found in
          let (inside, met) = In-of_select p rows d within in
          let one = In-same_id d r rows distinct inside there same in
          absurd (ground (arith, ap p one))
    ]

module _ {ℓ} {T : Type ℓ} (order : RowOrder) where
  -- If no two rows of streams have one number: after a deletion the stream reads as empty, in every
  -- range, for the tenant that deleted it, and every stream reads for every other tenant what it
  -- read before.
  pub fetch_rows-delete_stream :
      (sid : StreamId) (s : DjangoState T) (start stop : Option ℕ) (other : TenantId) (j : StreamId)
      → IsDistinct s.tables.streams
      → other == s.tenant_id ≡ false
      → (fetch_rows order s.tenant_id sid start stop (Django.delete_stream sid s).1.tables ≡ ok [])
        × (fetch_rows order other j start stop (Django.delete_stream sid s).1.tables
            ≡ fetch_rows order other j start stop s.tables)
  unfolding get_one read_found fetch_rows delete_rows Django.delete_stream
  fetch_rows-delete_stream sid s start stop other j distinct apart =
      let t = s.tables in
      let gone = by_stream_id sid s.tenant_id in
      let kept = by_stream_id j other in
      (
        rw (select-none (by_stream_id sid s.tenant_id) s.tables.streams) refl,
        fetch_rows-Agree order other j start stop t (delete_rows sid s.tenant_id t)
            (select-implied (λ r. not (gone r)) kept t.streams
              (λ r h. ap not (other_tenant sid j s.tenant_id other r apart h)))
            (λ r within.
              let (there, met) = In-of_select kept t.streams r within in
              let free =
                not_deleted gone t.streams r distinct there
                  (other_tenant sid j s.tenant_id other r apart met) in
              (
                select-kept (λ e. e.stream) (select gone t.streams) r.id t.events free,
                select-kept (λ x. x.stream) (select gone t.streams) r.id t.snapshots free,
              )),
      )
