-- ===== src/InMemory/Outbox/Run.antt =====
-- What a run of the outbox does: each of the first entries is tried once, in order, and is kept,
-- counted or dropped by its own answer; the others are not touched.
use mathlib.Core.List.{append_assoc}
use python_event_sourcery.Prelude.{
  ℕ, zero, suc, ◌+◌, ◌<◌, ◌≤◌, some, true, false, [], ◌∷◌, ◌++◌, length, take, drop,
  take-append-drop, leb, if◌then◌else◌, Key, nat_key, string_key, option_refl, nat_beq, nat_beq_iff,
  erase_idx-append, set-append, ◌≡◌, ◌∙◌, ap, sym, refl, arith, Bool-cases, inl, inr,
}
use python_event_sourcery.Errors.{Result, ok, err}
use python_event_sourcery.Exec.{Exec}
use python_event_sourcery.StreamId.{stream_id_refl}
use python_event_sourcery.Event.{RecordedRaw, recorded_same}
use python_event_sourcery.Event.Json.{Fields}
use python_event_sourcery.InMemory.Strategy.{Entries}
use python_event_sourcery.InMemory.Outbox.{
  State, entry_same, index_of_entry, settle_at, publish_context, run_loop, run,
}

-- The positions grow, from above `p` on.
abbrev pub IsIncreasing : ℕ → Entries → Type 0
IsIncreasing p [] = Unit
IsIncreasing p (e ∷ rest) = (p < e.0.position) × IsIncreasing e.0.position rest

-- All positions lie below `p`.
abbrev pub IsBelow : ℕ → Entries → Type 0
IsBelow p [] = Unit
IsBelow p (e ∷ rest) = (e.0.position < p) × IsBelow p rest

-- What is left of an entry after an answer: nothing after a success or the last attempt, and the
-- entry with one more failure after any other.
abbrev pub kept : ℕ → RecordedRaw × ℕ → Result (Unit {0}) → Entries
kept max_attempts e (ok u) = []
kept max_attempts e (err x) = if leb max_attempts (e.1 + 1) then [] else (e.0, e.1 + 1) ∷ []

-- The first entries tried in order: what is left of them, and the world after.
abbrev pub settled {ℓ} :
    {W : Type ℓ} → ℕ → (RecordedRaw → Exec W (Unit {0})) → Entries → W → Entries × W
settled max_attempts attempt [] w = ([], w)
settled max_attempts attempt (e ∷ rest) w =
    let answer = attempt e.0 w in
    let later = settled max_attempts attempt rest answer.1 in
    (kept max_attempts e answer.0 ++ later.0, later.1)

module _ ⦃dict_key : Key Fields⦄ where
  recorded_refl : (r : RecordedRaw) → recorded_same r r ≡ true
  recorded_refl r = ground (
    arith,
    nat_key.same_refl r.entry.uuid,
    stream_id_refl r.entry.stream_id,
    nat_key.same_refl r.entry.created_at,
    string_key.same_refl r.entry.name,
    dict_key.same_refl r.entry.data_fields,
    dict_key.same_refl r.entry.context,
    option_refl r.entry.version,
    nat_key.same_refl r.position,
    string_key.same_refl r.tenant_id,
  )

  entry_refl : (e : RecordedRaw × ℕ) → entry_same e e ≡ true
  entry_refl e = ground (arith, recorded_refl e.0, nat_key.same_refl e.1)

  entry_apart : (a b : RecordedRaw × ℕ) → a.0.position < b.0.position → entry_same a b ≡ false
  entry_apart a b h = elim (Bool-cases (entry_same a b)) [
    | inr apart ↦ apart
    | inl same ↦
        let equal : nat_beq a.0.position b.0.position ≡ true = ground arith in
        absurd (ground (arith, nat_beq_iff a.0.position b.0.position))
  ]

  index_of_entry-append :
      (before : Entries) (e : RecordedRaw × ℕ) (rest : Entries)
      → IsBelow e.0.position before
      → index_of_entry e (before ++ e ∷ rest) ≡ some (length before)
  unfolding index_of_entry
  index_of_entry-append [] e rest h = rw (entry_refl e, index_of_entry)
  index_of_entry-append (x ∷ before) e rest h =
      let later = index_of_entry-append before e rest h.1 in
      rw (entry_apart x e h.0, index_of_entry, later)

settle_at-append :
    (max_attempts : ℕ) (before : Entries) (e : RecordedRaw × ℕ) (rest : Entries)
    (answer : Result (Unit {0}))
    → settle_at max_attempts e (length before) answer (before ++ e ∷ rest)
      ≡ before ++ (kept max_attempts e answer ++ rest)
unfolding settle_at
settle_at-append max_attempts before e rest (ok u) = erase_idx-append before e rest
settle_at-append max_attempts before e rest (err x) =
    elim (Bool-cases (leb max_attempts (e.1 + 1))) [
      | inl last ↦ rw last (erase_idx-append before e rest)
      | inr again ↦ rw again (set-append before e (e.0, e.1 + 1) rest)
    ]

pub IsBelow-mono : (p q : ℕ) (l : Entries) → p ≤ q → IsBelow p l → IsBelow q l
IsBelow-mono p q [] h b = tt
IsBelow-mono p q (e ∷ l) h b = (omega arith, IsBelow-mono p q l h b.1)

pub IsBelow-append : (p : ℕ) (xs ys : Entries) → IsBelow p xs → IsBelow p ys → IsBelow p (xs ++ ys)
IsBelow-append p [] ys b c = c
IsBelow-append p (x ∷ xs) ys b c = (b.0, IsBelow-append p xs ys b.1 c)

pub IsBelow-kept :
    (max_attempts : ℕ) (e : RecordedRaw × ℕ) (answer : Result (Unit {0}))
    → IsBelow (suc e.0.position) (kept max_attempts e answer)
IsBelow-kept max_attempts e (ok u) = tt
IsBelow-kept max_attempts e (err x) = elim (Bool-cases (leb max_attempts (e.1 + 1))) [
  | inl last ↦ rw last tt
  | inr again ↦ rw again (omega arith, tt)
]

IsIncreasing-take : (n p : ℕ) (l : Entries) → IsIncreasing p l → IsIncreasing p (take n l)
IsIncreasing-take zero p l h = tt
IsIncreasing-take (suc n) p [] h = tt
IsIncreasing-take (suc n) p (e ∷ l) h = (h.0, IsIncreasing-take n e.0.position l h.1)

module _ {ℓ} {W : Type ℓ} ⦃dict_key : Key Fields⦄ (max_attempts : ℕ)
    (attempt : RecordedRaw → Exec W (Unit {0})) where
  publish_context-kept :
      (before : Entries) (e : RecordedRaw × ℕ) (rest : Entries) (w : W)
      → IsBelow e.0.position before
      → publish_context max_attempts attempt e (record { entries = before ++ e ∷ rest; world = w })
        ≡ (
          ok tt,
          record {
            entries = before ++ (kept max_attempts e (attempt e.0 w).0 ++ rest);
            world = (attempt e.0 w).1;
          },
        )
  unfolding publish_context
  publish_context-kept before e rest w h = rw (
    index_of_entry-append before e rest h,
    settle_at-append max_attempts before e rest (attempt e.0 w).0,
  )

  abbrev left : Entries → W → Entries × W
  left = settled max_attempts attempt

  run_loop-settled :
      (before todo tail : Entries) (p : ℕ) (w : W)
      → IsBelow (suc p) before
      → IsIncreasing p todo
      → run_loop max_attempts attempt todo
          (record { entries = before ++ (todo ++ tail); world = w })
        ≡ (ok tt, record { entries = before ++ ((left todo w).0 ++ tail); world = (left todo w).1 })
  unfolding run_loop
  run_loop-settled before [] tail p w below grows = refl
  run_loop-settled before (e ∷ rest) tail p w below grows =
      let answer = attempt e.0 w in
      let now = kept max_attempts e answer.0 in
      let step =
        publish_context-kept before e (rest ++ tail) w
          (IsBelow-mono (suc p) e.0.position before grows.0 below) in
      let below_now : IsBelow (suc e.0.position) (before ++ now) =
        IsBelow-append (suc e.0.position) before now
          (IsBelow-mono (suc p) (suc e.0.position) before (omega arith) below)
          (IsBelow-kept max_attempts e answer.0) in
      let later =
        run_loop-settled (before ++ now) rest tail e.0.position answer.1 below_now grows.1 in
      let after = left rest answer.1 in
      let state : Entries → W → State W = λ l u. record { entries = l; world = u } in
      let finish : Entries → Result (Unit {0}) × State W = λ l. (ok tt, state l after.1) in
      rw step (
        ap (λ l. run_loop max_attempts attempt rest (state l answer.1))
          (sym (append_assoc before now (rest ++ tail)))
        ∙ later
        ∙ ap finish (
            append_assoc before now (after.0 ++ tail)
            ∙ ap (λ l. before ++ l) (sym (append_assoc now after.0 tail))))

  -- On an outbox in the order of positions, as inserts leave it, a run never raises. It tries each
  -- of the first `limit` entries once, in order; an entry whose publishing succeeds or fails for
  -- the last time allowed is removed, any other that fails stays in its place with one more
  -- failure, and the entries behind the limit stay as they are.
  pub run-settled :
      (limit : ℕ) (s : State W)
      → IsIncreasing 0 s.entries
      → run max_attempts attempt limit s ≡ (
        ok tt,
        record {
          entries = (left (take limit s.entries) s.world).0 ++ drop limit s.entries;
          world = (left (take limit s.entries) s.world).1;
        },
      )
  unfolding run
  run-settled limit s grows =
      let whole = take-append-drop limit s.entries in
      ap
        (λ l.
          run_loop max_attempts attempt (take limit s.entries)
            (record { entries = l; world = s.world }))
        (sym whole)
      ∙ run_loop-settled [] (take limit s.entries) (drop limit s.entries) 0 s.world tt
          (IsIncreasing-take limit 0 s.entries grows)
