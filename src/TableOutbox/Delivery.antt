-- ===== src/TableOutbox/Delivery.antt =====
-- A run of the outbox over its table, of event_sourcery_sqlalchemy/outbox.py and
-- event_sourcery_django/outbox.py.
use mathlib.Core.List.{append_assoc}
use python_event_sourcery.Prelude.{
  ℕ, zero, suc, List, [], ◌∷◌, ◌++◌, ltb, if◌then◌else◌, ◌≡◌, ◌∙◌, ap, sym, refl, arith, Bool-cases,
  inl, inr, nat_key,
}
use python_event_sourcery.Errors.{Result, ok}
use python_event_sourcery.Exec.{Exec}
use python_event_sourcery.Event.{RecordedRaw}
use python_event_sourcery.Tables.{OutboxRow}
use python_event_sourcery.TableOutbox.{
  Texts, State, raw_outbox, outbox_entries, publish_row, publish_rows, run_table,
}
use python_event_sourcery.TableOutbox.Settled.{
  IsGrowing, IsUnder, left_of, IsFree, IsFree-under, IsFree-growing, settle_row-append,
  outbox_entries-zero, outbox_entries-nil, outbox_entries-alive, outbox_entries-dead, IsUnder-mono,
  IsUnder-append, IsUnder-left_of,
}

-- Each row is read as its record.
abbrev pub AreRead : Texts → (OutboxRow → RecordedRaw) → List OutboxRow → Type 0
AreRead texts raw [] = Unit
AreRead texts raw (row ∷ rest) = (raw_outbox texts row ≡ ok (raw row)) × AreRead texts raw rest

module _ {ℓ} {W : Type ℓ} (texts : Texts) (raw : OutboxRow → RecordedRaw)
    (attempt : RecordedRaw → Exec W (Unit {0})) where
  -- The first `limit` rows with tries left, tried in order: the rows after, and the world.
  abbrev pub tried : ℕ → List OutboxRow → W → List OutboxRow × W
  tried zero rows w = (rows, w)
  tried (suc n) [] w = ([], w)
  tried (suc n) (row ∷ rest) w =
      let answer = attempt (raw row) w in
      let after = tried n rest answer.1 in
      let passed = tried (suc n) rest w in
      if ltb 0 row.tries_left
      then (left_of row answer.0 ++ after.0, after.1)
      else (row ∷ passed.0, passed.1)

module _ {ℓ} {W : Type ℓ} (texts : Texts) (raw : OutboxRow → RecordedRaw)
    (attempt : RecordedRaw → Exec W (Unit {0})) where
  publish_row-left_of :
      (before : List OutboxRow) (row : OutboxRow) (rest : List OutboxRow) (w : W)
      → raw_outbox texts row ≡ ok (raw row)
      → IsFree row.id before
      → IsFree row.id rest
      → publish_row texts attempt row (record { rows = before ++ row ∷ rest; world = w }) ≡ (
        ok tt,
        record {
          rows = before ++ (left_of row (attempt (raw row) w).0 ++ rest);
          world = (attempt (raw row) w).1;
        },
      )
  unfolding publish_row
  publish_row-left_of before row rest w read h k =
      rw (read, settle_row-append before row rest (attempt (raw row) w).0 h k) refl

  abbrev outcome : ℕ → List OutboxRow → W → List OutboxRow × W
  outcome = tried texts raw attempt

  abbrev state : List OutboxRow → W → State W
  state rows w = record { rows = rows; world = w }

  abbrev finished : List OutboxRow → W → Result (Unit {0}) × State W
  finished rows w = (ok tt, state rows w)

  publish_rows-tried :
      (before rows : List OutboxRow) (n id : ℕ) (w : W)
      → IsUnder id before
      → IsGrowing id rows
      → AreRead texts raw rows
      → publish_rows texts attempt (outbox_entries n rows) (state (before ++ rows) w)
        ≡ (ok tt, state (before ++ (outcome n rows w).0) (outcome n rows w).1)
  unfolding publish_rows
  publish_rows-tried before rows zero id w under grows read =
      ap (λ l. publish_rows texts attempt l (state (before ++ rows) w)) (outbox_entries-zero rows)
  publish_rows-tried before [] (suc n) id w under grows read =
      ap (λ l. publish_rows texts attempt l (state (before ++ []) w)) (outbox_entries-nil (suc n))
  publish_rows-tried before (row ∷ rest) (suc n) id w under grows read =
      elim (Bool-cases (ltb 0 row.tries_left)) [
        | inl alive ↦
            let answer = attempt (raw row) w in
            let now = left_of row answer.0 in
            let step =
              publish_row-left_of before row rest w read.0
                (IsFree-under row.id before (IsUnder-mono id row.id before grows.0 under))
                (IsFree-growing row.id (suc row.id) rest (omega arith) grows.1) in
            let under_now : IsUnder (suc row.id) (before ++ now) =
              IsUnder-append (suc row.id) before now
                (IsUnder-mono id (suc row.id) before (omega (arith, grows.0)) under)
                (IsUnder-left_of row answer.0) in
            let later =
              publish_rows-tried (before ++ now) rest n (suc row.id) answer.1 under_now grows.1
                read.1 in
            let after = outcome n rest answer.1 in
            let todo = outbox_entries n rest in
            rw alive (
              ap (λ l. publish_rows texts attempt l (state (before ++ row ∷ rest) w))
                (outbox_entries-alive n row rest alive)
              ∙ (rw step (
                  ap (λ l. publish_rows texts attempt todo (state l answer.1))
                    (sym (append_assoc before now rest))
                  ∙ later
                  ∙ ap (λ l. finished l after.1) (append_assoc before now after.0))))
        | inr dead ↦
            let under_now : IsUnder (suc row.id) (before ++ row ∷ []) =
              IsUnder-append (suc row.id) before (row ∷ [])
                (IsUnder-mono id (suc row.id) before (omega (arith, grows.0)) under)
                (omega arith, tt) in
            let later =
              publish_rows-tried (before ++ row ∷ []) rest (suc n) (suc row.id) w under_now grows.1
                read.1 in
            let after = outcome (suc n) rest w in
            let todo = outbox_entries (suc n) rest in
            rw dead (
              ap (λ l. publish_rows texts attempt l (state (before ++ row ∷ rest) w))
                (outbox_entries-dead n row rest dead)
              ∙ ap (λ l. publish_rows texts attempt todo (state l w))
                  (sym (append_assoc before (row ∷ []) rest))
              ∙ later
              ∙ ap (λ l. finished l after.1) (append_assoc before (row ∷ []) after.0))
      ]

  -- On a table whose numbers grow and whose rows are read, a run never raises. It tries, once and
  -- in order, the first `limit` rows with tries left; a row whose publishing succeeds is removed,
  -- one that fails stays in its place with a try less, and every other row stays as it is.
  pub run_table-tried :
      (limit : ℕ) (s : State W)
      → IsGrowing 0 s.rows
      → AreRead texts raw s.rows
      → run_table texts attempt limit s ≡ (
        ok tt,
        record {
          rows = (outcome limit s.rows s.world).0;
          world = (outcome limit s.rows s.world).1;
        },
      )
  unfolding run_table
  run_table-tried limit s grows read = publish_rows-tried [] s.rows limit 0 s.world tt grows read
