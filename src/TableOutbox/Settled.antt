-- ===== src/TableOutbox/Settled.antt =====
-- One row of an outbox table among the others, and what is done to it.
use mathlib.Core.List.{map-append}
use python_event_sourcery.Prelude.{
  ℕ, zero, suc, ◌-◌, ◌<◌, ◌≤◌, true, false, not, List, [], ◌∷◌, ◌++◌, select-append, ltb,
  if◌then◌else◌, ◌≡◌, ◌∙◌, ap, refl, arith, ◌==◌, nat_key, nat_refl, nat_beq,
}
use python_event_sourcery.Errors.{Result, ok, err}
use python_event_sourcery.Tables.{OutboxRow}
use python_event_sourcery.TableOutbox.{outbox_entries, delete_row, count_failure, settle_row}

-- The numbers of the rows grow, from `id` on.
abbrev pub IsGrowing : ℕ → List OutboxRow → Type 0
IsGrowing id [] = Unit
IsGrowing id (row ∷ rest) = (id ≤ row.id) × IsGrowing (suc row.id) rest

-- All numbers lie below `id`.
abbrev pub IsUnder : ℕ → List OutboxRow → Type 0
IsUnder id [] = Unit
IsUnder id (row ∷ rest) = (row.id < id) × IsUnder id rest

-- What is left of a row after an answer
abbrev pub left_of : OutboxRow → Result (Unit {0}) → List OutboxRow
left_of row (ok u) = []
left_of row (err e) = record row { tries_left = row.tries_left - 1 } ∷ []

-- No row has the number.
abbrev pub IsFree : ℕ → List OutboxRow → Type 0
IsFree id [] = Unit
IsFree id (row ∷ rest) = (nat_beq row.id id ≡ false) × IsFree id rest

pub IsFree-under : (id : ℕ) (rows : List OutboxRow) → IsUnder id rows → IsFree id rows
IsFree-under id [] h = tt
IsFree-under id (row ∷ rest) h = (ground (arith, h.0), IsFree-under id rest h.1)

pub IsFree-growing :
    (id from : ℕ) (rows : List OutboxRow) → id < from → IsGrowing from rows → IsFree id rows
IsFree-growing id from [] h k = tt
IsFree-growing id from (row ∷ rest) h k =
    (ground (arith, k.0), IsFree-growing id (suc row.id) rest (omega (arith, k.0)) k.1)

pub delete_row-IsFree :
    (id : ℕ) (rows : List OutboxRow) → IsFree id rows → delete_row id rows ≡ rows
unfolding delete_row
delete_row-IsFree id [] h = refl
delete_row-IsFree id (row ∷ rest) h = rw (h.0) (ap (◌∷◌ row) (delete_row-IsFree id rest h.1))

pub count_failure-IsFree :
    (id : ℕ) (rows : List OutboxRow) → IsFree id rows → count_failure id rows ≡ rows
unfolding count_failure
count_failure-IsFree id [] h = refl
count_failure-IsFree id (row ∷ rest) h = rw (h.0) (ap (◌∷◌ row) (count_failure-IsFree id rest h.1))

-- A row among rows of other numbers is settled alone.
pub settle_row-append :
    (before : List OutboxRow) (row : OutboxRow) (rest : List OutboxRow) (answer : Result (Unit {0}))
    → IsFree row.id before
    → IsFree row.id rest
    → settle_row row.id answer (before ++ row ∷ rest) ≡ before ++ (left_of row answer ++ rest)
unfolding delete_row count_failure settle_row
settle_row-append before row rest (ok u) h k =
    select-append (λ r. not (r.id == row.id)) before (row ∷ rest)
    ∙ (rw (nat_refl row.id) (
        ap (λ l. l ++ delete_row row.id rest) (delete_row-IsFree row.id before h)
        ∙ ap (λ l. before ++ l) (delete_row-IsFree row.id rest k)))
settle_row-append before row rest (err e) h k =
    let less : OutboxRow → OutboxRow =
      λ r. if r.id == row.id then record r { tries_left = r.tries_left - 1 } else r in
    let counted = record row { tries_left = row.tries_left - 1 } in
    map-append less before (row ∷ rest)
    ∙ (rw (nat_refl row.id) (
        ap (λ l. l ++ counted ∷ count_failure row.id rest) (count_failure-IsFree row.id before h)
        ∙ ap (λ l. before ++ counted ∷ l) (count_failure-IsFree row.id rest k)))

pub outbox_entries-zero : (rows : List OutboxRow) → outbox_entries 0 rows ≡ []
unfolding outbox_entries
outbox_entries-zero rows = refl

pub outbox_entries-nil : (n : ℕ) → outbox_entries n [] ≡ []
unfolding outbox_entries
outbox_entries-nil zero = refl
outbox_entries-nil (suc n) = refl

pub outbox_entries-alive :
    (n : ℕ) (row : OutboxRow) (rest : List OutboxRow)
    → ltb 0 row.tries_left ≡ true
    → outbox_entries (suc n) (row ∷ rest) ≡ row ∷ outbox_entries n rest
unfolding outbox_entries
outbox_entries-alive n row rest h = rw h refl

pub outbox_entries-dead :
    (n : ℕ) (row : OutboxRow) (rest : List OutboxRow)
    → ltb 0 row.tries_left ≡ false
    → outbox_entries (suc n) (row ∷ rest) ≡ outbox_entries (suc n) rest
unfolding outbox_entries
outbox_entries-dead n row rest h = rw h refl

pub IsUnder-mono : (p q : ℕ) (rows : List OutboxRow) → p ≤ q → IsUnder p rows → IsUnder q rows
IsUnder-mono p q [] h k = tt
IsUnder-mono p q (row ∷ rest) h k = (omega (arith, k.0), IsUnder-mono p q rest h k.1)

pub IsUnder-append :
    (p : ℕ) (xs ys : List OutboxRow) → IsUnder p xs → IsUnder p ys → IsUnder p (xs ++ ys)
IsUnder-append p [] ys h k = k
IsUnder-append p (x ∷ xs) ys h k = (h.0, IsUnder-append p xs ys h.1 k)

pub IsUnder-left_of :
    (row : OutboxRow) (answer : Result (Unit {0})) → IsUnder (suc row.id) (left_of row answer)
IsUnder-left_of row (ok u) = tt
IsUnder-left_of row (err e) = (omega arith, tt)
