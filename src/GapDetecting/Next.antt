-- ===== src/GapDetecting/Next.antt =====
-- What `__next__` returns, and that it returns.
use python_event_sourcery.Prelude.{
  ℕ, zero, suc, ◌+◌, ◌≤◌, ◌<◌, some, none, Bool, true, false, ◌&&◌, ◌||◌, List, [], ◌∷◌, take,
  select, length, all, is_some, ◌≡◌, ◌∙◌, ◌⊎◌, inl, inr, refl, arith, ap, sym, subst, ◌==◌, nat_key,
  ltb, Bool-cases, nat_refl,
}
use python_event_sourcery.GapDetecting.{
  DbEvent, GetBatch, to_all, Poll, get_batch, selects, is_continuous, advance, last_id, next,
}
use python_event_sourcery.GapDetecting.Gaps.{
  IsGrowing, last_id-le, HasNoGap, HasNoGap-is_continuous, is_continuous-HasNoGap,
  get_batch-IsGrowing,
}

all-take-select {ℓ} :
    {A : Type ℓ} (p q : A → Bool) (n : ℕ) (xs : List A)
    → all p (take n (select (λ x. q x && p x) xs)) ≡ true
all-take-select p q zero [] = refl
all-take-select p q (suc n) [] = refl
all-take-select p q zero (x ∷ xs) = refl
all-take-select p q (suc n) (x ∷ xs) =
    ground (arith, all-take-select p q n xs, all-take-select p q (suc n) xs)

-- No event at or before the cursor is in a batch.
get_batch-after :
    (kind : GetBatch) (n position : ℕ) (rows : List DbEvent)
    → all (λ row. ltb position row.id) (get_batch kind n position rows) ≡ true
unfolding get_batch
get_batch-after kind n position rows =
    all-take-select (λ row. ltb position row.id) (selects kind) n rows

-- Whether the loop ends at a poll.
abbrev ends_at : GetBatch → ℕ → ℕ → Poll → Bool
ends_at kind n position poll =
    let batch = get_batch kind n position poll.rows in
    (is_continuous batch && (length batch == n)) || poll.timed_out

module _ (kind : GetBatch) (n position : ℕ) (poll : Poll) (polls : List Poll) where
  next-now :
      ends_at kind n position poll ≡ true
      → next kind n position (poll ∷ polls)
        ≡ some (
          get_batch kind n position poll.rows,
          advance position (get_batch kind n position poll.rows),
        )
  unfolding next
  next-now h = ground (arith)

  next-later :
      ends_at kind n position poll ≡ false
      → next kind n position (poll ∷ polls) ≡ next kind n position polls
  unfolding next
  next-later h = ground (arith)

-- A batch that a poll gives reason to return.
pub record Returned (kind : GetBatch) (n position : ℕ) (poll : Poll) (batch : List DbEvent)
    (cursor : ℕ) : Type 0 where
  pub queried : batch ≡ get_batch kind n position poll.rows
  pub fresh : all (λ row. ltb position row.id) batch ≡ true
  pub moved : cursor ≡ advance position batch
  pub reason : (HasNoGap batch × (length batch ≡ n)) ⊎ (poll.timed_out ≡ true)

pub data Among : Poll → List Poll → Type 0 where
  here : {poll : Poll} {polls : List Poll} → Among poll (poll ∷ polls)
  later : {poll other : Poll} {polls : List Poll} → Among poll polls → Among poll (other ∷ polls)

-- The first poll that gives a reason: before it no time was over and no batch full without a gap.
pub data EndsWith (kind : GetBatch) (n position : ℕ) : Poll → List Poll → Type 0 where
  at_once : {poll : Poll} {polls : List Poll} → EndsWith kind n position poll (poll ∷ polls)
  waited :
      {poll other : Poll} {polls : List Poll}
      → other.timed_out ≡ false
      → ¬ (
          HasNoGap (get_batch kind n position other.rows)
          × (length (get_batch kind n position other.rows) ≡ n))
      → EndsWith kind n position poll polls
      → EndsWith kind n position poll (other ∷ polls)

-- Each poll sees rows in the order of their ids.
abbrev pub AreOrdered : List Poll → Type 0
AreOrdered [] = Unit
AreOrdered (poll ∷ polls) = IsGrowing 0 poll.rows × AreOrdered polls

not_returned {ℓ} : {A : Type ℓ} {a : A} → none ≡ some a → ⊥
not_returned h = ground arith

ends-reason :
    (kind : GetBatch) (n position : ℕ) (poll : Poll)
    → IsGrowing 0 poll.rows
    → ends_at kind n position poll ≡ true
    → (HasNoGap (get_batch kind n position poll.rows)
        × (length (get_batch kind n position poll.rows) ≡ n))
      ⊎ (poll.timed_out ≡ true)
ends-reason kind n position poll ordered h = elim (Bool-cases poll.timed_out) [
  | inl over ↦ inr over
  | inr more ↦
      let batch = get_batch kind n position poll.rows in
      let grows = get_batch-IsGrowing kind n position 0 poll.rows ordered in
      let continuous : is_continuous batch ≡ true = ground arith in
      inl (HasNoGap-is_continuous 0 batch grows continuous, ground arith)
]

waits-reason :
    (kind : GetBatch) (n position : ℕ) (poll : Poll)
    → ends_at kind n position poll ≡ false
    → (poll.timed_out ≡ false)
      × ¬ (
          HasNoGap (get_batch kind n position poll.rows)
          × (length (get_batch kind n position poll.rows) ≡ n))
waits-reason kind n position poll h = (
  ground arith,
  λ whole.
      let batch = get_batch kind n position poll.rows in
      let continuous : is_continuous batch ≡ true = is_continuous-HasNoGap batch whole.0 in
      let full : length batch == n ≡ true = rw (whole.1) (nat_refl n) in absurd (ground arith),
)

-- If every poll sees rows in the order of their ids: whatever other transactions commit between the
-- polls, a batch that `__next__` returns is what one of the polls saw after the cursor, with no
-- event at or before it. It was either full, of two events at least, with consecutive ids, or taken
-- as it was when the time was over; at no poll before it was either so. The cursor is then at its
-- last event.
pub next-Returned :
    (kind : GetBatch) (n position : ℕ) (polls : List Poll) (batch : List DbEvent) (cursor : ℕ)
    → AreOrdered polls
    → next kind n position polls ≡ some (batch, cursor)
    → (poll : Poll) × EndsWith kind n position poll polls
      × Returned kind n position poll batch cursor
unfolding next
next-Returned kind n position [] batch cursor ordered h = elim (not_returned h) [ ]
next-Returned kind n position (poll ∷ polls) batch cursor ordered h =
    elim (Bool-cases (ends_at kind n position poll)) [
      | inl now ↦
          let e = sym (next-now kind n position poll polls now) ∙ h in
          let is_batch : get_batch kind n position poll.rows ≡ batch = cc (e) in
          let is_cursor : advance position (get_batch kind n position poll.rows) ≡ cursor =
            cc (e) in
          (
            poll,
            at_once,
            record {
              queried = sym is_batch;
              fresh =
                  subst (λ b. all (λ row. ltb position row.id) b ≡ true) is_batch
                    (get_batch-after kind n position poll.rows);
              moved = sym is_cursor ∙ ap (advance position) is_batch;
              reason =
                  subst (λ b. (HasNoGap b × (length b ≡ n)) ⊎ (poll.timed_out ≡ true)) is_batch
                    (ends-reason kind n position poll ordered.0 now);
            },
          )
      | inr not_yet ↦
          let (found, among, returned) =
            next-Returned kind n position polls batch cursor ordered.1
              (sym (next-later kind n position poll polls not_yet) ∙ h) in
          let (in_time, not_whole) = waits-reason kind n position poll not_yet in
          (found, waited in_time not_whole among, returned)
    ]

-- When the time limit is over in one of the polls, `__next__` returns.
pub next-returns :
    (kind : GetBatch) (n position : ℕ) (polls : List Poll) {poll : Poll}
    → Among poll polls
    → poll.timed_out ≡ true
    → is_some (next kind n position polls) ≡ true
next-returns kind n position [] among h = elim among [ ]
next-returns kind n position (first ∷ polls) here h =
    let now : ends_at kind n position first ≡ true = ground arith in
    rw (next-now kind n position first polls now) refl
next-returns kind n position (first ∷ polls) (later among) h =
    elim (Bool-cases (ends_at kind n position first)) [
      | inl now ↦ rw (next-now kind n position first polls now) refl
      | inr not_yet ↦
          rw (next-later kind n position first polls not_yet)
            (next-returns kind n position polls among h)
    ]

all-below :
    (low high : ℕ) (rows : List DbEvent)
    → low ≤ high
    → all (λ row. ltb high row.id) rows ≡ true
    → all (λ row. ltb low row.id) rows ≡ true
all-below low high [] h k = refl
all-below low high (row ∷ rows) h k = ground (arith, all-below low high rows)

-- A full batch of all events without a gap, in id order, is returned at once, wherever it begins:
-- an event between the cursor and the first of the batch that is committed later is in no later
-- batch.
pub late_event_missed :
    (n position : ℕ) (a b : DbEvent) (rows : List DbEvent) (poll : Poll) (polls : List Poll)
    (late : DbEvent)
    → get_batch to_all n position poll.rows ≡ a ∷ b ∷ rows
    → IsGrowing a.id (b ∷ rows)
    → is_continuous (a ∷ b ∷ rows) ≡ true
    → length (a ∷ b ∷ rows) ≡ n
    → position < late.id
    → late.id < a.id
    → (cursor : ℕ) × (next to_all n position (poll ∷ polls) ≡ some (a ∷ b ∷ rows, cursor))
      × ((m : ℕ) (visible : List DbEvent)
          → all (λ row. ltb late.id row.id) (get_batch to_all m cursor visible) ≡ true)
unfolding advance
late_event_missed n position a b rows poll polls late queried grows continuous full after before =
    let cursor = last_id a.id (b ∷ rows) in
    let bound : a.id + length (b ∷ rows) ≤ cursor = last_id-le a.id (b ∷ rows) grows in
    let below : late.id ≤ cursor = omega arith in
    let stops : ends_at to_all n position poll ≡ true = rw queried (ground arith) in
    (
      cursor,
      next-now to_all n position poll polls stops ∙ rw (queried, advance) refl,
      λ m visible.
          all-below late.id cursor (get_batch to_all m cursor visible) below
            (get_batch-after to_all m cursor visible),
    )
