-- ===== src/Builder/Unpack.antt =====
-- What an iterator over single events yields.
use python_event_sourcery.Prelude.{
  ℕ, some, List, [], ◌∷◌, ◌++◌, length, ◌≡◌, ◌∙◌, ap, sym, refl, arith,
}
use python_event_sourcery.Errors.{ok}
use python_event_sourcery.Event.{RecordedRaw}
use python_event_sourcery.Serde.{Setting}
use python_event_sourcery.InMemory.Storage.{Storage}
use python_event_sourcery.InMemory.Storage.Valid.{IsValid}
use python_event_sourcery.InMemory.Subscription.{Kind, subscribe, next_batch}
use python_event_sourcery.InMemory.Subscription.Delivery.{wanted_from, next_batch-Delivered}
use python_event_sourcery.Builder.{unpack, next_event}

-- One record at the front of a list.
one_of :
    (batch rest more : List RecordedRaw) (r : RecordedRaw)
    → r ∷ rest ≡ batch ++ more
    → length batch ≡ 1
    → (batch ≡ r ∷ []) × (more ≡ rest)
one_of [] rest more r h k = absurd (omega arith)
one_of (x ∷ []) rest more r h k = (cc, cc)
one_of (x ∷ y ∷ batch) rest more r h k = absurd (omega arith)

polled :
    (setting : Setting) (rounds position : ℕ) (kind : Kind) (s : Storage) (r : RecordedRaw)
    (next : ℕ)
    → next_batch rounds s (subscribe kind position 1) ≡ some (ok (r ∷ [], subscribe kind next 1))
    → next_event setting rounds s (subscribe kind position 1)
      ≡ some (unpack setting (ok (r ∷ [], subscribe kind next 1)))
unfolding next_event
polled setting rounds position kind s r next h = rw (h, next_event) refl

-- Over a valid in-memory storage an iterator over single events yields, read by the serde, the
-- first record that it wants from its position on, and goes on with the others.
next_event-first :
    (setting : Setting) (rounds position : ℕ) (kind : Kind) (s : Storage) (r : RecordedRaw)
    (rest : List RecordedRaw)
    → IsValid s
    → wanted_from kind s position ≡ r ∷ rest
    → (next : ℕ) × (next_event setting rounds s (subscribe kind position 1)
        ≡ some (unpack setting (ok (r ∷ [], subscribe kind next 1))))
      × (wanted_from kind s next ≡ rest)
unfolding subscribe
next_event-first setting rounds position kind s r rest v h =
    let d = next_batch-Delivered rounds s (subscribe kind position 1) v in
    let size : length d.batch ≡ 1 = omega (arith, d.amount, ap length h) in
    let (only, others) = one_of d.batch rest (wanted_from kind s d.next) r (sym h ∙ d.exact) size in
    (
      d.next,
      polled setting rounds position kind s r d.next
          (d.returned ∙ ap (λ b. some (ok (b, subscribe kind d.next 1))) only),
      others,
    )
