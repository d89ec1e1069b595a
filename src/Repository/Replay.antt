-- ===== src/Repository/Replay.antt =====
-- The state of an aggregate is the replay of its stream and of its pending changes.
use python_event_sourcery.Prelude.{
  ℕ, suc, ◌+◌, ◌≤◌, Option, some, List, [], ◌∷◌, ◌++◌, length, ◌≡◌, ◌∙◌, ap, sym, refl, arith,
}
use mathlib.Core.List.{append-nil, append_assoc}
use python_event_sourcery.Errors.{ok}
use python_event_sourcery.Exec.{Exec, ◌>>◌, pure, modify, continue, continue-eq_ok, bind_keeps}
use python_event_sourcery.StreamId.{StreamId}
use python_event_sourcery.Event.{Event, WrappedEvent, Stamp, wrap}
use python_event_sourcery.Event.Json.{Fields}
use python_event_sourcery.Repository.{
  Aggregate, WrappedAggregate, on_attributes, emit, on_aggregate, load_one, load_loop, stamped,
  new_wrapped, wrap_changes, wrapped_version, or_first,
}

no_room : (n : ℕ) → suc n ≤ 0 → ⊥
no_room n h = omega arith

module _ {ℓ} {A : Type ℓ} (apply : Event → Exec A (Unit {0})) where
  -- A client that emits the events of a list.
  unfoldable pub emit_all : List Event → Exec (Aggregate A) (Unit {0})
  emit_all [] = pure tt
  emit_all (e ∷ es) = emit apply e >> emit_all es

  load_loop-append :
      (xs ys : List WrappedEvent) (w w' : WrappedAggregate A)
      → load_loop apply xs w ≡ (ok tt, w')
      → load_loop apply (xs ++ ys) w ≡ load_loop apply ys w'
  unfolding load_loop
  load_loop-append [] ys w w' h = ap (λ p. load_loop apply ys p.1) h
  load_loop-append (x ∷ xs) ys w w' h =
      let one = load_one apply x w in
      let (u, passed, rest) = continue-eq_ok one.0 (λ _. load_loop apply xs) one.1 h in
      rw (passed, continue) (load_loop-append xs ys one.1 w' rest)

  load_one-keeps :
      (x : WrappedEvent) (w : WrappedAggregate A)
      → (load_one apply x w).1.aggregate.changes ≡ w.aggregate.changes
  unfolding load_one
  load_one-keeps x w =
      bind_keeps (λ t. t.aggregate.changes ≡ w.aggregate.changes)
        (on_aggregate apply (apply x.event)) (λ _. modify (stamped apply x)) w refl
        (λ u t e. ap (λ y. y.aggregate.changes) e)

  load_loop-keeps :
      (xs : List WrappedEvent) (w : WrappedAggregate A)
      → (load_loop apply xs w).1.aggregate.changes ≡ w.aggregate.changes
  unfolding load_loop
  load_loop-keeps [] w = refl
  load_loop-keeps (x ∷ xs) w =
      bind_keeps (λ t. t.aggregate.changes ≡ w.aggregate.changes) (load_one apply x)
        (λ _. load_loop apply xs) w (load_one-keeps x w)
        (λ u t e. load_loop-keeps xs t ∙ ap (λ y. y.aggregate.changes) e ∙ load_one-keeps x w)

  emit-parts :
      (e : Event) (a a' : Aggregate A)
      → emit apply e a ≡ (ok tt, a')
      → (apply e a.attributes ≡ (ok tt, a'.attributes)) × (a'.changes ≡ a.changes ++ (e ∷ []))
  unfolding emit
  emit-parts e a a' h =
      let done = on_attributes apply (apply e) a in
      let (u, passed, rest) =
        continue-eq_ok done.0 (λ _ b. (ok tt, record b { changes = b.changes ++ (e ∷ []) })) done.1
          h in
      let attributes = ap (λ p. p.1.attributes) rest in
      (rw (← passed, ← attributes) refl, sym (ap (λ p. p.1.changes) rest))

  -- What the load of one envelope makes of a wrapped aggregate that has applied its event.
  load_one-applied :
      (x : WrappedEvent) (w : WrappedAggregate A) (attributes : A)
      → apply x.event w.aggregate.attributes ≡ (ok tt, attributes)
      → (w' : WrappedAggregate A) × (load_one apply x w ≡ (ok tt, w'))
        × (w'.aggregate.attributes ≡ attributes)
        × (w'.aggregate.changes ≡ w.aggregate.changes)
        × (w'.stored_version ≡ x.version)
  unfolding load_one
  load_one-applied x w attributes h = (
    record w {
      aggregate = record w.aggregate { attributes = attributes };
      stored_version = x.version;
      created_at = or_first w.created_at x.created_at;
      updated_at = some x.created_at;
    },
    rw (h, continue) refl,
    refl,
    refl,
    refl,
  )

  -- Emitting events and loading them, when they are wrapped from the next version on, end in the
  -- same attributes.
  load_loop-emitted :
      (es : List Event) (stamps : List Stamp) (context : Fields) (v : ℕ) (a a' : Aggregate A)
      (w : WrappedAggregate A)
      → length es ≤ length stamps
      → emit_all es a ≡ (ok tt, a')
      → w.aggregate.attributes ≡ a.attributes
      → w.stored_version ≡ some v
      → (w' : WrappedAggregate A) × (load_loop apply (wrap_changes stamps context (suc v) es) w
          ≡ (ok tt, w'))
        × (w'.aggregate.attributes ≡ a'.attributes)
        × (w'.aggregate.changes ≡ w.aggregate.changes)
        × (w'.stored_version ≡ some (v + length es))
        × (a'.changes ≡ a.changes ++ es)
  unfolding load_loop wrap_changes emit_all
  load_loop-emitted [] stamps context v a a' w enough h same stored =
      let unchanged : a ≡ a' = ap (λ p. p.1) h in
      (
        w,
        refl,
        same ∙ ap (λ b. b.attributes) unchanged,
        refl,
        stored ∙ ap some (omega arith),
        ap (λ b. b.changes) (sym unchanged) ∙ sym (append-nil a.changes),
      )
  load_loop-emitted (e ∷ es) [] context v a a' w enough h same stored =
      elim (no_room (length es) enough) [ ]
  load_loop-emitted (e ∷ es) (stamp ∷ stamps) context v a a' w enough h same stored =
      let one = emit apply e a in
      let (u, passed, rest) = continue-eq_ok one.0 (λ _. emit_all es) one.1 h in
      let room : length es ≤ length stamps = omega arith in
      let count : suc v + length es ≡ v + length (e ∷ es) = omega arith in
      let (applied, changed) = emit-parts e a one.1 (rw (← passed) refl) in
      let x = wrap stamp e (some (suc v)) (some context) in
      let (w1, loaded, attributes1, changes1, stored1) =
        load_one-applied x w one.1.attributes (ap (λ y. apply e y) same ∙ applied) in
      let (w2, done, attributes2, changes2, stored2, pending) =
        load_loop-emitted es stamps context (suc v) one.1 a' w1 room rest attributes1 stored1 in
      (
        w2,
        rw (loaded, continue) done,
        attributes2,
        changes2 ∙ changes1,
        stored2 ∙ ap some count,
        pending ∙ ap (λ l. l ++ es) changed ∙ append_assoc a.changes (e ∷ []) es,
      )

  -- The attributes of an aggregate that was loaded from a stream, to a version that is a number,
  -- and then emitted events, all without an error and with a stamp for each, are those that a load
  -- of a fresh aggregate gives from the stream followed by the wrapped pending changes, as `_save`
  -- appends them. The stored version is then what `version` gave with the changes pending.
  pub load_loop-changes :
      (fresh : A) (sid : StreamId) (context : Option Fields) (old : List WrappedEvent)
      (es : List Event) (stamps : List Stamp) (v : ℕ) (w : WrappedAggregate A) (a' : Aggregate A)
      → load_loop apply old (new_wrapped (record { attributes = fresh; changes = [] }) sid context)
        ≡ (ok tt, w)
      → w.stored_version ≡ some v
      → emit_all es w.aggregate ≡ (ok tt, a')
      → length es ≤ length stamps
      → (w' : WrappedAggregate A) × (load_loop apply
            (old ++ wrap_changes stamps w.context (suc v) a'.changes)
            (new_wrapped (record { attributes = fresh; changes = [] }) sid context)
          ≡ (ok tt, w'))
        × (w'.aggregate.attributes ≡ a'.attributes)
        × (w'.aggregate.changes ≡ [])
        × (wrapped_version (record w { aggregate = a' }) ≡ ok (v + length es))
        × (w'.stored_version ≡ some (v + length es))
  unfolding wrapped_version new_wrapped
  load_loop-changes fresh sid context old es stamps v w a' loaded stored emitted enough =
      let start = new_wrapped (record { attributes = fresh; changes = [] }) sid context in
      let none_yet : w.aggregate.changes ≡ [] =
        ap (λ p. p.1.aggregate.changes) (sym loaded) ∙ load_loop-keeps old start in
      let (w', done, attributes, changes, version, pending) =
        load_loop-emitted es stamps w.context v w.aggregate a' w enough emitted refl stored in
      let is_es : a'.changes ≡ es = pending ∙ ap (λ l. l ++ es) none_yet in
      (
        w',
        load_loop-append old (wrap_changes stamps w.context (suc v) a'.changes)
              (new_wrapped (record { attributes = fresh; changes = [] }) sid context) w loaded
            ∙ rw is_es done,
        attributes,
        changes ∙ none_yet,
        rw (stored, is_es) refl,
        version,
      )
