-- ===== src/InTransaction/Once.antt =====
-- A listener is called once for a record, however often it is registered, and only if it is.
use mathlib.Core.List.{append_assoc, append-nil}
use python_event_sourcery.Prelude.{
  ℕ, ◌+◌, ◌≤◌, String, Bool, true, false, ◌&&◌, ◌||◌, List, [], ◌∷◌, ◌++◌, if◌then◌else◌, ◌≡◌, ◌∙◌,
  ap, refl, arith, ◌==◌, nat_key, string_key,
}
use python_event_sourcery.Prelude.Dict.{Dict, lookup}
use python_event_sourcery.Errors.{ok}
use python_event_sourcery.Exec.{Exec}
use python_event_sourcery.StreamId.{or_empty}
use python_event_sourcery.Event.{RecordedRaw, Recorded}
use python_event_sourcery.Registry.{class_key}
use python_event_sourcery.Serde.{Setting, deserialize_record}
use python_event_sourcery.Event.Class.{EventClass}
use python_event_sourcery.InTransaction.{
  Listeners, Dispatching, member, set_add, set_union, or_no_listeners, of_types, of_category,
  targets, call_all, call_targets, dispatch, on_registry, on_world,
}
use python_event_sourcery.InTransaction.Targets.{member-append, member-set_union, empty}

unfoldable pub occurrences : ℕ → List ℕ → ℕ
occurrences x [] = 0
occurrences x (y ∷ ys) = (if x == y then 1 else 0) + occurrences x ys

occurrences-append :
    (x : ℕ) (xs ys : List ℕ) → occurrences x (xs ++ ys) ≡ occurrences x xs + occurrences x ys
unfolding occurrences
occurrences-append x [] ys = omega arith
occurrences-append x (y ∷ xs) ys = ground (arith, occurrences-append x xs ys)

occurrences_absent : (x : ℕ) (xs : List ℕ) → member x xs ≡ false → occurrences x xs ≡ 0
unfolding occurrences member
occurrences_absent x [] h = refl
occurrences_absent x (y ∷ xs) h = ground (arith, occurrences_absent x xs)

occurrences-set_add :
    (x y : ℕ) (xs : List ℕ) → occurrences x xs ≤ 1 → occurrences x (set_add y xs) ≤ 1
unfolding set_add occurrences
occurrences-set_add x y xs h =
    ground
      (arith, occurrences-append x xs (y ∷ []), occurrences_absent x xs, occurrences_absent y xs)

occurrences-set_union :
    (x : ℕ) (a b : List ℕ) → occurrences x a ≤ 1 → occurrences x (set_union a b) ≤ 1
unfolding set_union
occurrences-set_union x a [] h = h
occurrences-set_union x a (y ∷ b) h =
    occurrences-set_union x (set_add y a) b (occurrences-set_add x y a h)

-- Among the listeners that an event of a class in a category reaches, none is there twice, even if
-- it is registered to the class, to classes above it and to the category.
occurrences-targets :
    (is_subclass : EventClass → EventClass → Bool) (cls : EventClass) (name : String)
    (l : Listeners) (x : ℕ)
    → occurrences x (targets is_subclass cls name l) ≤ 1
unfolding targets occurrences
occurrences-targets is_subclass cls name l x =
    let none_yet : occurrences x [] ≤ 1 = omega arith in
    occurrences-set_union x (set_union [] (of_types is_subclass cls l.to_event_types))
      (of_category name l)
      (occurrences-set_union x [] (of_types is_subclass cls l.to_event_types) none_yet)

occurrences_present : (x : ℕ) (xs : List ℕ) → member x xs ≡ true → 1 ≤ occurrences x xs
unfolding occurrences member
occurrences_present x [] h = absurd (ground arith)
occurrences_present x (y ∷ xs) h = ground (arith, occurrences_present x xs)

-- Whether a listener is registered to a class that the event's class derives from.
abbrev pub is_in_types :
    (EventClass → EventClass → Bool) → EventClass → ℕ → Dict EventClass (List ℕ) → Bool
is_in_types is_subclass cls x [] = false
is_in_types is_subclass cls x ((c, listeners) ∷ rest) =
    (is_subclass cls c && member x listeners) || is_in_types is_subclass cls x rest

-- Whether a listener is registered to the category, in whatever place of the dictionary.
abbrev pub is_in_category : String → ℕ → Dict String (List ℕ) → Bool
is_in_category name x [] = false
is_in_category name x ((n, listeners) ∷ rest) =
    if n == name then member x listeners else is_in_category name x rest

abbrev pub is_registered :
    (EventClass → EventClass → Bool) → EventClass → String → ℕ → Listeners → Bool
is_registered is_subclass cls name x l =
    is_in_types is_subclass cls x l.to_event_types || is_in_category name x l.to_categories

member-of_types :
    (is_subclass : EventClass → EventClass → Bool) (cls : EventClass) (x : ℕ)
    (d : Dict EventClass (List ℕ))
    → member x (of_types is_subclass cls d) ≡ is_in_types is_subclass cls x d
unfolding of_types member
member-of_types is_subclass cls x [] = refl
member-of_types is_subclass cls x ((c, listeners) ∷ rest) = ground (
  arith,
  member-append x listeners (of_types is_subclass cls rest),
  member-of_types is_subclass cls x rest,
)

member-of_category :
    (name : String) (x : ℕ) (d : Dict String (List ℕ))
    → member x (or_no_listeners (lookup name d)) ≡ is_in_category name x d
unfolding lookup member
member-of_category name x [] = refl
member-of_category name x ((n, listeners) ∷ rest) = ground (arith, member-of_category name x rest)

member-targets :
    (is_subclass : EventClass → EventClass → Bool) (cls : EventClass) (name : String)
    (l : Listeners) (x : ℕ)
    → member x (targets is_subclass cls name l) ≡ is_registered is_subclass cls name x l
unfolding targets of_category
member-targets is_subclass cls name l x = ground (
  arith,
  member-set_union x (set_union [] (of_types is_subclass cls l.to_event_types))
      (of_category name l),
  member-set_union x [] (of_types is_subclass cls l.to_event_types),
  member-of_types is_subclass cls x l.to_event_types,
  member-of_category name x l.to_categories,
  empty x,
)

count-targets :
    (is_subclass : EventClass → EventClass → Bool) (cls : EventClass) (name : String)
    (l : Listeners) (x : ℕ)
    → occurrences x (targets is_subclass cls name l)
      ≡ (if is_registered is_subclass cls name x l then 1 else 0)
count-targets is_subclass cls name l x =
    let reached = targets is_subclass cls name l in
    ground (
      arith,
      member-targets is_subclass cls name l x,
      occurrences-targets is_subclass cls name l x,
      occurrences_present x reached,
      occurrences_absent x reached,
    )

-- A client's listeners that note their number when they are called.
abbrev pub note : ℕ → Recorded → Exec (List ℕ) (Unit {0})
note x recorded called = (ok tt, called ++ x ∷ [])

module _ (setting : Setting) (is_subclass : EventClass → EventClass → Bool)
    (iterate : List ℕ → List ℕ)
    (iterates : (x : ℕ) (l : List ℕ) → occurrences x (iterate l) ≡ occurrences x l) where
  call_all-note :
      (xs : List ℕ) (recorded : Recorded) (called : List ℕ)
      → call_all setting is_subclass iterate note xs recorded called ≡ (ok tt, called ++ xs)
  unfolding call_all
  call_all-note [] recorded called = rw (append-nil called) refl
  call_all-note (x ∷ xs) recorded called =
      call_all-note xs recorded (called ++ x ∷ [])
      ∙ ap (λ l. (ok tt, l)) (append_assoc called (x ∷ []) xs)

  -- If a set is iterated over its elements, each once: when a record is dispatched whose event can
  -- be deserialised, to listeners that raise nothing and note each call, a listener is called once
  -- if it is registered to the category of the stream or to a class that the event's class derives
  -- from, in however many ways, and not at all otherwise.
  pub occurrences-dispatch :
      (raw : RecordedRaw) (recorded : Recorded) (s : Dispatching (List ℕ)) (x : ℕ)
      → (deserialize_record setting raw s.registry).0 ≡ ok recorded
      → occurrences x (dispatch setting is_subclass iterate note (raw ∷ []) s).1.world
        ≡ occurrences x s.world
          + (if is_registered is_subclass recorded.wrapped_event.event.event_type
                (or_empty recorded.stream_id.category)
                x
                s.listeners
              then 1
              else 0)
  unfolding dispatch call_targets on_registry on_world
  occurrences-dispatch raw recorded s x read =
      let cls = recorded.wrapped_event.event.event_type in
      let name = or_empty recorded.stream_id.category in
      let reached = targets is_subclass cls name s.listeners in
      rw (read, call_all-note (iterate reached) recorded s.world)
        (occurrences-append x s.world (iterate reached)
          ∙ ap (◌+◌ (occurrences x s.world))
              (iterates x reached ∙ count-targets is_subclass cls name s.listeners x))
