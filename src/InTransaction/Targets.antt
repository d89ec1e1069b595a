-- ===== src/InTransaction/Targets.antt =====
-- Which listeners an event reaches.
use python_event_sourcery.Prelude.{
  ℕ, String, Bool, true, false, ◌&&◌, ◌||◌, List, [], ◌∷◌, ◌++◌, ◌≡◌, refl, arith, ◌==◌, nat_key,
  string_key,
}
use python_event_sourcery.Prelude.Dict.{Dict, lookup, insert, lookup-insert, lookup_congr}
use python_event_sourcery.Event.Class.{EventClass}
use python_event_sourcery.Registry.{class_key, class_same}
use python_event_sourcery.InTransaction.{
  Listeners, SubscribedTo, event_type, category, member, set_add, set_union, or_no_listeners,
  of_types, of_category, register, targets,
}

pub member-append : (x : ℕ) (xs ys : List ℕ) → member x (xs ++ ys) ≡ member x xs || member x ys
unfolding member
member-append x [] ys = refl
member-append x (y ∷ xs) ys = ground (arith, member-append x xs ys)

member-set_add : (x y : ℕ) (xs : List ℕ) → member x (set_add y xs) ≡ (x == y) || member x xs
unfolding set_add member
member-set_add x y xs = ground (arith, member-append x xs (y ∷ []))

pub member-set_union : (x : ℕ) (a b : List ℕ) → member x (set_union a b) ≡ member x a || member x b
unfolding set_union member
member-set_union x a [] = ground arith
member-set_union x a (y ∷ b) =
    ground (arith, member-set_union x (set_add y a) b, member-set_add x y a)

pub empty : (x : ℕ) → member x [] ≡ false
unfolding member
empty x = refl

module _ (is_subclass : EventClass → EventClass → Bool) where
  -- `issubclass` tells classes apart by their identity alone.
  unfoldable pub IsOfIdentity : Type 0
  IsOfIdentity =
      (cls c d : EventClass) → class_same c d ≡ true → is_subclass cls c ≡ is_subclass cls d

  member-of_types-insert :
      (identity : IsOfIdentity) (cls c : EventClass) (x y : ℕ) (d : Dict EventClass (List ℕ))
      → member x (of_types is_subclass cls (insert c (set_add y (or_no_listeners (lookup c d))) d))
        ≡ member x (of_types is_subclass cls d) || ((x == y) && is_subclass cls c)
  unfolding of_types insert lookup IsOfIdentity
  member-of_types-insert identity cls c x y [] =
      ground (arith, member-append x (set_add y []) [], member-set_add x y [], empty x)
  member-of_types-insert identity cls c x y ((j, w) ∷ d) = ground (
    arith,
    member-of_types-insert identity cls c x y d,
    identity cls j c,
    member-append x w (of_types is_subclass cls d),
    member-append x (set_add y w) (of_types is_subclass cls d),
    member-append x w
        (of_types is_subclass cls (insert c (set_add y (or_no_listeners (lookup c d))) d)),
    member-set_add x y w,
  )

  -- Whether a subscription is to an event of a class in a stream of a category.
  abbrev pub matches : SubscribedTo → EventClass → String → Bool
  matches (event_type c) cls name = is_subclass cls c
  matches (category n) cls name = n == name

  -- If `issubclass` tells classes apart by identity, then after a registration the listeners that
  -- an event reaches are those it reached before, with the registered one if the event's class
  -- derives from the class it was registered to, or the category is the event's.
  pub targets-register :
      (identity : IsOfIdentity) (to : SubscribedTo) (cls : EventClass) (name : String) (x y : ℕ)
      (l : Listeners)
      → member x (targets is_subclass cls name (register y to l))
        ≡ member x (targets is_subclass cls name l) || ((x == y) && matches to cls name)
  unfolding targets register of_category
  targets-register identity (event_type c) cls name x y l = ground (
    arith,
    member-set_union x (set_union [] (of_types is_subclass cls l.to_event_types))
        (of_category name l),
    member-set_union x
        (set_union [] (of_types is_subclass cls (register y (event_type c) l).to_event_types))
        (of_category name l),
    member-set_union x [] (of_types is_subclass cls l.to_event_types),
    member-set_union x [] (of_types is_subclass cls (register y (event_type c) l).to_event_types),
    member-of_types-insert identity cls c x y l.to_event_types,
  )
  targets-register identity (category n) cls name x y l = ground (
    arith,
    member-set_union x (set_union [] (of_types is_subclass cls l.to_event_types))
        (of_category name l),
    member-set_union x (set_union [] (of_types is_subclass cls l.to_event_types))
        (of_category name (register y (category n) l)),
    lookup-insert n name (set_add y (of_category n l)) l.to_categories,
    lookup_congr n name l.to_categories,
    member-set_add x y (of_category n l),
  )
