-- ===== src/InTransaction.antt =====
-- event_sourcery/_event_store/subscription/in_transaction.py: `Listeners` and `Dispatcher`. A
-- listener is the number of its object; a set is a list without repetition, and `issubclass` and
-- the order in which a set is iterated are parameters.
pub mod Targets
pub mod Once
use python_event_sourcery.Prelude.{
  ℕ, String, Option, none, some, Bool, true, false, not, ◌&&◌, List, [], ◌∷◌, ◌++◌, select,
  if◌then◌else◌, is_some, ◌==◌, nat_key, string_key,
}
use python_event_sourcery.Prelude.Dict.{Dict, lookup, insert, contains}
use python_event_sourcery.Errors.{Result, ok, err, key_error}
use python_event_sourcery.Exec.{Exec, ◌>>=◌, ◌>>◌, pure, modify}
use python_event_sourcery.StreamId.{or_empty}
use python_event_sourcery.Event.{RecordedRaw, Recorded}
use python_event_sourcery.Event.Class.{EventClass}
use python_event_sourcery.Registry.{Registry, class_key}
use python_event_sourcery.Serde.{Setting, deserialize_record}

pub record Listeners : Type 0 where
  pub to_event_types : Dict EventClass (List ℕ)
  pub to_categories : Dict String (List ℕ)

-- `type[Event] | StreamCategory`
pub data SubscribedTo : Type 0 where
  event_type : EventClass → SubscribedTo
  category : String → SubscribedTo

unfoldable pub member : ℕ → List ℕ → Bool
member x [] = false
member x (y ∷ ys) = if x == y then true else member x ys

-- `s.add(x)`
unfoldable pub set_add : ℕ → List ℕ → List ℕ
unfolding member
set_add x xs = if member x xs then xs else xs ++ (x ∷ [])

unfoldable pub discard : ℕ → List ℕ → List ℕ
discard x xs = select (λ y. not (x == y)) xs

-- `a | b`
unfoldable pub set_union : List ℕ → List ℕ → List ℕ
unfolding set_add
set_union a [] = a
set_union a (x ∷ b) = set_union (set_add x a) b

abbrev pub or_no_listeners : Option (List ℕ) → List ℕ
or_no_listeners none = []
or_no_listeners (some xs) = xs

module _ (is_subclass : EventClass → EventClass → Bool) where
  -- The listeners of the classes that the event's class derives from.
  unfoldable pub of_types : EventClass → Dict EventClass (List ℕ) → List ℕ
  of_types cls [] = []
  of_types cls ((registered_to, listeners) ∷ rest) =
      if is_subclass cls registered_to then listeners ++ of_types cls rest else of_types cls rest

unfoldable pub of_category : String → Listeners → List ℕ
of_category name l = or_no_listeners (lookup name l.to_categories)

-- `self._to_categories[category]` enters an empty set for a category that is not there.
unfoldable pub touch_category : String → Listeners → Listeners
touch_category name l =
    if contains name l.to_categories
    then l
    else record l { to_categories = insert name [] l.to_categories }

unfoldable pub register : ℕ → SubscribedTo → Listeners → Listeners
unfolding set_add of_category
register listener (category name) l = record l {
  to_categories = insert name (set_add listener (of_category name l)) l.to_categories;
}
register listener (event_type cls) l = record l {
  to_event_types =
      insert cls (set_add listener (or_no_listeners (lookup cls l.to_event_types)))
        l.to_event_types;
}

-- `set.remove` raises on a missing element.
unfoldable pub remove : ℕ → SubscribedTo → Exec Listeners (Unit {0})
unfolding discard touch_category of_category member
remove listener (category name) l =
    let touched = touch_category name l in
    if member listener (of_category name touched)
    then (
      ok tt,
      record touched {
        to_categories =
            insert name (discard listener (of_category name touched)) touched.to_categories;
      },
    )
    else (err key_error, touched)
remove listener (event_type cls) l =
    let registered = or_no_listeners (lookup cls l.to_event_types) in
    if is_some (lookup cls l.to_event_types) && member listener registered
    then (
      ok tt,
      record l { to_event_types = insert cls (discard listener registered) l.to_event_types },
    )
    else (ok tt, l)

-- `set(self._listeners[event]) | set(self._listeners[category])`
unfoldable pub targets : (EventClass → EventClass → Bool) → EventClass → String → Listeners → List ℕ
unfolding set_union of_types of_category
targets is_subclass cls name l =
    set_union (set_union [] (of_types is_subclass cls l.to_event_types)) (of_category name l)

-- The state of a dispatcher: its listeners, the registry, and what the listeners change.
pub record Dispatching {ℓ} (W : Type ℓ) : Type ℓ where
  pub listeners : Listeners
  pub registry : Registry
  pub world : W

module _ {ℓ} {W : Type ℓ} (setting : Setting) (is_subclass : EventClass → EventClass → Bool)
    (iterate : List ℕ → List ℕ) (call : ℕ → Recorded → Exec W (Unit {0})) where
  unfoldable pub call_all : List ℕ → Recorded → Exec W (Unit {0})
  call_all [] recorded = pure tt
  call_all (x ∷ xs) recorded = call x recorded >> call_all xs recorded

  on_registry {κ} : {B : Type κ} → Exec Registry B → Exec (Dispatching W) B
  on_registry m s = ((m s.registry).0, record s { registry = (m s.registry).1 })

  on_world : Exec W (Unit {0}) → Exec (Dispatching W) (Unit {0})
  on_world m s = ((m s.world).0, record s { world = (m s.world).1 })

  -- The listeners of one record, in the order of the iteration.
  call_targets : Recorded → Exec (Dispatching W) (Unit {0})
  unfolding targets call_all touch_category on_world
  call_targets recorded s =
      let cls = recorded.wrapped_event.event.event_type in
      let name = or_empty recorded.stream_id.category in
      on_world (call_all (iterate (targets is_subclass cls name s.listeners)) recorded)
        (record s { listeners = touch_category name s.listeners })

  unfoldable pub dispatch : List RecordedRaw → Exec (Dispatching W) (Unit {0})
  unfolding deserialize_record call_targets on_registry
  dispatch [] = pure tt
  dispatch (raw ∷ raws) = do
    recorded ← on_registry (deserialize_record setting raw)
    call_targets recorded
    dispatch raws
