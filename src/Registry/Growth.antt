-- ===== src/Registry/Growth.antt =====
-- The registry only grows, and stays valid, under every method, whether it returns or raises.
use python_event_sourcery.Prelude.{
  String, Option, none, some, Bool, true, false, not, ◌&&◌, is_some, ◌≡◌, refl, arith, nat_key,
  string_key, Bool-cases, inl, inr,
}
use python_event_sourcery.Prelude.Dict.{lookup, contains, lookup-insert, lookup_congr}
use python_event_sourcery.Errors.{Result-cases}
use python_event_sourcery.Exec.{bind_keeps, pure}
use python_event_sourcery.Event.Class.{EventClass, event_name}
use python_event_sourcery.Registry.Valid.{IsValid, IsValid-empty, enter-IsValid}
use python_event_sourcery.Registry.{
  Registry, Subclasses, no_more, subclass, empty_registry, class_key, enter, add_named, add,
  register_named, register_one, register_defined_events, new_registry, type_for_name, name_for_type,
  register_unless,
}

-- Nothing that is registered is lost or renamed.
pub record Extends (r t : Registry) : Type 0 where
  pub types :
      (c : EventClass) (n : String)
      → lookup c r.types_to_names ≡ some n
      → lookup c t.types_to_names ≡ some n
  pub names :
      (n : String) (c : EventClass)
      → lookup n r.names_to_types ≡ some c
      → lookup n t.names_to_types ≡ some c

Extends-refl : (r : Registry) → Extends r r
Extends-refl r = record { types = λ c n h. h; names = λ n c h. h }

Extends-trans : {r s t : Registry} → Extends r s → Extends s t → Extends r t
Extends-trans a b = record {
  types = λ c n h. b.types c n (a.types c n h);
  names = λ n c h. b.names n c (a.names n c h);
}

-- A valid registry that goes on from `r`.
pub record Grows (r t : Registry) : Type 0 where
  pub valid : IsValid t
  pub extends : Extends r t

pub Grows-refl : (r : Registry) → IsValid r → Grows r r
Grows-refl r v = record { valid = v; extends = Extends-refl r }

pub Grows-trans : {r s t : Registry} → Grows r s → Grows s t → Grows r t
Grows-trans a b = record { valid = b.valid; extends = Extends-trans a.extends b.extends }

enter-Grows :
    (event : EventClass) (name : String) (r : Registry)
    → IsValid r
    → lookup event r.types_to_names ≡ none
    → lookup name r.names_to_types ≡ none
    → Grows r (enter event name r)
enter-Grows event name r v new_type new_name = record {
  valid = enter-IsValid event name r v new_type new_name;
  extends =
      unfold enter in
      record {
        types = λ c n h. ground (
          arith,
          lookup-insert event c name r.types_to_names,
          lookup_congr event c r.types_to_names,
        );
        names = λ n c h. ground (
          arith,
          lookup-insert name n event r.names_to_types,
          lookup_congr name n r.names_to_types,
        );
      };
}

absent : {A : Type 0} (o : Option A) → is_some o ≡ false → o ≡ none
absent none h = refl
absent (some a) h = cc

add_named-Grows :
    (event : EventClass) (name : String) (r : Registry)
    → IsValid r
    → lookup event r.types_to_names ≡ none
    → Grows r (add_named event name r).1
add_named-Grows event name r v h = elim (Bool-cases (contains name r.names_to_types)) [
  | inl taken ↦ unfold add_named in rw taken (record { valid = v; extends = Extends-refl r })
  | inr free ↦
      unfold add_named in
      rw free (enter-Grows event name r v h (absent (lookup name r.names_to_types) free))
]

pub add-Grows : (event : EventClass) (r : Registry) → IsValid r → Grows r (add event r).1
add-Grows event r v = elim (Bool-cases (contains event r.types_to_names)) [
  | inl taken ↦ unfold add in rw taken (Grows-refl r v)
  | inr free ↦ elim (Result-cases (event_name event)) [
    | inr (e, unnamed) ↦ unfold add in rw (free, unnamed) (Grows-refl r v)
    | inl (n, named) ↦
        unfold add in
        rw (free, named) (add_named-Grows event n r v (absent (lookup event r.types_to_names) free))
  ]
]

register_named-Grows :
    (event : EventClass) (name : String) (r : Registry)
    → IsValid r
    → Grows r (register_named event name r).1
register_named-Grows event name r v =
    elim (Bool-cases
      (not (contains event r.types_to_names) && not (contains name r.names_to_types))) [
        | inr known ↦ unfold register_named in rw known (Grows-refl r v)
        | inl new ↦
            unfold register_named in
            rw new (
              bind_keeps (Grows r) (add event) (λ _. pure tt) r (add-Grows event r v)
                (λ _ t e. rw e (add-Grows event r v)))
      ]

register_one-Grows :
    (event : EventClass) (r : Registry) → IsValid r → Grows r (register_one event r).1
register_one-Grows event r v = elim (Result-cases (event_name event)) [
  | inr (e, unnamed) ↦ unfold register_one in rw unnamed (Grows-refl r v)
  | inl (n, named) ↦ unfold register_one in rw named (register_named-Grows event n r v)
]

register_defined_events-Grows :
    (defined : Subclasses) (r : Registry)
    → IsValid r
    → Grows r (register_defined_events defined r).1
unfolding register_defined_events
register_defined_events-Grows no_more r v = Grows-refl r v
register_defined_events-Grows (subclass event below rest) r v =
    let one = register_one-Grows event r v in
    bind_keeps (Grows r) (register_one event) _ r one (λ _ t e.
      let here : Grows r t = rw e one in
      let under = register_defined_events-Grows below t here.valid in
      bind_keeps (Grows r) (register_defined_events below) _ t (Grows-trans here under) (λ _ u e'.
        let there : Grows r u = rw e' (Grows-trans here under) in
        Grows-trans there (register_defined_events-Grows rest u there.valid)))

module _ (defined : Subclasses) where
  -- A registry that the library made, with what clients added and looked up since.
  pub data Reachable : Registry → Type 0 where
    made : Reachable (new_registry defined).1
    added : {r : Registry} → Reachable r → (event : EventClass) → Reachable (add event r).1
    asked_type :
        {r : Registry} → Reachable r → (name : String) → Reachable (type_for_name defined name r).1
    asked_name :
        {r : Registry}
        → Reachable r
        → (event : EventClass) → Reachable (name_for_type defined event r).1

  register_unless-Grows :
      (b : Bool) (r : Registry) → IsValid r → Grows r (register_unless defined b r).1
  unfolding register_unless
  register_unless-Grows true r v = Grows-refl r v
  register_unless-Grows false r v = register_defined_events-Grows defined r v

  pub type_for_name-Grows :
      (name : String) (r : Registry) → IsValid r → Grows r (type_for_name defined name r).1
  type_for_name-Grows name r v =
      let one = register_unless-Grows (contains name r.names_to_types) r v in
      unfold type_for_name in
      bind_keeps (Grows r) (register_unless defined (contains name r.names_to_types)) _ r one
        (λ _ t e. rw e one)

  pub name_for_type-Grows :
      (event : EventClass) (r : Registry) → IsValid r → Grows r (name_for_type defined event r).1
  name_for_type-Grows event r v =
      let one = register_unless-Grows (contains event r.types_to_names) r v in
      unfold name_for_type in
      bind_keeps (Grows r) (register_unless defined (contains event r.types_to_names)) _ r one
        (λ _ t e. rw e one)

  -- In every registry that can be reached the two dictionaries are inverse to one another, and
  -- each class that is registered has its encrypted fields.
  pub Reachable-IsValid : {r : Registry} → Reachable r → IsValid r
  unfolding new_registry
  Reachable-IsValid made =
      (register_defined_events-Grows defined empty_registry IsValid-empty).valid
  Reachable-IsValid (added {r} h event) = (add-Grows event r (Reachable-IsValid h)).valid
  Reachable-IsValid (asked_type {r} h name) =
      (type_for_name-Grows name r (Reachable-IsValid h)).valid
  Reachable-IsValid (asked_name {r} h event) =
      (name_for_type-Grows event r (Reachable-IsValid h)).valid
