-- ===== src/Registry/Valid.antt =====
-- The two dictionaries of the registry are inverse to one another.
use python_event_sourcery.Prelude.{
  String, none, some, true, is_some, ◌≡◌, arith, nat_key, string_key, string_iff, Bool-cases, inl,
  inr,
}
use python_event_sourcery.Prelude.Dict.{lookup, lookup-insert, lookup-insert_self, lookup_congr}
use python_event_sourcery.Event.Class.{EventClass, get_encrypted_fields}
use python_event_sourcery.Registry.{Registry, empty_registry, class_same, class_key, enter}

pub record IsValid (r : Registry) : Type 0 where
  -- A class is found again by its name.
  pub named :
      (c : EventClass) (n : String)
      → lookup c r.types_to_names ≡ some n
      → (d : EventClass) × (lookup n r.names_to_types ≡ some d) × (class_same d c ≡ true)
  -- A name is that of the class found by it.
  pub typed :
      (n : String) (c : EventClass)
      → lookup n r.names_to_types ≡ some c
      → lookup c r.types_to_names ≡ some n
  pub has_fields :
      (c : EventClass)
      → is_some (lookup c r.types_to_names) ≡ true
      → is_some (lookup c r.encrypted_fields) ≡ true

pub IsValid-empty : IsValid empty_registry
unfolding lookup
IsValid-empty = record { named = λ c n h. cc; typed = λ n c h. cc; has_fields = λ c h. cc }

module _ (event : EventClass) (name : String) (r : Registry) (v : IsValid r)
    (new_type : lookup event r.types_to_names ≡ none)
    (new_name : lookup name r.names_to_types ≡ none) where
  enter-named :
      (c : EventClass) (n : String)
      → lookup c (enter event name r).types_to_names ≡ some n
      → (d : EventClass) × (lookup n (enter event name r).names_to_types ≡ some d)
        × (class_same d c ≡ true)
  unfolding enter
  enter-named c n h = elim (Bool-cases (class_same event c)) [
    | inl mine ↦
        let e : name ≡ n = ground (arith, lookup-insert event c name r.types_to_names) in
        (event, rw (← e) (lookup-insert_self name event r.names_to_types), mine)
    | inr other ↦
        let old : lookup c r.types_to_names ≡ some n =
          ground (arith, lookup-insert event c name r.types_to_names) in
        let (d, found, same) = v.named c n old in
        (
          d,
          ground (
            arith,
            lookup-insert name n event r.names_to_types,
            lookup_congr name n r.names_to_types,
          ),
          same,
        )
  ]

  enter-typed :
      (n : String) (c : EventClass)
      → lookup n (enter event name r).names_to_types ≡ some c
      → lookup c (enter event name r).types_to_names ≡ some n
  unfolding enter
  enter-typed n c h = elim (Bool-cases (string_key.same name n)) [
    | inl mine ↦
        let e : name ≡ n = (string_iff name n).0 mine in
        let c_is : event ≡ c = ground (arith, lookup-insert name n event r.names_to_types) in
        rw (← c_is, ← e) (lookup-insert_self event name r.types_to_names)
    | inr other ↦
        let found : lookup n r.names_to_types ≡ some c =
          ground (arith, lookup-insert name n event r.names_to_types) in
        let old = v.typed n c found in
        ground (
          arith,
          lookup-insert event c name r.types_to_names,
          lookup_congr event c r.types_to_names,
        )
  ]

  pub enter-IsValid : IsValid (enter event name r)
  enter-IsValid = record {
    named = enter-named;
    typed = enter-typed;
    has_fields = λ c h.
        unfold enter in
        ground (
          arith,
          v.has_fields c,
          lookup-insert event c name r.types_to_names,
          lookup-insert event c (get_encrypted_fields event) r.encrypted_fields,
        );
  }
