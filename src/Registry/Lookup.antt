-- ===== src/Registry/Lookup.antt =====
-- What the registry answers: names and types invert one another, and an answer never changes.
use python_event_sourcery.Prelude.{String, some, true, ◌≡◌, subst, ap, arith, string_key}
use python_event_sourcery.Prelude.Dict.{lookup, contains}
use python_event_sourcery.Errors.{ok}
use python_event_sourcery.Exec.{continue-eq_ok}
use python_event_sourcery.Event.Class.{EventClass}
use python_event_sourcery.Registry.{
  Registry, Subclasses, class_same, class_key, or_key_error, register_unless, type_for_name,
  name_for_type, add,
}
use python_event_sourcery.Registry.Valid.{IsValid}
use python_event_sourcery.Registry.Growth.{
  Grows, Grows-refl, Grows-trans, Reachable, Reachable-IsValid, add-Grows, type_for_name-Grows,
  name_for_type-Grows,
}

module _ (defined : Subclasses) where
  type_for_name-found :
      (name : String) (r t : Registry) (c : EventClass)
      → type_for_name defined name r ≡ (ok c, t)
      → lookup name t.names_to_types ≡ some c
  unfolding type_for_name
  type_for_name-found name r t c h =
      let s = register_unless defined (contains name r.names_to_types) r in
      let (a, passed, answered) =
        continue-eq_ok s.0 (λ _ u. (or_key_error (lookup name u.names_to_types), u)) s.1 h in
      let same : s.1 ≡ t = cc (answered) in
      let got : or_key_error (lookup name s.1.names_to_types) ≡ ok c = cc (answered) in
      ground (arith, ap (λ u. lookup name u.names_to_types) same)

  name_for_type-found :
      (event : EventClass) (r t : Registry) (n : String)
      → name_for_type defined event r ≡ (ok n, t)
      → lookup event t.types_to_names ≡ some n
  unfolding name_for_type
  name_for_type-found event r t n h =
      let s = register_unless defined (contains event r.types_to_names) r in
      let (a, passed, answered) =
        continue-eq_ok s.0 (λ _ u. (or_key_error (lookup event u.types_to_names), u)) s.1 h in
      let same : s.1 ≡ t = cc (answered) in
      let got : or_key_error (lookup event s.1.types_to_names) ≡ ok n = cc (answered) in
      ground (arith, ap (λ u. lookup event u.types_to_names) same)

  pub type_for_name-known :
      (name : String) (r : Registry) (c : EventClass)
      → lookup name r.names_to_types ≡ some c
      → type_for_name defined name r ≡ (ok c, r)
  unfolding type_for_name register_unless
  type_for_name-known name r c h = rw h (ap (λ o. (or_key_error o, r)) h)

  pub name_for_type-known :
      (event : EventClass) (r : Registry) (n : String)
      → lookup event r.types_to_names ≡ some n
      → name_for_type defined event r ≡ (ok n, r)
  unfolding name_for_type register_unless
  name_for_type-known event r n h = rw h (ap (λ o. (or_key_error o, r)) h)

  -- In a registry that can be reached, the name that `name_for_type` returns for a class is
  -- answered by `type_for_name` with that class, and the lookup changes nothing.
  pub type_for_name-name_for_type :
      {r : Registry} (reached : Reachable defined r) (event : EventClass) (n : String)
      (t : Registry)
      → name_for_type defined event r ≡ (ok n, t)
      → (c : EventClass) × (type_for_name defined n t ≡ (ok c, t)) × (class_same c event ≡ true)
  type_for_name-name_for_type {r} reached event n t h =
      let grown = name_for_type-Grows defined event r (Reachable-IsValid defined reached) in
      let valid : IsValid t = subst IsValid (ap (λ p. p.1) h) grown.valid in
      let (c, found, same) = valid.named event n (name_for_type-found event r t n h) in
      (c, type_for_name-known n t c found, same)

  -- In a registry that can be reached, the class that `type_for_name` returns for a name is
  -- answered by `name_for_type` with that name, and the lookup changes nothing.
  name_for_type-type_for_name :
      {r : Registry} (reached : Reachable defined r) (name : String) (c : EventClass) (t : Registry)
      → type_for_name defined name r ≡ (ok c, t)
      → name_for_type defined c t ≡ (ok name, t)
  name_for_type-type_for_name {r} reached name c t h =
      let grown = type_for_name-Grows defined name r (Reachable-IsValid defined reached) in
      let valid : IsValid t = subst IsValid (ap (λ p. p.1) h) grown.valid in
      name_for_type-known c t name (valid.typed name c (type_for_name-found name r t c h))

  -- What clients make of a registry by adding classes, refused or not, and by lookups.
  pub data Later (r : Registry) : Registry → Type 0 where
    now : Later r r
    added : {t : Registry} → Later r t → (event : EventClass) → Later r (add event t).1
    asked_type :
        {t : Registry} → Later r t → (name : String) → Later r (type_for_name defined name t).1
    asked_name :
        {t : Registry}
        → Later r t
        → (event : EventClass) → Later r (name_for_type defined event t).1

  Later-Grows : {r t : Registry} → IsValid r → Later r t → Grows r t
  Later-Grows {r} v now = Grows-refl r v
  Later-Grows {r} v (added {t} h event) =
      let g = Later-Grows v h in Grows-trans g (add-Grows event t g.valid)
  Later-Grows {r} v (asked_type {t} h name) =
      let g = Later-Grows v h in Grows-trans g (type_for_name-Grows defined name t g.valid)
  Later-Grows {r} v (asked_name {t} h event) =
      let g = Later-Grows v h in Grows-trans g (name_for_type-Grows defined event t g.valid)

  -- A class that a registry in reach once returned for a name is what it returns for that name ever
  -- after, whatever is added or looked up in between.
  pub type_for_name-Later :
      {r : Registry} (reached : Reachable defined r) (name : String) (c : EventClass)
      {t u : Registry}
      → type_for_name defined name r ≡ (ok c, t)
      → Later t u
      → type_for_name defined name u ≡ (ok c, u)
  type_for_name-Later {r} reached name c {t} {u} h later =
      let grown = type_for_name-Grows defined name r (Reachable-IsValid defined reached) in
      let valid : IsValid t = subst IsValid (ap (λ p. p.1) h) grown.valid in
      let g = Later-Grows valid later in
      type_for_name-known name u c (g.extends.names name c (type_for_name-found name r t c h))
