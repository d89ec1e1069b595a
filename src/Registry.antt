-- ===== src/Registry.antt =====
-- `EventRegistry` of event_sourcery/_event_store/event/registry.py. A class is the key of a
-- dictionary by its identity; the classes that are defined are a tree of subclasses of `Event`.
pub mod Valid
pub mod Growth
pub mod Lookup
use python_event_sourcery.Prelude.{
  ℕ, String, Option, none, some, Bool, true, false, not, ◌&&◌, List, [], ◌≡◌, refl, if◌then◌else◌,
  Key, ◌==◌, nat_key, string_key, list_key,
}
use python_event_sourcery.Prelude.Dict.{Dict, lookup, insert, contains}
use python_event_sourcery.Errors.{Result, ok, err, duplicated_event, key_error}
use python_event_sourcery.Exec.{Exec, ◌>>=◌, ◌>>◌, lift, pure}
use python_event_sourcery.StreamId.{truthy}
use python_event_sourcery.Event.Class.{
  EventClass, Encrypted, FieldPath, event_name, get_encrypted_fields, get_data_subject_filed,
}

abbrev pub class_same : EventClass → EventClass → Bool
class_same a b = a.ident == b.ident

pub class_refl : (a : EventClass) → class_same a a ≡ true
class_refl a = nat_key.same_refl a.ident

pub class_symm : (a b : EventClass) → class_same a b ≡ class_same b a
class_symm a b = nat_key.same_symm a.ident b.ident

pub class_cong : (a b c : EventClass) → class_same a b ≡ true → class_same a c ≡ class_same b c
class_cong a b c = nat_key.same_cong a.ident b.ident c.ident

instance abbrev pub class_key : Key EventClass
class_key = record {
  same = class_same;
  same_refl = class_refl;
  same_symm = class_symm;
  same_cong = class_cong;
}

pub record Registry : Type 0 where
  pub types_to_names : Dict EventClass String
  pub names_to_types : Dict String EventClass
  pub encrypted_fields : Dict EventClass (Dict FieldPath Encrypted)
  pub subject_fields : Dict EventClass String

abbrev pub empty_registry : Registry
empty_registry = record {
  types_to_names = [];
  names_to_types = [];
  encrypted_fields = [];
  subject_fields = [];
}

-- `for_base.__subclasses__()`, each class with its own subclasses.
pub data Subclasses : Type 0 where
  no_more : Subclasses
  subclass : EventClass → Subclasses → Subclasses → Subclasses

-- `if subject_field is not None: self._subject_fields[event] = subject_field`
abbrev pub with_subject :
    EventClass → Option String → Dict EventClass String → Dict EventClass String
with_subject event none d = d
with_subject event (some f) d = insert event f d

-- The four writes of `add`.
unfoldable pub enter : EventClass → String → Registry → Registry
enter event name r = record {
  types_to_names = insert event name r.types_to_names;
  names_to_types = insert name event r.names_to_types;
  encrypted_fields = insert event (get_encrypted_fields event) r.encrypted_fields;
  subject_fields = with_subject event (get_data_subject_filed event) r.subject_fields;
}

add_named : EventClass → String → Exec Registry EventClass
unfolding enter
add_named event name r =
    if contains name r.names_to_types
    then (err (duplicated_event name), r)
    else (ok event, enter event name r)

unfoldable pub add : EventClass → Exec Registry EventClass
unfolding add_named
add event r =
    if contains event r.types_to_names
    then (err (duplicated_event event.qualname), r)
    else (lift (event_name event) >>= add_named event) r

-- The body of the loop of `_register_defined_events`: `and` calls `add` last, if at all.
register_named : EventClass → String → Exec Registry (Unit {0})
unfolding add
register_named event name r =
    if not (contains event r.types_to_names) && not (contains name r.names_to_types)
    then (add event >>= λ _. pure tt) r
    else (ok tt, r)

register_one : EventClass → Exec Registry (Unit {0})
unfolding register_named
register_one event = do name ← lift (event_name event); register_named event name

unfoldable pub register_defined_events : Subclasses → Exec Registry (Unit {0})
unfolding register_one
register_defined_events no_more = pure tt
register_defined_events (subclass event below rest) = do
  register_one event
  register_defined_events below
  register_defined_events rest

abbrev or_key_error {ℓ} : {A : Type ℓ} → Option A → Result A
or_key_error none = err key_error
or_key_error (some a) = ok a

module _ (defined : Subclasses) where
  -- `EventRegistry()`
  unfoldable pub new_registry : Result (Unit {0}) × Registry
  unfolding register_defined_events
  new_registry = register_defined_events defined empty_registry

  -- `if … not in …: self._register_defined_events(Event)`
  register_unless : Bool → Exec Registry (Unit {0})
  register_unless true = pure tt
  register_unless false = register_defined_events defined

  unfoldable pub type_for_name : String → Exec Registry EventClass
  unfolding register_unless register_defined_events
  type_for_name name r =
      (do
        register_unless (contains name r.names_to_types)
        λ s. (or_key_error (lookup name s.names_to_types), s))
        r

  unfoldable pub name_for_type : EventClass → Exec Registry String
  unfolding register_unless register_defined_events
  name_for_type event r =
      (do
        register_unless (contains event r.types_to_names)
        λ s. (or_key_error (lookup event s.types_to_names), s))
        r

-- `encrypted_fields(of)`
unfoldable pub encrypted_fields_of : EventClass → Registry → Result (Dict FieldPath Encrypted)
encrypted_fields_of of r = or_key_error (lookup of r.encrypted_fields)

-- `(metadata and metadata.subject_field) or self._subject_fields.get(of)`
own_subject : Option Encrypted → Option String
own_subject none = none
own_subject (some metadata) = truthy metadata.subject_field

abbrev pub or_else {ℓ} : {A : Type ℓ} → Option A → Option A → Option A
or_else (some a) b = some a
or_else none b = b

-- `subject_filed(for_field, of)`, so spelled there
unfoldable pub subject_filed : FieldPath → EventClass → Registry → Result (Option String)
unfolding encrypted_fields_of own_subject
subject_filed for_field of r = elim (encrypted_fields_of of r) [
  | err e ↦ err e
  | ok fields ↦ ok (or_else (own_subject (lookup for_field fields)) (lookup of r.subject_fields))
]
