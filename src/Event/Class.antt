-- ===== src/Event/Class.antt =====
-- What event_sourcery/_event_store/event/registry.py reads off a class by reflection, and its three
-- functions `event_name`, `get_encrypted_fields` and `get_data_subject_filed` (so spelled there).
-- A dotted name of a nested field, `field.nested`, is the list of its parts.
use Prim.Native.String.{◌++◌ as str_append}
use python_event_sourcery.Prelude.{
  ℕ, String, Option, none, some, Bool, true, false, List, [], ◌∷◌, if◌then◌else◌, string_key,
  list_key,
}
use python_event_sourcery.Prelude.Dict.{Dict, insert}
use python_event_sourcery.Errors.{Result, ok, err, class_module_unavailable}
use python_event_sourcery.StreamId.{truthy}
use python_event_sourcery.Event.Json.{Json}

abbrev pub FieldPath : Type 0
FieldPath = List String

-- `Encrypted`
pub record Encrypted : Type 0 where
  pub mask_value : Json
  pub subject_field : Option String

pub data Metadata : Type 0 where
  data_subject : Metadata
  encrypted : Encrypted → Metadata
  any : Metadata

-- A type hint: a class with hints of its own, `Annotated[…]` with its metadata, or any other form.
mutual
  pub data Hint : Type 0 where
    class : Hints → Hint
    annotated : List Metadata → Hint
    other : Hint

  pub data Hints : Type 0 where
    no_hints : Hints
    hint : String → Hint → Hints → Hints

pub record EventClass : Type 0 where
  pub ident : ℕ
  pub event_name_attribute : Option String
  pub module_name : Option String
  pub qualname : String
  pub hints : Hints
  pub model_fields : List (String × List Metadata)

dotted : Option String → String → Result String
dotted none qualname = err class_module_unavailable
dotted (some m) qualname = ok (str_append m (str_append "." qualname))

name_or_dotted : Option String → EventClass → Result String
unfolding dotted
name_or_dotted (some n) cls = ok n
name_or_dotted none cls = dotted cls.module_name cls.qualname

unfoldable pub event_name : EventClass → Result String
unfolding name_or_dotted
event_name cls = name_or_dotted (truthy cls.event_name_attribute) cls

-- `next((m for m in metadata if isinstance(m, Encrypted)), None)`
abbrev pub first_encrypted : List Metadata → Option Encrypted
first_encrypted [] = none
first_encrypted (encrypted e ∷ rest) = some e
first_encrypted (data_subject ∷ rest) = first_encrypted rest
first_encrypted (any ∷ rest) = first_encrypted rest

-- `{f"{field}.{nested}": encrypted for nested, encrypted in …}`
under : String → Dict FieldPath Encrypted → Dict FieldPath Encrypted
under f [] = []
under f ((path, e) ∷ rest) = (f ∷ path, e) ∷ under f rest

-- `d.update(e)`
update : Dict FieldPath Encrypted → Dict FieldPath Encrypted → Dict FieldPath Encrypted
update d [] = d
update d ((path, e) ∷ rest) = update (insert path e d) rest

add_encrypted : Option Encrypted → String → Dict FieldPath Encrypted → Dict FieldPath Encrypted
add_encrypted none f fields = fields
add_encrypted (some e) f fields = insert (f ∷ []) e fields

-- The loop of `get_encrypted_fields` over the hints, and its body, on the `fields` gathered so far.
mutual
  unfolding under update add_encrypted

  encrypted_loop : Hints → Dict FieldPath Encrypted → Dict FieldPath Encrypted
  encrypted_loop no_hints fields = fields
  encrypted_loop (hint f h rest) fields = encrypted_loop rest (encrypted_step h f fields)

  encrypted_step : Hint → String → Dict FieldPath Encrypted → Dict FieldPath Encrypted
  encrypted_step (class hints) f fields = update fields (under f (encrypted_loop hints []))
  encrypted_step (annotated metadata) f fields = add_encrypted (first_encrypted metadata) f fields
  encrypted_step other f fields = fields

unfoldable pub get_encrypted_fields : EventClass → Dict FieldPath Encrypted
unfolding encrypted_loop
get_encrypted_fields of = encrypted_loop of.hints []

has_data_subject : List Metadata → Bool
has_data_subject [] = false
has_data_subject (data_subject ∷ rest) = true
has_data_subject (encrypted e ∷ rest) = has_data_subject rest
has_data_subject (any ∷ rest) = has_data_subject rest

first_subject : List (String × List Metadata) → Option String
unfolding has_data_subject
first_subject [] = none
first_subject ((name, metadata) ∷ rest) =
    if has_data_subject metadata then some name else first_subject rest

unfoldable pub get_data_subject_filed : EventClass → Option String
unfolding first_subject
get_data_subject_filed of = first_subject of.model_fields
