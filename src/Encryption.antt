-- ===== src/Encryption.antt =====
-- event_sourcery/_event_store/event/encryption.py, with `InMemoryKeyStorage` of
-- event_sourcery/_event_store/in_memory.py. The cipher and the JSON text format are parameters.
-- A field of an event is read in its dumped form, a dotted name as the list of its parts.
pub mod Values
pub mod Shred
pub mod Plain
use python_event_sourcery.Prelude.{
  ℕ, zero, suc, String, Option, none, some, Bool, true, false, List, [], ◌∷◌, if◌then◌else◌, ◌==◌,
  string_key, pair_key,
}
use python_event_sourcery.Prelude.Dict.{Dict, lookup, insert, remove}
use python_event_sourcery.Errors.{
  Result, ok, err, ◌>>=◌, key_error, attribute_error, value_error, type_error, key_not_found,
  no_subject_id_found,
}
use python_event_sourcery.StreamId.{StreamId, TenantId, or_empty, truthy}
use python_event_sourcery.Event.{Event}
use python_event_sourcery.Event.Json.{
  ℤ, pos, negsuc, Json, null, boolean, number, text, array, object, Items, nil, cons, Fields, end,
  field, get_field, set_field,
}
use python_event_sourcery.Event.Class.{EventClass, Encrypted, FieldPath}
use python_event_sourcery.Registry.{Registry, encrypted_fields_of, subject_filed}

-- An `EncryptionStrategy`, and `json.loads`, where none is a `JSONDecodeError`, with `json.dumps`.
-- A key is the text of its bytes. A strategy may raise on what it did not encrypt.
pub record Cipher : Type 0 where
  pub encipher : String → String → String
  pub decipher : Json → String → Result Json
  pub loads : String → Option Json
  pub dumps : Json → String

-- `InMemoryKeyStorage`
pub record KeyStorage : Type 0 where
  pub keys : Dict (TenantId × String) String
  pub tenant_id : TenantId

unfoldable pub get_key : String → KeyStorage → Option String
get_key subject_id s = lookup (s.tenant_id, subject_id) s.keys

unfoldable pub store_key : String → String → KeyStorage → KeyStorage
store_key subject_id key s = record s { keys = insert (s.tenant_id, subject_id) key s.keys }

unfoldable pub delete_key : String → KeyStorage → KeyStorage
delete_key subject_id s = record s { keys = remove (s.tenant_id, subject_id) s.keys }

-- A new object over the same dictionary.
unfoldable pub scoped_key_storage : TenantId → KeyStorage → KeyStorage
scoped_key_storage tenant s = record { keys = s.keys; tenant_id = tenant }

or_key_error : Option Json → Result Json
or_key_error none = err key_error
or_key_error (some v) = ok v

-- `NestedDict(v)`, which copies a dictionary, takes `None` and what is empty for an empty one, and
-- raises what `dict.update` does. (A list of pairs, which that would take too, is refused here.)
as_fields : Json → Result Fields
as_fields (object d) = ok d
as_fields null = ok end
as_fields (boolean b) = err type_error
as_fields (number n) = err type_error
as_fields (text t) = if t == "" then ok end else err value_error
as_fields (array nil) = ok end
as_fields (array (cons x xs)) = err value_error

-- The value whose item is assigned.
as_assignable : Json → Result Fields
as_assignable (object d) = ok d
as_assignable null = err type_error
as_assignable (boolean b) = err type_error
as_assignable (number n) = err type_error
as_assignable (text t) = err type_error
as_assignable (array xs) = err type_error

-- `NestedDict.__getitem__`
unfoldable pub get_path : FieldPath → Fields → Result Json
unfolding or_key_error as_fields
get_path [] d = err key_error
get_path (k ∷ []) d = or_key_error (get_field k d)
get_path (k ∷ j ∷ rest) d = do
  v ← or_key_error (get_field k d)
  inner ← as_fields v
  get_path (j ∷ rest) inner

-- `NestedDict.__setitem__`: it writes into the inner dictionary, which the outer one holds.
unfoldable pub set_path : FieldPath → Json → Fields → Result Fields
unfolding or_key_error as_fields as_assignable
set_path [] v d = err key_error
set_path (k ∷ []) v d = ok (set_field k v d)
set_path (k ∷ j ∷ []) v d = do
  old ← or_key_error (get_field k d)
  inner ← as_assignable old
  ok (set_field k (object (set_field j v inner)) d)
set_path (k ∷ j ∷ l ∷ rest) v d = do
  old ← or_key_error (get_field k d)
  inner ← as_fields old
  written ← set_path (j ∷ l ∷ rest) v inner
  ok (set_field k (object written) d)

-- Python's truth of a value.
abbrev pub is_true : Json → Bool
is_true null = false
is_true (boolean b) = b
is_true (number (pos zero)) = false
is_true (number (pos (suc n))) = true
is_true (number (negsuc n)) = true
is_true (text t) = if t == "" then false else true
is_true (array nil) = false
is_true (array (cons x xs)) = true
is_true (object end) = false
is_true (object (field k v rest)) = true

-- `self.key_storage.get(subject_id)`: only a text can be the key of a subject.
abbrev pub key_of : Json → KeyStorage → Option String
key_of (text subject_id) s = get_key subject_id s
key_of null s = none
key_of (boolean b) s = none
key_of (number n) s = none
key_of (array xs) s = none
key_of (object d) s = none

-- `match value: case str(): … case _: …`
unfoldable pub serialized : Cipher → Json → String
serialized c (text t) = t
serialized c null = c.dumps null
serialized c (boolean b) = c.dumps (boolean b)
serialized c (number n) = c.dumps (number n)
serialized c (array xs) = c.dumps (array xs)
serialized c (object d) = c.dumps (object d)

-- `try: json.loads(decrypted) except (JSONDecodeError, TypeError): decrypted`
abbrev pub loads_or_text : Cipher → String → Json
loads_or_text c t = elim (c.loads t) [ none ↦ text t | some v ↦ v ]

unfoldable pub loads_or_same : Cipher → Json → Json
loads_or_same c (text t) = loads_or_text c t
loads_or_same c null = null
loads_or_same c (boolean b) = boolean b
loads_or_same c (number n) = number n
loads_or_same c (array xs) = array xs
loads_or_same c (object d) = object d

module _ (c : Cipher) (storage : KeyStorage) where
  unfoldable pub encrypt_value : Json → Json → Result Json
  encrypt_value value subject_id = elim (key_of subject_id storage) [
    | none ↦ err key_not_found
    | some key ↦ ok (text (c.encipher (serialized c value) key))
  ]

  unfoldable pub decrypt_value : Json → Json → Json → Result Json
  decrypt_value value subject_id mask_value = elim (key_of subject_id storage) [
    | none ↦ ok mask_value
    | some key ↦ (do decrypted ← c.decipher value key; ok (loads_or_same c decrypted))
  ]

-- `stream_id.name`
name_subject : Option String → Option Json
name_subject none = none
name_subject (some n) = some (text n)

-- `… or stream_id.name`
or_name : Json → StreamId → Option Json
unfolding name_subject
or_name v sid = if is_true v then some v else name_subject sid.name

-- `getattr(event, subject_field)`
attribute : String → Fields → Result Json
unfolding get_field
attribute f d = elim (get_field f d) [ none ↦ err attribute_error | some v ↦ ok v ]

-- `(subject_field and getattr(event, subject_field)) or stream_id.name`
encryption_subject : Option String → Event → StreamId → Result (Option Json)
unfolding or_name name_subject attribute
encryption_subject none event sid = ok (name_subject sid.name)
encryption_subject (some f) event sid = do v ← attribute f event.attributes; ok (or_name v sid)

-- `if subject_id is None: raise NoSubjectIdFound(stream_id)`
required_subject : Option Json → StreamId → Result Json
required_subject none sid = err (no_subject_id_found sid.uuid)
required_subject (some v) sid = ok v

-- `data[subject_field] if subject_field else stream_id.name or ""`
decryption_subject : Option String → Fields → StreamId → Result Json
unfolding or_key_error get_field
decryption_subject none d sid = ok (text (or_empty sid.name))
decryption_subject (some f) d sid = or_key_error (get_field f d)

module _ (c : Cipher) (storage : KeyStorage) (registry : Registry) where
  -- The loop of `encrypt` over the names of the encrypted fields.
  encrypt_loop : Dict FieldPath Encrypted → Event → StreamId → Fields → Result Fields
  unfolding encryption_subject required_subject encrypt_value get_path set_path
  encrypt_loop [] event sid d = ok d
  encrypt_loop ((path, config) ∷ rest) event sid d = do
    subject_field ← subject_filed path event.event_type registry
    found ← encryption_subject (truthy subject_field) event sid
    subject_id ← required_subject found sid
    value ← get_path path d
    encrypted ← encrypt_value c storage value subject_id
    written ← set_path path encrypted d
    encrypt_loop rest event sid written

  unfoldable pub encrypt : Event → StreamId → Result Fields
  unfolding encrypt_loop encrypted_fields_of serialized get_key
  encrypt event sid = do
    fields ← encrypted_fields_of event.event_type registry
    encrypt_loop fields event sid event.attributes

  -- The loop of `decrypt` over the encrypted fields.
  decrypt_loop : Dict FieldPath Encrypted → EventClass → StreamId → Fields → Result Fields
  unfolding decryption_subject decrypt_value get_path set_path
  decrypt_loop [] event_type sid d = ok d
  decrypt_loop ((path, config) ∷ rest) event_type sid d = do
    subject_field ← subject_filed path event_type registry
    subject_id ← decryption_subject (truthy subject_field) d sid
    value ← get_path path d
    decrypted ← decrypt_value c storage value subject_id config.mask_value
    written ← set_path path decrypted d
    decrypt_loop rest event_type sid written

  unfoldable pub decrypt : EventClass → Fields → StreamId → Result Fields
  unfolding decrypt_loop encrypted_fields_of loads_or_same get_key
  decrypt event_type raw sid = do
    fields ← encrypted_fields_of event_type registry
    decrypt_loop fields event_type sid raw

-- `shred`
unfoldable pub shred : String → KeyStorage → KeyStorage
unfolding delete_key
shred subject_id storage = delete_key subject_id storage
