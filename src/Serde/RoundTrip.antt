-- ===== src/Serde/RoundTrip.antt =====
-- An event that has no encrypted field survives serialisation.
use python_event_sourcery.Prelude.{all, String, some, true, List, [], ◌∷◌, ◌≡◌, ◌∙◌, refl, arith}
use python_event_sourcery.Prelude.Dict.{lookup, lookup_congr}
use python_event_sourcery.Errors.{ok}
use python_event_sourcery.Exec.{continue}
use python_event_sourcery.StreamId.{StreamId, stream_id_same, stream_id_key, stream_id_refl}
use python_event_sourcery.Event.{RawEvent, Event, WrappedEvent}
use python_event_sourcery.Event.Class.{EventClass}
use python_event_sourcery.Registry.{Registry, class_same, class_key}
use python_event_sourcery.Registry.Growth.{Reachable, Reachable-IsValid}
use python_event_sourcery.Registry.Lookup.{type_for_name-known, name_for_type-known}
use python_event_sourcery.Encryption.Plain.{encrypt-plain, decrypt-plain, encrypted_fields_of-found}
use python_event_sourcery.Serde.{
  Setting, encrypt_data, decrypt_data, serialize, deserialize, for_each, serialize_many,
  deserialize_many,
}

-- The registry knows the class of an event, under a name, and finds no encrypted field in it.
pub record IsPlain (r : Registry) (cls : EventClass) : Type 0 where
  pub name : String
  pub known : lookup cls r.types_to_names ≡ some name
  pub no_fields : lookup cls r.encrypted_fields ≡ some []

-- The constructor of the class makes the event again of its own dump. (The key of a class is its
-- identity.)
unfoldable pub IsRebuilt : Setting → Event → Type 0
IsRebuilt setting event =
    (c : EventClass)
    → class_same c event.event_type ≡ true
    → setting.construct c event.attributes ≡ ok event

-- The raw event that a plain event becomes.
abbrev pub raw_of : String → WrappedEvent → StreamId → RawEvent
raw_of name event sid = record {
  uuid = event.uuid;
  stream_id = sid;
  created_at = event.created_at;
  name = name;
  data_fields = event.event.attributes;
  context = event.context;
  version = event.version;
}

module _ (setting : Setting) (r : Registry) where
  -- Every event of a list is plain and rebuilt.
  pub data AllPlain : List WrappedEvent → Type 0 where
    no_events : AllPlain []
    one_more :
        {event : WrappedEvent} {rest : List WrappedEvent}
        → IsPlain r event.event.event_type
        → IsRebuilt setting event.event
        → AllPlain rest
        → AllPlain (event ∷ rest)

module _ (setting : Setting) {r : Registry} (reached : Reachable setting.defined r) where
  pub serialize-plain :
      (event : WrappedEvent) (sid : StreamId) (plain : IsPlain r event.event.event_type)
      → serialize setting event sid r ≡ (ok (raw_of plain.name event sid), r)
  unfolding serialize encrypt_data
  serialize-plain event sid plain =
      rw
        (
          name_for_type-known setting.defined event.event.event_type r plain.name plain.known,
          continue,
          encrypt-plain setting.cipher setting.key_storage r event.event sid
              (encrypted_fields_of-found event.event.event_type r plain.no_fields),
        )
        refl

  pub deserialize-plain :
      (event : WrappedEvent) (sid : StreamId) (plain : IsPlain r event.event.event_type)
      → IsRebuilt setting event.event
      → deserialize setting (raw_of plain.name event sid) r ≡ (ok event, r)
  unfolding deserialize decrypt_data IsRebuilt
  deserialize-plain event sid plain rebuilt =
      let valid = Reachable-IsValid setting.defined reached in
      let (c, found, same) = valid.named event.event.event_type plain.name plain.known in
      let fields : lookup c r.encrypted_fields ≡ some [] =
        lookup_congr c event.event.event_type r.encrypted_fields same ∙ plain.no_fields in
      rw
        (
          type_for_name-known setting.defined plain.name r c found,
          continue,
          decrypt-plain setting.cipher setting.key_storage r c event.event.attributes sid
              (encrypted_fields_of-found c r fields),
          rebuilt c same,
        )
        refl

  -- In a registry that can be reached, events without encrypted fields whose classes are registered
  -- and rebuild their events are serialised, as many as there are and all for the stream, and what
  -- is serialised deserialises to the events; the registry stays as it is.
  pub deserialize_many-serialize_many :
      (events : List WrappedEvent) (sid : StreamId)
      → AllPlain setting r events
      → (raws : List RawEvent) × (serialize_many setting events sid r ≡ (ok raws, r))
        × (all (λ e. stream_id_same sid e.stream_id) raws ≡ true)
        × (deserialize_many setting raws r ≡ (ok events, r))
  unfolding serialize_many deserialize_many for_each
  deserialize_many-serialize_many [] sid no_events = ([], refl, refl, refl)
  deserialize_many-serialize_many (event ∷ rest) sid (one_more plain rebuilt others) =
      let (raws, written, mine, read) = deserialize_many-serialize_many rest sid others in
      (
        raw_of plain.name event sid ∷ raws,
        rw (serialize-plain event sid plain, continue, written) refl,
        ground (arith, stream_id_refl sid),
        rw (deserialize-plain event sid plain rebuilt, continue, read) refl,
      )
