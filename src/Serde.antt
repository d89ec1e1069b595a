-- ===== src/Serde.antt =====
-- event_sourcery/_event_store/event/serde.py. The constructor of an event class, which validates
-- the data, is a parameter, like the cipher; the registry is the state, since a lookup of a name
-- may register the classes that are defined.
pub mod RoundTrip
use python_event_sourcery.Prelude.{List, [], ◌∷◌}
use python_event_sourcery.Errors.{Result}
use python_event_sourcery.Exec.{Exec, ◌>>=◌, pure, lift}
use python_event_sourcery.StreamId.{StreamId}
use python_event_sourcery.Event.{RawEvent, RecordedRaw, Event, WrappedEvent, Recorded}
use python_event_sourcery.Event.Json.{Fields}
use python_event_sourcery.Event.Class.{EventClass}
use python_event_sourcery.Registry.{Registry, Subclasses, type_for_name, name_for_type}
use python_event_sourcery.Encryption.{Cipher, KeyStorage, encrypt, decrypt}

-- What a `Serde` is made with, and what the interpreter knows of the classes.
pub record Setting : Type 0 where
  pub cipher : Cipher
  pub key_storage : KeyStorage
  pub defined : Subclasses
  pub construct : EventClass → Fields → Result Event

-- `[f(x) for x in xs]`, where `f` reads and may change the registry
unfoldable pub for_each {ℓ κ μ} :
    {S : Type ℓ} {A : Type κ} {B : Type μ} → (A → Exec S B) → List A → Exec S (List B)
for_each f [] = pure []
for_each f (x ∷ xs) = do y ← f x; ys ← for_each f xs; pure (y ∷ ys)

module _ (setting : Setting) where
  encrypt_data : WrappedEvent → StreamId → Exec Registry Fields
  encrypt_data event sid r = (encrypt setting.cipher setting.key_storage r event.event sid, r)

  decrypt_data : EventClass → RawEvent → Exec Registry Fields
  decrypt_data event_type raw r =
      (decrypt setting.cipher setting.key_storage r event_type raw.data_fields raw.stream_id, r)

  unfoldable pub serialize : WrappedEvent → StreamId → Exec Registry RawEvent
  unfolding encrypt_data
  serialize event sid = do
    name ← name_for_type setting.defined event.event.event_type
    encrypted ← encrypt_data event sid
    pure (record {
      uuid = event.uuid;
      stream_id = sid;
      created_at = event.created_at;
      name = name;
      data_fields = encrypted;
      context = event.context;
      version = event.version;
    })

  unfoldable pub serialize_many : List WrappedEvent → StreamId → Exec Registry (List RawEvent)
  unfolding serialize for_each
  serialize_many events sid = for_each (λ event. serialize event sid) events

  unfoldable pub deserialize : RawEvent → Exec Registry WrappedEvent
  unfolding decrypt_data
  deserialize raw = do
    event_type ← type_for_name setting.defined raw.name
    processed ← decrypt_data event_type raw
    event ← lift (setting.construct event_type processed)
    pure (record {
      event = event;
      version = raw.version;
      uuid = raw.uuid;
      created_at = raw.created_at;
      context = raw.context;
    })

  unfoldable pub deserialize_many : List RawEvent → Exec Registry (List WrappedEvent)
  unfolding deserialize for_each
  deserialize_many events = for_each deserialize events

  unfoldable pub deserialize_record : RecordedRaw → Exec Registry Recorded
  unfolding deserialize
  deserialize_record recorded = do
    wrapped ← deserialize recorded.entry
    pure (record {
      wrapped_event = wrapped;
      stream_id = recorded.entry.stream_id;
      position = recorded.position;
      tenant_id = recorded.tenant_id;
    })
