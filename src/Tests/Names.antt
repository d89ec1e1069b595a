-- ===== src/Tests/Names.antt =====
-- The registry, the serde, identifiers and listeners.
use python_event_sourcery.Prelude.{
  ◌+◌, ℕ, all, string_key, option_key, pair_key, String, none, some, Bool, true, List, [], ◌∷◌,
  ◌++◌, ◌||◌, ◌&&◌, ◌≡◌, refl, ◌==◌, nat_key,
}
use python_event_sourcery.Prelude.Dict.{lookup, insert}
use python_event_sourcery.Errors.{Result, ok}
use python_event_sourcery.StreamId.{stream_id_same}
use python_event_sourcery.Event.{RawEvent, RecordedRaw, Recorded, Event, WrappedEvent}
use python_event_sourcery.Event.Json.{Json, end}
use python_event_sourcery.Event.Class.{
  EventClass, no_hints, event_name, get_encrypted_fields, get_data_subject_filed,
}
use python_event_sourcery.Registry.{
  Registry, Subclasses, no_more, subclass, class_same, class_key, new_registry, type_for_name,
  name_for_type,
}
use python_event_sourcery.Registry.Growth.{Reachable, made}
use python_event_sourcery.Registry.Lookup.{now, type_for_name-name_for_type, type_for_name-Later}
use python_event_sourcery.Encryption.{Cipher, decrypt}
use python_event_sourcery.Serde.{Setting, serialize_many, deserialize_many, deserialize_record}
use python_event_sourcery.Serde.RoundTrip.{
  IsPlain, IsRebuilt, AllPlain, no_events, one_more, deserialize_many-serialize_many,
}
use python_event_sourcery.InTransaction.{
  Listeners, Dispatching, event_type, category, member, set_add, of_category, register, targets,
  dispatch,
}
use python_event_sourcery.InTransaction.Once.{occurrences, note, occurrences-dispatch}
use python_event_sourcery.InTransaction.Targets.{IsOfIdentity, matches, targets-register}
use python_event_sourcery.InMemory.Strategy
use python_event_sourcery.InMemory.Storage.{has_stream}
use python_event_sourcery.InMemory.Strategy.{Strategy, new_strategy}
use python_event_sourcery.EventStore.{Store, version, load_stream, append}
use python_event_sourcery.EventStore.OverMemory.{in_memory}
use python_event_sourcery.EventStore.LoadStream.{load_stream-append}
use python_event_sourcery.Tests.Data.{
  order_stream, keep, all_events, empty_backend, empty_backend-IsValid,
}

abbrev pub placed : EventClass
placed = record {
  ident = 7;
  event_name_attribute = none;
  module_name = some "shop";
  qualname = "Placed";
  hints = no_hints;
  model_fields = [];
}

abbrev pub defined : Subclasses
defined = subclass placed no_more no_more

abbrev pub registry : Registry
registry = (new_registry defined).1

reached : Reachable defined registry
reached = made

abbrev pub placed_name : String
placed_name = "shop.Placed"

name_found : name_for_type defined placed registry ≡ (ok placed_name, registry)
unfolding name_for_type new_registry event_name get_encrypted_fields get_data_subject_filed lookup
    insert
name_found = refl

type_found : type_for_name defined placed_name registry ≡ (ok placed, registry)
unfolding type_for_name new_registry event_name get_encrypted_fields get_data_subject_filed lookup
    insert
type_found = refl

named_back :
    (c : EventClass) × (type_for_name defined placed_name registry ≡ (ok c, registry))
    × (class_same c placed ≡ true)
named_back = type_for_name-name_for_type defined reached placed placed_name registry name_found

still_found : type_for_name defined placed_name registry ≡ (ok placed, registry)
still_found = type_for_name-Later defined reached placed_name placed type_found now

-- A cipher that does nothing, and `json.loads` that reads nothing.
abbrev pub plain_text : Json → String → Result Json
plain_text v key = ok v

abbrev pub no_cipher : Cipher
no_cipher = record {
  encipher = λ t key. t;
  decipher = plain_text;
  loads = λ t. none;
  dumps = λ v. "";
}

abbrev pub order_placed : Event
order_placed = record { event_type = placed; attributes = end }

abbrev pub setting : Setting
setting = record {
  cipher = no_cipher;
  key_storage = record { keys = []; tenant_id = "" };
  defined = defined;
  construct = λ cls d. ok (record { event_type = placed; attributes = d });
}

abbrev pub wrapped : WrappedEvent
wrapped = record {
  event = order_placed;
  version = some 1;
  uuid = 1;
  created_at = 100;
  context = end;
}

is_plain : IsPlain registry placed
unfolding new_registry event_name get_encrypted_fields get_data_subject_filed lookup insert
is_plain = record { name = placed_name; known = refl; no_fields = refl }

rebuilt : IsRebuilt setting order_placed
unfolding IsRebuilt
rebuilt c same = refl

all_plain : AllPlain setting registry (wrapped ∷ [])
all_plain = one_more is_plain rebuilt no_events

serde_round_trip :
    (raws : List RawEvent) × (serialize_many setting (wrapped ∷ []) order_stream registry
      ≡ (ok raws, registry))
    × (all (λ e. stream_id_same order_stream e.stream_id) raws ≡ true)
    × (deserialize_many setting raws registry ≡ (ok (wrapped ∷ []), registry))
serde_round_trip =
    deserialize_many-serialize_many setting reached (wrapped ∷ []) order_stream all_plain

abbrev pub store : Store (Strategy (List RecordedRaw))
store = record { strategy = empty_backend; registry = registry }

nothing_yet :
    load_stream (in_memory all_events keep) setting order_stream none none store ≡ (ok [], store)
unfolding load_stream in_memory new_strategy lookup Strategy.fetch_events deserialize_many
nothing_yet = refl

abbrev appended : Store (Strategy (List RecordedRaw))
appended =
    (append (in_memory all_events keep) setting (wrapped ∷ []) order_stream (version 0) store).1

loaded_back :
    load_stream (in_memory all_events keep) setting order_stream none none appended
    ≡ (ok ([] ++ (wrapped ∷ [])), appended)
unfolding append in_memory new_strategy lookup has_stream
loaded_back =
    load_stream-append all_events keep setting (wrapped ∷ []) [] order_stream (version 0) store
      (some 1) reached empty_backend-IsValid refl refl all_plain nothing_yet

abbrev same_class : EventClass → EventClass → Bool
same_class cls c = class_same c cls

identity : IsOfIdentity same_class
unfolding IsOfIdentity
identity cls c d h = class_key.same_cong c d cls h

abbrev nobody : Listeners
nobody = record { to_event_types = []; to_categories = [] }

one_listener :
    member 3 (targets same_class placed "orders" (register 3 (event_type placed) nobody))
    ≡ member 3 (targets same_class placed "orders" nobody)
      || ((◌==◌ {K = ℕ} 3 3) && matches same_class (event_type placed) placed "orders")
one_listener = targets-register same_class identity (event_type placed) placed "orders" 3 3 nobody

abbrev placed_raw : RecordedRaw
placed_raw = record {
  entry = record {
    uuid = 1;
    stream_id = order_stream;
    created_at = 100;
    name = placed_name;
    data_fields = end;
    context = end;
    version = some 1;
  };
  position = 1;
  tenant_id = "";
}

abbrev placed_recorded : Recorded
placed_recorded = record {
  wrapped_event = wrapped;
  stream_id = order_stream;
  position = 1;
  tenant_id = "";
}

-- A listener that is registered to the class and to the category
abbrev registered_twice : Dispatching (List ℕ)
registered_twice = record {
  listeners = register 3 (category "orders") (register 3 (event_type placed) nobody);
  registry = registry;
  world = [];
}

placed_read : (deserialize_record setting placed_raw registry).0 ≡ ok placed_recorded
unfolding deserialize_record type_for_name new_registry event_name get_encrypted_fields
    get_data_subject_filed lookup insert decrypt
placed_read = refl

called_once :
    occurrences 3
      (dispatch setting same_class (λ l. l) note (placed_raw ∷ []) registered_twice).1.world
    ≡ occurrences 3 [] + 1
unfolding register set_add of_category lookup insert member
called_once =
    occurrences-dispatch setting same_class (λ l. l) (λ x l. refl) placed_raw placed_recorded
      registered_twice 3 placed_read
