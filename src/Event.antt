-- ===== src/Event.antt =====
-- event_sourcery/_event_store/event/dto.py: the records in which events travel. Times are numbers
-- of microseconds. An event instance is its class with its `model_dump(mode="json")`, and a
-- `Context` is its dump.
pub mod Json
pub mod Class
use python_event_sourcery.Prelude.{
  ℕ, String, Option, none, some, Bool, ◌&&◌, Key, ◌==◌, nat_key, string_key, option_key,
}
use python_event_sourcery.StreamId.{StreamId, TenantId, stream_id_key}
use Json.{Fields, end}
use Class.{EventClass}

pub record RawEvent : Type 0 where
  pub uuid : ℕ
  pub stream_id : StreamId
  pub created_at : ℕ
  pub name : String
  pub data_fields : Fields
  pub context : Fields
  pub version : Option ℕ

pub record RecordedRaw : Type 0 where
  pub entry : RawEvent
  pub position : ℕ
  pub tenant_id : TenantId

pub record Event : Type 0 where
  pub event_type : EventClass
  pub attributes : Fields

pub record WrappedEvent : Type 0 where
  pub event : Event
  pub version : Option ℕ
  pub uuid : ℕ
  pub created_at : ℕ
  pub context : Fields

pub record Recorded : Type 0 where
  pub wrapped_event : WrappedEvent
  pub stream_id : StreamId
  pub position : ℕ
  pub tenant_id : TenantId

-- The dump of `Context()`.
abbrev pub empty_context : Fields
empty_context = end

-- What `uuid4()` and `datetime.now()` give to a new wrapper.
pub record Stamp : Type 0 where
  pub fresh_uuid : ℕ
  pub now : ℕ

abbrev pub context_or_empty : Option Fields → Fields
context_or_empty none = empty_context
context_or_empty (some c) = c

-- `WrappedEvent.wrap`
unfoldable pub wrap : Stamp → Event → Option ℕ → Option Fields → WrappedEvent
wrap stamp event version context = record {
  event = event;
  version = version;
  uuid = stamp.fresh_uuid;
  created_at = stamp.now;
  context = context_or_empty context;
}

-- The comparison of `RecordedRaw` that `dataclass` generates, over the one of `dict` for the data
-- and the context.
module _ ⦃dict_key : Key Fields⦄ where
  abbrev pub raw_event_same : RawEvent → RawEvent → Bool
  raw_event_same a b =
      (a.uuid == b.uuid)
      && ((a.stream_id == b.stream_id)
          && ((a.created_at == b.created_at)
              && ((a.name == b.name)
                  && ((a.data_fields == b.data_fields)
                      && ((a.context == b.context) && (a.version == b.version))))))

  abbrev pub recorded_same : RecordedRaw → RecordedRaw → Bool
  recorded_same a b =
      raw_event_same a.entry b.entry && ((a.position == b.position) && (a.tenant_id == b.tenant_id))
