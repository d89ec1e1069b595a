-- ===== src/Tables.antt =====
-- The tables of event_sourcery_sqlalchemy/models/base.py and event_sourcery_django/models.py, which
-- have the same columns, and the records that both packages make of their rows (dto.py). A table is
-- the list of its rows in the order of insertion, with the next number of its primary key. The
-- column with the time at which an outbox entry was made, which nothing reads, is left out.
pub mod Rows
use python_event_sourcery.Prelude.{
  ℕ, String, Option, none, some, Bool, true, false, ◌&&◌, ◌||◌, not, List, [], ◌∷◌, select, leb,
  ltb, if◌then◌else◌, ◌==◌, nat_key, string_key, option_key, is_some,
}
use python_event_sourcery.Errors.{Result, ok, err, does_not_exist, multiple_objects_returned}
use python_event_sourcery.StreamId.{StreamId, TenantId, or_empty, truthy}
use python_event_sourcery.Event.{RawEvent}
use python_event_sourcery.Event.Json.{Fields}

pub record StreamRow : Type 0 where
  pub id : ℕ
  pub uuid : ℕ
  pub name : Option String
  pub category : String
  pub tenant_id : TenantId
  pub version : Option ℕ

pub record EventRow : Type 0 where
  pub id : ℕ
  pub version : Option ℕ
  pub uuid : ℕ
  pub stream : ℕ
  pub name : String
  pub data_fields : Fields
  pub event_context : Fields
  pub created_at : ℕ

-- The version is not null.
pub record SnapshotRow : Type 0 where
  pub uuid : ℕ
  pub version : ℕ
  pub stream : ℕ
  pub name : String
  pub data_fields : Fields
  pub event_context : Fields
  pub created_at : ℕ

-- The JSON of an outbox entry, with its texts.
pub record OutboxData : Type 0 where
  pub created_at : String
  pub uuid : String
  pub stream_id : String
  pub version : Option ℕ
  pub name : String
  pub data_fields : Fields
  pub context : Fields
  pub tenant_id : TenantId

pub record OutboxRow : Type 0 where
  pub id : ℕ
  pub entry_data : OutboxData
  pub stream_name : Option String
  pub position : ℕ
  pub tries_left : ℕ

pub record Tables : Type 0 where
  pub streams : List StreamRow
  pub events : List EventRow
  pub snapshots : List SnapshotRow
  pub outbox : List OutboxRow
  pub next_stream : ℕ
  pub next_event : ℕ
  pub next_outbox : ℕ

abbrev pub no_rows : Tables
no_rows = record {
  streams = [];
  events = [];
  snapshots = [];
  outbox = [];
  next_stream = 1;
  next_event = 1;
  next_outbox = 1;
}

-- The orders in which the database returns rows: ORDER BY version, and ORDER BY created_at DESC.
pub record RowOrder : Type 0 where
  pub by_version : List EventRow → List EventRow
  pub by_created_at_desc : List SnapshotRow → List SnapshotRow

-- `self.category or None`
abbrev pub or_none : String → Option String
or_none c = if c == "" then none else some c

-- The property `stream_id` of a row.
unfoldable pub stream_id_of : StreamRow → StreamId
stream_id_of r = record { uuid = r.uuid; name = r.name; category = or_none r.category }

-- `raw_event` of dto.py
unfoldable pub raw_event : EventRow → StreamRow → RawEvent
unfolding stream_id_of
raw_event e r = record {
  uuid = e.uuid;
  stream_id = stream_id_of r;
  created_at = e.created_at;
  name = e.name;
  data_fields = e.data_fields;
  context = e.event_context;
  version = e.version;
}

unfoldable pub raw_snapshot : SnapshotRow → StreamRow → RawEvent
unfolding stream_id_of
raw_snapshot s r = record {
  uuid = s.uuid;
  stream_id = stream_id_of r;
  created_at = s.created_at;
  name = s.name;
  data_fields = s.data_fields;
  context = s.event_context;
  version = some s.version;
}

abbrev pub same_stream : StreamId → TenantId → StreamRow → Bool
same_stream sid tenant r =
    (r.uuid == sid.uuid) && ((r.category == or_empty sid.category) && (r.tenant_id == tenant))

abbrev pub same_name : StreamId → TenantId → StreamRow → Bool
same_name sid tenant r =
    (r.name == sid.name) && ((r.category == or_empty sid.category) && (r.tenant_id == tenant))

-- The condition by which a stream is looked up: by its UUID, or by its name if it has one.
unfoldable pub by_stream_id : StreamId → TenantId → StreamRow → Bool
by_stream_id sid tenant r =
    same_stream sid tenant r || (is_some (truthy sid.name) && same_name sid tenant r)

-- `.get()`
unfoldable pub get_one {ℓ} : {A : Type ℓ} → List A → Result A
get_one [] = err does_not_exist
get_one (x ∷ []) = ok x
get_one (x ∷ y ∷ rest) = err multiple_objects_returned

-- `first()`, and `limit(1)`
abbrev pub first_row {ℓ} : {A : Type ℓ} → List A → Option A
first_row [] = none
first_row (x ∷ rest) = some x

-- `version >= start` and `version < stop`; a null is in no range
abbrev pub from_start : Option ℕ → Option ℕ → Bool
from_start none version = true
from_start (some start) none = false
from_start (some start) (some v) = leb start v

abbrev pub before_stop : Option ℕ → Option ℕ → Bool
before_stop none version = true
before_stop (some stop) none = false
before_stop (some stop) (some v) = ltb v stop

abbrev pub in_range : Option ℕ → Option ℕ → Option ℕ → Bool
in_range start stop version = from_start start version && before_stop stop version

-- `version > snapshot.version`
abbrev pub newer_than : ℕ → Option ℕ → Bool
newer_than v none = false
newer_than v (some w) = ltb v w

-- The two constraints of the table of streams; nulls are not equal to one another.
unfoldable pub conflicts : StreamRow → StreamRow → Bool
conflicts a b =
    (a.category == b.category)
    && ((a.tenant_id == b.tenant_id)
        && ((a.uuid == b.uuid) || (is_some a.name && (a.name == b.name))))
