-- ===== src/Tests/Rows.antt =====
-- Inserts into the tables of two tenants, and deletions from them.
use python_event_sourcery.Prelude.{
  ℕ, none, some, List, [], ◌∷◌, ◌++◌, ◌≡◌, refl, arith, String, if◌then◌else◌, ◌==◌, nat_key,
  string_key,
}
use python_event_sourcery.Errors.{Result, ok, err, value_error}
use python_event_sourcery.Versioning.{explicit_versioning}
use python_event_sourcery.Event.{RawEvent, RecordedRaw}
use python_event_sourcery.Event.Json.{end}
use python_event_sourcery.EventLog.{IsRising, IsFor}
use python_event_sourcery.Tables.{
  Tables, StreamRow, EventRow, by_stream_id, raw_event, stream_id_of, no_rows,
}
use python_event_sourcery.Tables.Rows.{IsUpTo, IsDistinct}
use python_event_sourcery.TableOutbox.{Texts}
use python_event_sourcery.Django
use python_event_sourcery.Django.{DjangoState, insert_events}
use python_event_sourcery.Django.Statements.{all_fresh}
use python_event_sourcery.Django.Inserts.{insert_events-Holds}
use python_event_sourcery.Django.Others.{fetch_rows-insert_events}
use python_event_sourcery.Django.Deletes.{fetch_rows-delete_stream}
use python_event_sourcery.Django.Query.{fetch_rows, latest_snapshot, read_from, query_events}
use python_event_sourcery.Django.Holds.{Holds}
use python_event_sourcery.Tests.Data
use python_event_sourcery.Tests.Data.{order_stream, keep}
use python_event_sourcery.Tests.Orders.{sorting, sorting-IsRowOrder}

abbrev pub row_one : StreamRow
row_one = record {
  id = 1;
  uuid = 1;
  name = none;
  category = "orders";
  tenant_id = "";
  version = some 1;
}

-- The same stream of another tenant
abbrev pub row_two : StreamRow
row_two = record row_one { id = 2; tenant_id = "acme" }

abbrev pub event_one : EventRow
event_one = record {
  id = 1;
  version = some 1;
  uuid = 1;
  stream = 1;
  name = "Placed";
  data_fields = end;
  event_context = end;
  created_at = 100;
}

abbrev pub event_two : EventRow
event_two = record event_one { id = 2; uuid = 11; stream = 2 }

abbrev pub two_tenants : Tables
two_tenants = record no_rows {
  streams = row_one ∷ row_two ∷ [];
  events = event_one ∷ event_two ∷ [];
  next_stream = 3;
  next_event = 3;
}

abbrev pub one_tenant : Tables
one_tenant = record no_rows {
  streams = row_one ∷ [];
  events = event_one ∷ [];
  next_stream = 2;
  next_event = 3;
}

abbrev pub django : DjangoState (List RecordedRaw)
django = record { tables = two_tenants; tenant_id = ""; dispatched = [] }

-- Texts for the UUIDs and times of the runs
abbrev text_of : ℕ → String
text_of u = if u == 1 then "01" else "02"

abbrev number_of : String → Result ℕ
number_of text = if text == "01" then ok 1 else if text == "02" then ok 2 else err value_error

abbrev pub texts : Texts
texts = record {
  uuid_library = record { from_name = λ n. 1; parse_hex = number_of };
  uuid_text = text_of;
  time_text = text_of;
  time_from_text = number_of;
}

abbrev pub log : List RawEvent
log = Data.raw_event 1 (some 1) ∷ []

abbrev pub next_events : List RawEvent
next_events = Data.raw_event 2 (some 2) ∷ []

pub event_one-IsUpTo : IsUpTo 0 1 (event_one ∷ [])
event_one-IsUpTo = (1, refl, ground arith, ground arith)

unfoldable pub two_tenants-Holds : Holds sorting order_stream "" 1 log two_tenants
unfolding by_stream_id stream_id_of raw_event latest_snapshot read_from query_events sorting
two_tenants-Holds = record {
  row = row_one;
  found = refl;
  named = refl;
  version = refl;
  increasing = event_one-IsUpTo;
  covered = tt;
  reads = refl;
}

unfoldable pub one_tenant-Holds : Holds sorting order_stream "" 1 log one_tenant
unfolding by_stream_id stream_id_of raw_event latest_snapshot read_from query_events sorting
one_tenant-Holds = record {
  row = row_one;
  found = refl;
  named = refl;
  version = refl;
  increasing = event_one-IsUpTo;
  covered = tt;
  reads = refl;
}

pub next_events-IsRising : IsRising 1 2 next_events
next_events-IsRising = (2, refl, ground arith, refl)

pub next_events-IsFor : IsFor order_stream next_events
next_events-IsFor = (refl, tt)

appended :
    ((insert_events texts none keep order_stream
        (explicit_versioning 1 (some 2))
        next_events
        django).0
      ≡ ok tt)
    × Holds sorting order_stream "" 2
        (log ++ next_events)
        (insert_events texts none keep order_stream
          (explicit_versioning 1 (some 2))
          next_events
          django).1.tables
    × IsDistinct
        (insert_events texts none keep order_stream
          (explicit_versioning 1 (some 2))
          next_events
          django).1.tables.streams
    × ((insert_events texts none keep order_stream
          (explicit_versioning 1 (some 2))
          next_events
          django).1.tenant_id
        ≡ "")
unfolding all_fresh
appended =
    insert_events-Holds sorting sorting-IsRowOrder texts none keep order_stream 0 2 log
      (Data.raw_event 2 (some 2)) [] django (refl, (refl, tt)) two_tenants-Holds
      next_events-IsRising next_events-IsFor refl

other_tenant_reads :
    fetch_rows sorting "acme" order_stream none none
      (insert_events texts none keep order_stream
        (explicit_versioning 1 (some 2))
        next_events
        django).1.tables
    ≡ fetch_rows sorting "acme" order_stream none none two_tenants
unfolding all_fresh by_stream_id two_tenants-Holds
other_tenant_reads =
    fetch_rows-insert_events sorting sorting-IsRowOrder texts none keep order_stream 0 2 log
      (Data.raw_event 2 (some 2)) [] django (refl, (refl, tt)) two_tenants-Holds next_events-IsFor
      refl "acme" order_stream none none refl

deleted_for_one :
    (fetch_rows sorting "" order_stream none none
        (Django.delete_stream order_stream django).1.tables
      ≡ ok [])
    × (fetch_rows sorting "acme" order_stream none none
          (Django.delete_stream order_stream django).1.tables
        ≡ fetch_rows sorting "acme" order_stream none none two_tenants)
deleted_for_one =
    fetch_rows-delete_stream sorting order_stream django none none "acme" order_stream
      (refl, (refl, tt)) refl
