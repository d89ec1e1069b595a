-- ===== src/Tests/Turns.antt =====
-- Writers that take turns over each backend, and an insert of one of two tenants.
use python_event_sourcery.Prelude.{
  ℕ, none, some, List, [], ◌∷◌, ◌++◌, ◌≡◌, refl, arith, inl, inr, string_key, option_key, nat_key,
}
use python_event_sourcery.Errors.{ok, err, concurrent_stream_write_without_arguments}
use python_event_sourcery.Event.{RawEvent, RecordedRaw}
use python_event_sourcery.Versioning.{explicit_versioning}
use python_event_sourcery.EventLog.{Request, Commits}
use python_event_sourcery.EventLog.OverMemory
use python_event_sourcery.EventLog.OverMemory.{take_turns-in_memory}
use python_event_sourcery.InMemory.Strategy
use python_event_sourcery.InMemory.Strategy.{new_strategy}
use python_event_sourcery.InMemory.Created.{stream_version}
use python_event_sourcery.Prelude.Dict.{lookup, insert}
use python_event_sourcery.Django
use python_event_sourcery.Django.Query.{latest_snapshot}
use python_event_sourcery.Django.Holds.{Holds}
use python_event_sourcery.Django.Statements.{all_fresh}
use python_event_sourcery.Django.Locking.{take_turns-over_tables}
use python_event_sourcery.SqlAlchemy
use python_event_sourcery.SqlAlchemy.{Session}
use python_event_sourcery.SqlAlchemy.Query.{compares}
use python_event_sourcery.SqlAlchemy.Statements.{event_rows, fits}
use python_event_sourcery.SqlAlchemy.Ensure.{HoldsAlone}
use python_event_sourcery.SqlAlchemy.Inserts.{insert_events-HoldsAlone, locked_insert}
use python_event_sourcery.SqlAlchemy.Locking.{take_turns-over_session}
use python_event_sourcery.SqlAlchemy.Tenants.{insert_events-two_tenants}
use python_event_sourcery.Tests.Data
use python_event_sourcery.Tests.Data.{order_stream, keep, all_events, backend, backend-IsValid}
use python_event_sourcery.Tests.Orders.{
  sorting, sorting-IsRowOrder, as_they_came, as_they_came-IsIteration,
}
use python_event_sourcery.Tests.Rows.{
  row_two, one_tenant, two_tenants, django, texts, log, next_events, two_tenants-Holds,
  one_tenant-Holds, next_events-IsRising, next_events-IsFor,
}

-- Two writers that both read version 1
abbrev first_writer : Request order_stream
first_writer = record {
  before = 0;
  last = 2;
  first = Data.raw_event 2 (some 2);
  more = [];
  rising = next_events-IsRising;
  addressed = next_events-IsFor;
}

abbrev second_writer : Request order_stream
second_writer = record {
  before = 0;
  last = 2;
  first = Data.raw_event 3 (some 2);
  more = [];
  rising = (2, refl, omega arith, refl);
  addressed = (refl, tt);
}

abbrev both_writers : List (Request order_stream)
both_writers = first_writer ∷ second_writer ∷ []

turns_in_memory :
    (w : ℕ) × (after : List RawEvent) × Commits order_stream both_writers
      (OverMemory.turns all_events keep (λ r t. refl) order_stream both_writers backend).0
      1
      log
      w
      after
    × (stream_version order_stream
          (OverMemory.turns all_events keep
            (λ r t. refl)
            order_stream
            both_writers
            backend).1.storage
        ≡ some (some w))
    × (Strategy.fetch_events order_stream none none
          (OverMemory.turns all_events keep (λ r t. refl) order_stream both_writers backend).1
        ≡ ok after)
unfolding Strategy.insert_events Strategy.fetch_events new_strategy lookup insert
turns_in_memory =
    take_turns-in_memory all_events keep (λ r t. refl) order_stream both_writers 1 log backend
      backend-IsValid refl refl

turns_over_tables :
    (w : ℕ) × (after : List RawEvent) × Commits order_stream both_writers
      (Django.Locking.turns sorting sorting-IsRowOrder texts none keep
        (λ r t. refl)
        order_stream
        both_writers
        django).0
      1
      log
      w
      after
    × Holds sorting order_stream
        (Django.Locking.turns sorting sorting-IsRowOrder texts none keep
          (λ r t. refl)
          order_stream
          both_writers
          django).1.tenant_id
        w
        after
        (Django.Locking.turns sorting sorting-IsRowOrder texts none keep
          (λ r t. refl)
          order_stream
          both_writers
          django).1.tables
    × (Django.fetch_events sorting order_stream none none
          (Django.Locking.turns sorting sorting-IsRowOrder texts none keep
            (λ r t. refl)
            order_stream
            both_writers
            django).1
        ≡ ok after)
unfolding all_fresh
turns_over_tables =
    take_turns-over_tables sorting sorting-IsRowOrder texts none keep (λ r t. refl) order_stream
      both_writers 1 log django (refl, (refl, tt)) two_tenants-Holds refl

abbrev session : Session (List RecordedRaw)
session = record { tables = one_tenant; strong_set = []; tenant_id = ""; dispatched = [] }

session-HoldsAlone : HoldsAlone sorting order_stream 1 log session
unfolding compares latest_snapshot sorting one_tenant-Holds
session-HoldsAlone = record {
  held = one_tenant-Holds;
  distinct = (refl, tt);
  alone = refl;
  own = tt;
  objects = λ o within. absurd within;
}

appended_alone :
    ((locked_insert sorting sorting-IsRowOrder as_they_came as_they_came-IsIteration texts none keep
        order_stream 0 2 next_events session).0
      ≡ ok tt)
    × HoldsAlone sorting order_stream 2
        (log ++ next_events)
        (locked_insert sorting sorting-IsRowOrder as_they_came as_they_came-IsIteration texts none
          keep order_stream 0 2 next_events session).1
unfolding event_rows fits one_tenant-Holds session-HoldsAlone
appended_alone =
    insert_events-HoldsAlone sorting sorting-IsRowOrder as_they_came as_they_came-IsIteration texts
      none keep order_stream 0 2 log (Data.raw_event 2 (some 2)) [] session session-HoldsAlone
      next_events-IsRising next_events-IsFor refl

turns_over_session :
    (w : ℕ) × (after : List RawEvent) × Commits order_stream both_writers
      (SqlAlchemy.Locking.turns sorting sorting-IsRowOrder as_they_came as_they_came-IsIteration
        texts none keep
        (λ r t. refl)
        order_stream
        both_writers
        session).0
      1
      log
      w
      after
    × HoldsAlone sorting order_stream w after
        (SqlAlchemy.Locking.turns sorting sorting-IsRowOrder as_they_came as_they_came-IsIteration
          texts none keep
          (λ r t. refl)
          order_stream
          both_writers
          session).1
    × (SqlAlchemy.fetch_events sorting order_stream none none
          (SqlAlchemy.Locking.turns sorting sorting-IsRowOrder as_they_came as_they_came-IsIteration
            texts none keep
            (λ r t. refl)
            order_stream
            both_writers
            session).1
        ≡ ok after)
unfolding all_fresh
turns_over_session =
    take_turns-over_session sorting sorting-IsRowOrder as_they_came as_they_came-IsIteration texts
      none keep (λ r t. refl) order_stream both_writers 1 log session session-HoldsAlone refl

refused_for_two :
    (SqlAlchemy.insert_events as_they_came texts none keep order_stream
      (explicit_versioning 1 (some 2))
      next_events
      (record session { tables = two_tenants })).0
    ≡ err concurrent_stream_write_without_arguments
unfolding compares two_tenants-Holds
refused_for_two =
    insert_events-two_tenants sorting as_they_came texts none keep order_stream 0 2 log next_events
      row_two (record session { tables = two_tenants }) two_tenants-Holds (inr (inl refl)) refl refl
      refl
