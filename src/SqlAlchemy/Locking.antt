-- ===== src/SqlAlchemy/Locking.antt =====
-- `SqlAlchemyStorageStrategy` of event_sourcery_sqlalchemy/event_store.py as a `StorageStrategy`, and
-- the laws of the event log for it, each insert in a transaction of its own.
use python_event_sourcery.Prelude.{
  ℕ, suc, Option, none, some, true, Bool, List, [], ◌∷◌, ◌++◌, ◌≡◌, ◌∙◌, ap, sym, subst, refl,
  select, ◌==◌, string_key,
}
use python_event_sourcery.Errors.{ok, concurrent_stream_write_without_arguments}
use python_event_sourcery.Exec.{Exec}
use python_event_sourcery.StreamId.{StreamId}
use python_event_sourcery.Event.{RawEvent, RecordedRaw}
use python_event_sourcery.EventStore.{StorageStrategy}
use python_event_sourcery.EventLog.{
  LockedLog, Request, events_of, all_events, Commits, take_turns, take_turns-Commits,
}
use python_event_sourcery.Tables.{RowOrder, StreamRow, by_stream_id}
use python_event_sourcery.Tables.Rows.{IsRowOrder, In-select, select-select}
use python_event_sourcery.TableOutbox.{Texts, OutboxSetting}
use python_event_sourcery.Django.Query.{latest_snapshot}
use python_event_sourcery.Django.Holds.{tenant_id-by_stream_id}
use python_event_sourcery.SqlAlchemy
use python_event_sourcery.SqlAlchemy.{Session, add_object, recorded_rows}
use python_event_sourcery.SqlAlchemy.Query.{compares, of_tenant}
use python_event_sourcery.SqlAlchemy.Reads.{fetch_of-one}
use python_event_sourcery.SqlAlchemy.Ensure.{HoldsAlone}
use python_event_sourcery.SqlAlchemy.Objects.{IsIteration, AreObjects-add_object}
use python_event_sourcery.SqlAlchemy.Statements.{update_version}
use python_event_sourcery.SqlAlchemy.Room.{have_room-rising}
use python_event_sourcery.Django.Bulk.{are_fresh}
use python_event_sourcery.Django.Ensure.{at_version}
use python_event_sourcery.Django.Room.{are_fresh-parts, are_fresh-stored}
use python_event_sourcery.SqlAlchemy.Inserts.{
  locked_insert, is_object-row, insert_events-stale, insert_events-found, insert_events-HoldsAlone,
}

unfoldable pub over_session {ℓ} :
    {T : Type ℓ}
    → RowOrder
    → (List StreamRow → List StreamRow)
    → Texts
    → Option OutboxSetting
    → (List RecordedRaw → Exec T (Unit {0}))
    → StorageStrategy (Session T)
over_session order iterate texts outbox dispatch = record {
  fetch_events = SqlAlchemy.fetch_events order;
  insert_events = SqlAlchemy.insert_events iterate texts outbox dispatch;
  save_snapshot = SqlAlchemy.save_snapshot;
  delete_stream = SqlAlchemy.delete_stream;
  current_position = SqlAlchemy.current_position;
}

-- The tables are rolled back; the objects that were added and what the dispatcher did stay.
abbrev pub rolled_back {ℓ} : {T : Type ℓ} → Session T → Session T → Session T
rolled_back s s' = record s { strong_set = s'.strong_set; dispatched = s'.dispatched }

module _ {ℓ} {T : Type ℓ} (order : RowOrder) (promised : IsRowOrder order)
    (iterate : List StreamRow → List StreamRow) (iterates : IsIteration iterate) (texts : Texts)
    (outbox : Option OutboxSetting) (dispatch : List RecordedRaw → Exec T (Unit {0}))
    (quiet : (records : List RecordedRaw) (t : T) → (dispatch records t).0 ≡ ok tt) where
  -- A stream held alone is read as what it holds.
  pub fetch_events-HoldsAlone :
      (sid : StreamId) (v : ℕ) (log : List RawEvent) (s : Session T)
      → HoldsAlone order sid v log s
      → SqlAlchemy.fetch_events order sid none none s ≡ ok log
  unfolding SqlAlchemy.fetch_events
  fetch_events-HoldsAlone sid v log s h =
      let row = h.held.row in
      let t = s.tables in
      let there = In-select (by_stream_id sid s.tenant_id) t.streams row [] h.held.found in
      let tenant = tenant_id-by_stream_id sid s.tenant_id row there.1 in
      let one : select (of_tenant sid s.tenant_id) t.streams ≡ row ∷ [] =
        select-select (compares sid) (λ r. r.tenant_id == s.tenant_id) t.streams
        ∙ ap (select (λ r. r.tenant_id == s.tenant_id)) h.alone
        ∙ (rw tenant refl) in
      ap ok (
        fetch_of-one order promised s.tenant_id sid row t one v h.distinct there.0 h.held.increasing
          (latest_snapshot order row.id none none t) refl h.own
        ∙ h.held.reads)

  HoldsAlone-added :
      (sid : StreamId) (v : ℕ) (log : List RawEvent) (s : Session T) (d : T)
      → (h : HoldsAlone order sid v log s)
      → HoldsAlone order sid v log
          (record s { strong_set = add_object h.held.row s.strong_set; dispatched = d })
  HoldsAlone-added sid v log s d h = record {
    held = h.held;
    distinct = h.distinct;
    alone = h.alone;
    own = h.own;
    objects =
        AreObjects-add_object sid s.tenant_id h.held.row s.strong_set h.objects
          (is_object-row order promised iterate iterates texts outbox dispatch sid v log s h);
  }

  abbrev asked : StreamId → ℕ → ℕ → List RawEvent → Exec (Session T) (Unit {0})
  asked = locked_insert order promised iterate iterates texts outbox dispatch

  accepted-HoldsAlone :
      (sid : StreamId) (r : Request sid) (log later : List RawEvent) (s : Session T)
      → HoldsAlone order sid (suc r.before) log s
      → are_fresh (events_of r ++ later) s.tables ≡ true
      → ((asked sid r.before r.last (events_of r) s).0 ≡ ok tt)
        × HoldsAlone order sid r.last
            (log ++ events_of r)
            (asked sid r.before r.last (events_of r) s).1
        × (are_fresh later (asked sid r.before r.last (events_of r) s).1.tables ≡ true)
  accepted-HoldsAlone sid r log later s h fresh =
      let new = events_of r in
      let u = some r.last in
      let row = at_version u h.held.row in
      let records = recorded_rows new s.tenant_id s.tables.next_event in
      let room =
        have_room-rising new h.held.row (suc r.before) r.last s.tables h.held.increasing r.rising
          (are_fresh-parts new later s.tables fresh).0 in
      let (answer, held) =
        insert_events-HoldsAlone order promised iterate iterates texts outbox dispatch sid r.before
          r.last log r.first r.more s h r.rising r.addressed room in
      let run =
        insert_events-found order promised iterate iterates texts outbox dispatch sid r.before
          r.last log r.first r.more s h room in
      (
        answer ∙ quiet records s.dispatched,
        held,
        subst (λ x. are_fresh later x.1.tables ≡ true) (sym run)
            (are_fresh-stored texts outbox records new later row s.tables.next_event
              (update_version sid (suc r.before) u s.tables.streams) s.tables fresh),
      )

  -- The laws of the event log, while the UUIDs that are asked for are new. A refused insert is
  -- undone with its transaction, but for the object that it added.
  pub session-LockedLog : LockedLog (over_session order iterate texts outbox dispatch) rolled_back
  unfolding over_session
  session-LockedLog = record {
    Holds = HoldsAlone order;
    HasRoom = λ events s. are_fresh events s.tables ≡ true;
    reads = fetch_events-HoldsAlone;
    accepts = accepted-HoldsAlone;
    refuses = λ sid r v log later s h stale fresh.
        let run =
          insert_events-stale order promised iterate iterates texts outbox dispatch sid v r.before
            r.last log (events_of r) s h stale in
        (
          concurrent_stream_write_without_arguments,
          ap (λ x. x.0) run,
          subst (λ x. HoldsAlone order sid v log (rolled_back s x.1)) (sym run)
              (HoldsAlone-added sid v log s s.dispatched h),
          (are_fresh-parts (events_of r) later s.tables fresh).2,
        );
  }

  abbrev pub turns : (sid : StreamId) → List (Request sid) → Session T → List Bool × Session T
  turns = take_turns (over_session order iterate texts outbox dispatch) rolled_back

  -- Over the SQLAlchemy strategy with a dispatcher that raises nothing, if the database keeps to
  -- its orders and a set is iterated over its objects, from a session in which the row of a stream
  -- is the only one of its identifier, whichever the tenant, and in which the stream holds `log` up
  -- to v: whatever writers ask for with an expected version other than 0 and one event of the
  -- stream at least, of versions that grow from above it, with UUIDs that are all new, each in a
  -- transaction of its own, and in whatever order, the answers are those of the run of the
  -- specification from v and `log`, which accepts a request exactly if it expects the version that
  -- the stream then has; and the stream holds and reads as what this run ends in.
  pub take_turns-over_session :
      (sid : StreamId) (requests : List (Request sid)) (v : ℕ) (log : List RawEvent) (s : Session T)
      → HoldsAlone order sid v log s
      → are_fresh (all_events requests) s.tables ≡ true
      → (w : ℕ) × (after : List RawEvent) × Commits sid requests
          (turns sid requests s).0
          v
          log
          w
          after
        × HoldsAlone order sid w after (turns sid requests s).1
        × (SqlAlchemy.fetch_events order sid none none (turns sid requests s).1 ≡ ok after)
  unfolding over_session session-LockedLog
  take_turns-over_session sid requests v log s h fresh =
      take_turns-Commits (over_session order iterate texts outbox dispatch) rolled_back sid
        session-LockedLog requests v log s h fresh
