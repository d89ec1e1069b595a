-- ===== src/Django/Locking.antt =====
-- `DjangoStorageStrategy` of event_sourcery_django/event_store.py as a `StorageStrategy`, and the
-- laws of the event log for it, each insert in a transaction of its own.
use python_event_sourcery.Prelude.{
  ℕ, suc, Option, none, some, Bool, List, ◌++◌, ◌≡◌, ◌∙◌, sym, subst, refl, ap, true,
}
use python_event_sourcery.Errors.{ok, concurrent_stream_write_without_arguments}
use python_event_sourcery.Exec.{Exec}
use python_event_sourcery.StreamId.{StreamId}
use python_event_sourcery.Versioning.{explicit_versioning}
use python_event_sourcery.Event.{RawEvent, RecordedRaw}
use python_event_sourcery.EventStore.{StorageStrategy}
use python_event_sourcery.EventLog.{
  LockedLog, Request, events_of, all_events, Commits, take_turns, take_turns-Commits,
}
use python_event_sourcery.Tables.{RowOrder, get_one}
use python_event_sourcery.Tables.Rows.{IsRowOrder, IsDistinct}
use python_event_sourcery.TableOutbox.{Texts, OutboxSetting}
use python_event_sourcery.Django
use python_event_sourcery.Django.{DjangoState}
use python_event_sourcery.Django.Query.{fetch_rows, read_found}
use python_event_sourcery.Django.Holds.{Holds}
use python_event_sourcery.Django.Bulk.{are_fresh}
use python_event_sourcery.Django.Room.{are_fresh-parts, are_fresh-stored}
use python_event_sourcery.Django.Ensure.{at_version, bumped}
use python_event_sourcery.Django.Statements.{bump_version, records_of}
use python_event_sourcery.Django.Inserts.{
  insert_events-Holds, insert_events-stale, insert_events-ensured, ensured_and_found,
}

unfoldable pub over_tables {ℓ} :
    {T : Type ℓ}
    → RowOrder
    → Texts
    → Option OutboxSetting
    → (List RecordedRaw → Exec T (Unit {0}))
    → StorageStrategy (DjangoState T)
over_tables order texts outbox dispatch = record {
  fetch_events = Django.fetch_events order;
  insert_events = Django.insert_events texts outbox dispatch;
  save_snapshot = Django.save_snapshot;
  delete_stream = Django.delete_stream;
  current_position = Django.current_position;
}

-- The tables are rolled back; what the dispatcher did stays.
abbrev pub rolled_back {ℓ} : {T : Type ℓ} → DjangoState T → DjangoState T → DjangoState T
rolled_back s s' = record s { dispatched = s'.dispatched }

module _ {ℓ} {T : Type ℓ} (order : RowOrder) (promised : IsRowOrder order) (texts : Texts)
    (outbox : Option OutboxSetting) (dispatch : List RecordedRaw → Exec T (Unit {0}))
    (quiet : (records : List RecordedRaw) (t : T) → (dispatch records t).0 ≡ ok tt) where
  -- A stream of the tenant at work, in tables whose streams have a number each.
  abbrev HoldsFor : StreamId → ℕ → List RawEvent → DjangoState T → Type 0
  HoldsFor sid v log s = Holds order sid s.tenant_id v log s.tables × IsDistinct s.tables.streams

  fetch_events-Holds :
      (sid : StreamId) (v : ℕ) (log : List RawEvent) (s : DjangoState T)
      → HoldsFor sid v log s
      → Django.fetch_events order sid none none s ≡ ok log
  unfolding get_one read_found fetch_rows Django.fetch_events
  fetch_events-Holds sid v log s (h, distinct) = rw (h.found, h.reads) refl

  abbrev asked : StreamId → ℕ → ℕ → List RawEvent → Exec (DjangoState T) (Unit {0})
  asked sid before last events =
      Django.insert_events texts outbox dispatch sid (explicit_versioning (suc before) (some last))
        events

  accepted-HoldsFor :
      (sid : StreamId) (r : Request sid) (log later : List RawEvent) (s : DjangoState T)
      → HoldsFor sid (suc r.before) log s
      → are_fresh (events_of r ++ later) s.tables ≡ true
      → ((asked sid r.before r.last (events_of r) s).0 ≡ ok tt)
        × HoldsFor sid r.last (log ++ events_of r) (asked sid r.before r.last (events_of r) s).1
        × (are_fresh later (asked sid r.before r.last (events_of r) s).1.tables ≡ true)
  accepted-HoldsFor sid r log later s (h, distinct) room =
      let new = events_of r in
      let u = some r.last in
      let fresh = (are_fresh-parts new later s.tables room).0 in
      let records = records_of s.tenant_id new s.tables.next_event in
      let (answer, held, apart, tenant) =
        insert_events-Holds order promised texts outbox dispatch sid r.before r.last log r.first
          r.more s distinct h r.rising r.addressed fresh in
      let (ensured, found) =
        ensured_and_found order promised texts outbox dispatch sid r.before r.last log s distinct
          h in
      let run =
        insert_events-ensured order promised texts outbox dispatch sid (suc r.before) r.last r.first
          r.more (at_version u h.row) s (bumped h.row.id (suc r.before) u s.tables) ensured
          r.addressed.0 found fresh in
      (
        answer ∙ quiet records s.dispatched,
        (
          subst
              (λ i.
                Holds order sid i r.last (log ++ new) (asked sid r.before r.last new s).1.tables)
              (sym tenant) held,
          apart,
        ),
        subst (λ x. are_fresh later x.1.tables ≡ true) (sym run)
            (are_fresh-stored texts outbox records new later (at_version u h.row)
              s.tables.next_event (bump_version h.row.id (suc r.before) u s.tables.streams) s.tables
              room),
      )

  -- The laws of the event log, while the UUIDs that are asked for are new. A refused insert is
  -- undone with its transaction.
  pub django-LockedLog : LockedLog (over_tables order texts outbox dispatch) rolled_back
  unfolding over_tables
  django-LockedLog = record {
    Holds = HoldsFor;
    HasRoom = λ events s. are_fresh events s.tables ≡ true;
    reads = fetch_events-Holds;
    accepts = accepted-HoldsFor;
    refuses = λ sid r v log later s held stale room. (
      concurrent_stream_write_without_arguments,
      ap (λ x. x.0)
          (insert_events-stale order promised texts outbox dispatch sid v r.before (some r.last) log
            (events_of r) s held.1 held.0 stale),
      held,
      (are_fresh-parts (events_of r) later s.tables room).2,
    );
  }

  abbrev pub turns :
      (sid : StreamId) → List (Request sid) → DjangoState T → List Bool × DjangoState T
  turns = take_turns (over_tables order texts outbox dispatch) rolled_back

  -- Over the Django strategy with a dispatcher that raises nothing, if the database keeps to its
  -- orders, from tables with a number for each stream in which a tenant's stream holds `log` up to
  -- v: whatever writers of the tenant ask for with an expected version other than 0 and one event
  -- of the stream at least, of versions that grow from above it, with UUIDs that are all new, each
  -- in a transaction of its own, and in whatever order, the answers are those of the run of the
  -- specification from v and `log`, which accepts a request exactly if it expects the version that
  -- the stream then has; and the stream holds and reads as what this run ends in.
  pub take_turns-over_tables :
      (sid : StreamId) (requests : List (Request sid)) (v : ℕ) (log : List RawEvent)
      (s : DjangoState T)
      → IsDistinct s.tables.streams
      → Holds order sid s.tenant_id v log s.tables
      → are_fresh (all_events requests) s.tables ≡ true
      → (w : ℕ) × (after : List RawEvent) × Commits sid requests
          (turns sid requests s).0
          v
          log
          w
          after
        × Holds order sid (turns sid requests s).1.tenant_id w after (turns sid requests s).1.tables
        × (Django.fetch_events order sid none none (turns sid requests s).1 ≡ ok after)
  unfolding over_tables django-LockedLog
  take_turns-over_tables sid requests v log s distinct h fresh =
      let (w, after, steps, held, reads) =
        take_turns-Commits (over_tables order texts outbox dispatch) rolled_back sid
          django-LockedLog requests v log s (h, distinct) fresh in
      (w, after, steps, held.0, reads)
