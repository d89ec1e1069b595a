-- ===== src/SqlAlchemy/Stored.antt =====
-- What the flush of `insert_events` of event_sourcery_sqlalchemy/event_store.py leaves.
use python_event_sourcery.Prelude.{
  Option, true, false, List, ◌∷◌, is_some, ◌≡◌, ◌∙◌, ap, nat_key, string_key,
}
use python_event_sourcery.Errors.{Result, err, integrity_error}
use python_event_sourcery.Exec.{Exec, continue}
use python_event_sourcery.Event.{RawEvent, RecordedRaw}
use python_event_sourcery.Tables.{Tables, StreamRow}
use python_event_sourcery.TableOutbox.{Texts, OutboxSetting, put_if_any}
use python_event_sourcery.Django.Statements.{entry_rows}
use python_event_sourcery.Django.Holds.{with_events}
use python_event_sourcery.SqlAlchemy.{Session, on_dispatched, extend_events, recorded_rows}
use python_event_sourcery.SqlAlchemy.Query.{stream_of}
use python_event_sourcery.SqlAlchemy.Statements.{event_rows}
use python_event_sourcery.SqlAlchemy.Flush.{
  event_rows-entry_rows, is_nil-event_rows, flush_events-room, flush_events-full, have_room,
}

module _ {ℓ} {T : Type ℓ} (texts : Texts) (outbox : Option OutboxSetting)
    (dispatch : List RecordedRaw → Exec T (Unit {0})) where
  -- The state after an insert
  abbrev pub stored : List RawEvent → StreamRow → Session T → Session T
  stored events row s =
      let records = recorded_rows events s.tenant_id s.tables.next_event in
      record s {
        tables =
            put_if_any texts outbox records
              (with_events (entry_rows events row s.tables.next_event) s.tables);
        dispatched = (dispatch records s.dispatched).1;
      }

  pub extend_events-stored :
      (e : RawEvent) (rest : List RawEvent) (row o : StreamRow) (s : Session T)
      → o.id ≡ row.id
      → o.tenant_id ≡ s.tenant_id
      → is_some (stream_of row.id s.tables) ≡ true
      → have_room (e ∷ rest) row.id s.tables ≡ true
      → extend_events texts outbox dispatch (e ∷ rest) o s.tables.next_event s ≡ (
        (dispatch (recorded_rows (e ∷ rest) s.tenant_id s.tables.next_event) s.dispatched).0,
        stored (e ∷ rest) row s,
      )
  unfolding extend_events
  extend_events-stored e rest row o s same tenant there room =
      let rows = event_rows-entry_rows (e ∷ rest) row s.tables.next_event in
      let new = event_rows (e ∷ rest) row.id s.tables.next_event in
      let records = recorded_rows (e ∷ rest) s.tenant_id s.tables.next_event in
      let flushed =
        flush_events-room row.id new s.tables (is_nil-event_rows e rest row.id s.tables.next_event)
          there room in
      let finish : Result (Unit {0}) × Tables → Result (Unit {0}) × Session T = λ r.
        continue r.0
          (λ u s'.
            on_dispatched (dispatch records)
              (record s' { tables = put_if_any texts outbox records s'.tables }))
          (record s { tables = r.1 }) in
      rw (same, tenant)
        (ap finish flushed
          ∙ (ap
              (λ new. (
                (dispatch (recorded_rows (e ∷ rest) s.tenant_id s.tables.next_event)
                    s.dispatched).0,
                record s {
                  tables =
                      put_if_any texts outbox
                        (recorded_rows (e ∷ rest) s.tenant_id s.tables.next_event)
                        (with_events new s.tables);
                  dispatched =
                      (dispatch (recorded_rows (e ∷ rest) s.tenant_id s.tables.next_event)
                        s.dispatched).1;
                },
              ))
              rows))

  pub extend_events-no_room :
      (e : RawEvent) (rest : List RawEvent) (row o : StreamRow) (s : Session T)
      → o.id ≡ row.id
      → have_room (e ∷ rest) row.id s.tables ≡ false
      → extend_events texts outbox dispatch (e ∷ rest) o s.tables.next_event s
        ≡ (err integrity_error, s)
  unfolding extend_events
  extend_events-no_room e rest row o s same full =
      let new = event_rows (e ∷ rest) row.id s.tables.next_event in
      let finish : Result (Unit {0}) × Tables → Result (Unit {0}) × Session T = λ r.
        continue r.0
          (λ u s'.
            let records = recorded_rows (e ∷ rest) o.tenant_id s.tables.next_event in
            on_dispatched (dispatch records)
              (record s' { tables = put_if_any texts outbox records s'.tables }))
          (record s { tables = r.1 }) in
      rw same (ap finish (flush_events-full row.id new s.tables full))
