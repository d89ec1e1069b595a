-- ===== src/SqlAlchemy/Inserts.antt =====
-- What `insert_events` of event_sourcery_sqlalchemy/event_store.py does to what a stream holds.
use python_event_sourcery.Prelude.{
  ℕ, suc, Option, none, some, true, false, List, [], ◌∷◌, ◌++◌, select, ◌≡◌, ◌∙◌, ap, sym, subst,
  refl, ◌↔◌, nat_key, string_key, nat_beq,
}
use python_event_sourcery.Errors.{
  ok, err, integrity_error, concurrent_stream_write_without_arguments,
}
use python_event_sourcery.Exec.{Exec}
use python_event_sourcery.StreamId.{StreamId, stream_id_same, stream_id_refl}
use python_event_sourcery.Versioning.{explicit_versioning}
use python_event_sourcery.Event.{RawEvent, RecordedRaw}
use python_event_sourcery.EventLog.{IsRising, IsFor}
use python_event_sourcery.Tables.{StreamRow, RowOrder, by_stream_id, stream_id_of}
use python_event_sourcery.Tables.Rows.{IsRowOrder, IsDistinct, In, In-select}
use python_event_sourcery.TableOutbox.{Texts, OutboxSetting, put_if_any}
use python_event_sourcery.Django.Query.{latest_snapshot}
use python_event_sourcery.Django.Statements.{entry_rows}
use python_event_sourcery.Django.Ensure.{at_version}
use python_event_sourcery.Django.Holds.{
  tenant_id-by_stream_id, with_events, Holds-put_if_any, Holds-with_events,
}
use python_event_sourcery.Django.Bulk.{IsRising-le, streams-put_if_any}
use python_event_sourcery.SqlAlchemy.{
  Session, insert_events, ensure_streams, is_object, object_of, add_object, recorded_rows,
}
use python_event_sourcery.SqlAlchemy.Query.{compares}
use python_event_sourcery.SqlAlchemy.Reads.{IsOf, stream_of-In}
use python_event_sourcery.SqlAlchemy.Ensure.{
  HoldsAlone, locked, after_lock, ensure_streams-found, ensure_streams-stale,
  matching_streams-locked, compares-locked,
}
use python_event_sourcery.SqlAlchemy.Objects.{
  IsIteration, object_of-AreObjects, AreObjects-add_object, In-add_object_id,
}
use python_event_sourcery.SqlAlchemy.Flush.{
  IsDistinct-locked, have_room, only_row, latest_snapshot-put_if_any, latest_snapshot-with_events,
}
use python_event_sourcery.SqlAlchemy.Stored.{stored, extend_events-stored, extend_events-no_room}

module _ {ℓ} {T : Type ℓ} (order : RowOrder) (promised : IsRowOrder order)
    (iterate : List StreamRow → List StreamRow) (iterates : IsIteration iterate) (texts : Texts)
    (outbox : Option OutboxSetting) (dispatch : List RecordedRaw → Exec T (Unit {0})) where
  pub is_object-row :
      (sid : StreamId) (v : ℕ) (log : List RawEvent) (s : Session T)
      → (h : HoldsAlone order sid v log s) → is_object sid s.tenant_id h.held.row ≡ true
  is_object-row sid v log s h =
      let row = h.held.row in
      let met = (In-select (by_stream_id sid s.tenant_id) s.tables.streams row [] h.held.found).1 in
      let same : stream_id_same (stream_id_of row) sid ≡ true =
        subst (λ i. stream_id_same (stream_id_of row) i ≡ true) h.held.named
          (stream_id_refl (stream_id_of row)) in
      rw same (tenant_id-by_stream_id sid s.tenant_id row met)

  -- An insert with an expected version other than 0
  abbrev pub locked_insert : StreamId → ℕ → ℕ → List RawEvent → Exec (Session T) (Unit {0})
  locked_insert sid expected u events =
      insert_events iterate texts outbox dispatch sid (explicit_versioning (suc expected) (some u))
        events

  -- After the lock, the object that `first_true` finds is one of the row.
  ensured_object :
      (sid : StreamId) (expected u : ℕ) (log : List RawEvent) (s : Session T)
      → (h : HoldsAlone order sid (suc expected) log s)
      → (ensure_streams sid (explicit_versioning (suc expected) (some u)) s
          ≡ (ok tt, after_lock sid (suc expected) (some u) h.held.row s))
        × (o : StreamRow) × (object_of iterate sid s.tenant_id (add_object h.held.row s.strong_set)
            ≡ ok o)
        × (o.id ≡ h.held.row.id)
        × (o.tenant_id ≡ s.tenant_id)
  ensured_object sid expected u log s h =
      let row = h.held.row in
      let met = is_object-row sid (suc expected) log s h in
      let (there, within, same) = In-add_object_id row s.strong_set in
      let (o, found, at, tenant) =
        object_of-AreObjects iterate iterates sid s.tenant_id row.id (add_object row s.strong_set)
          there (AreObjects-add_object sid s.tenant_id row s.strong_set h.objects met) within
          same in
      (ensure_streams-found order sid expected (some u) log s h, o, found, at, tenant)

  pub insert_events-found :
      (sid : StreamId) (expected u : ℕ) (log : List RawEvent) (e : RawEvent) (rest : List RawEvent)
      (s : Session T)
      → (h : HoldsAlone order sid (suc expected) log s)
      → have_room (e ∷ rest) h.held.row.id s.tables ≡ true
      → locked_insert sid expected u (e ∷ rest) s ≡ (
        (dispatch (recorded_rows (e ∷ rest) s.tenant_id s.tables.next_event) s.dispatched).0,
        stored texts outbox dispatch
            (e ∷ rest)
            (at_version (some u) h.held.row)
            (after_lock sid (suc expected) (some u) h.held.row s),
      )
  unfolding insert_events
  insert_events-found sid expected u log e rest s h room =
      let row = h.held.row in
      let s' = after_lock sid (suc expected) (some u) row s in
      let (ensured, o, found, at, tenant) = ensured_object sid expected u log s h in
      let matched =
        matching_streams-locked sid s.tenant_id row s.tables h.held.found h.held.named
          (suc expected) (some u) (In-select (compares sid) s.tables.streams row [] h.alone).1
          h.held.version in
      let here =
        stream_of-In (at_version (some u) row) s'.tables
          (IsDistinct-locked sid (suc expected) (some u) s.tables.streams h.distinct)
          (In-select (by_stream_id sid s.tenant_id) s'.tables.streams (at_version (some u) row) []
            matched).0 in
      rw (ensured, found)
        (extend_events-stored texts outbox dispatch e rest (at_version (some u) row) o s' at tenant
          (rw here refl) room)

  pub insert_events-stale :
      (sid : StreamId) (v expected u : ℕ) (log events : List RawEvent) (s : Session T)
      → (h : HoldsAlone order sid v log s) → nat_beq v (suc expected) ≡ false
      → locked_insert sid expected u events s ≡ (
        err concurrent_stream_write_without_arguments,
        record s { strong_set = add_object h.held.row s.strong_set },
      )
  unfolding insert_events
  insert_events-stale sid v expected u log events s h stale =
      rw (ensure_streams-stale order sid v expected (some u) log s h stale) refl

  -- A flush that an index refuses
  insert_events-no_room :
      (sid : StreamId) (expected u : ℕ) (log : List RawEvent) (e : RawEvent) (rest : List RawEvent)
      (s : Session T)
      → (h : HoldsAlone order sid (suc expected) log s)
      → have_room (e ∷ rest) h.held.row.id s.tables ≡ false
      → locked_insert sid expected u (e ∷ rest) s
        ≡ (err integrity_error, after_lock sid (suc expected) (some u) h.held.row s)
  unfolding insert_events
  insert_events-no_room sid expected u log e rest s h full =
      let (ensured, o, found, at, tenant) = ensured_object sid expected u log s h in
      rw (ensured, found)
        (extend_events-no_room texts outbox dispatch e rest (at_version (some u) h.held.row) o
          (after_lock sid (suc expected) (some u) h.held.row s) at full)

  stored-HoldsAlone :
      (sid : StreamId) (expected u : ℕ) (log : List RawEvent) (e : RawEvent) (rest : List RawEvent)
      (s : Session T)
      → (h : HoldsAlone order sid (suc expected) log s) → IsRising (suc expected) u (e ∷ rest)
      → IsFor sid (e ∷ rest)
      → HoldsAlone order sid u (log ++ e ∷ rest) (
          stored texts outbox dispatch
            (e ∷ rest)
            (at_version (some u) h.held.row)
            (after_lock sid (suc expected) (some u) h.held.row s))
  stored-HoldsAlone sid expected u log e rest s h rising for =
      let row = at_version (some u) h.held.row in
      let new = e ∷ rest in
      let t = locked sid (suc expected) (some u) s.tables in
      let rows = entry_rows new row s.tables.next_event in
      let records = recorded_rows new s.tenant_id s.tables.next_event in
      let after = put_if_any texts outbox records (with_events rows t) in
      let met = (In-select (compares sid) s.tables.streams h.held.row [] h.alone).1 in
      let matched =
        matching_streams-locked sid s.tenant_id h.held.row s.tables h.held.found h.held.named
          (suc expected) (some u) met h.held.version in
      let held =
        Holds-put_if_any order promised texts outbox sid s.tenant_id u (log ++ new) records
          (with_events rows t)
          (Holds-with_events order promised texts outbox sid s.tenant_id (suc expected) u log new
            s.tables.next_event s.tables t.streams h.held rising
            (IsRising-le (suc expected) u new rising) for matched) in
      let same_streams = streams-put_if_any texts outbox records (with_events rows t) in
      let one : held.row ≡ row =
        only_row
          (sym held.found ∙ ap (select (by_stream_id sid s.tenant_id)) same_streams ∙ matched) in
      let snapshots =
        latest_snapshot-put_if_any order row.id texts outbox records (with_events rows t)
        ∙ latest_snapshot-with_events order row.id rows t.streams s.tables in
      record {
        held = held;
        distinct =
            subst IsDistinct (sym same_streams)
              (IsDistinct-locked sid (suc expected) (some u) s.tables.streams h.distinct);
        alone =
            ap (select (compares sid)) same_streams
            ∙ compares-locked sid s.tenant_id h.held.row s.tables h.held.found h.held.named
                (suc expected) (some u) h.alone h.held.version
            ∙ ap (λ r. r ∷ []) (sym one);
        own =
            subst (λ r. IsOf r.id (latest_snapshot order r.id none none after)) (sym one)
              (subst (IsOf row.id) (sym snapshots) h.own);
        objects =
            subst
              (λ r.
                (o : StreamRow)
                → In o (add_object h.held.row s.strong_set)
                → (is_object sid s.tenant_id o ≡ true) ↔ (o.id ≡ r.id))
              (sym one)
              (AreObjects-add_object sid s.tenant_id h.held.row s.strong_set h.objects
                (is_object-row sid (suc expected) log s h));
      }

  -- If the database keeps to its orders and a set is iterated over its objects: the stream of an
  -- identifier holds `log` up to the version `expected`, not 0; its row has the name of the
  -- identifier, is the only one that compares equal to it, whichever the tenant, and no two rows
  -- have one number; the objects that the session keeps for the identifier are those of the row.
  -- An insert of events for the stream that are one at least, have versions that grow from above
  -- `expected`, the last `u`, and for which the unique indexes have room, answers what the
  -- dispatcher answers to the new records, and all this holds afterwards of `log` with the events
  -- behind it, up to `u`.
  pub insert_events-HoldsAlone :
      (sid : StreamId) (expected u : ℕ) (log : List RawEvent) (e : RawEvent) (rest : List RawEvent)
      (s : Session T)
      → (h : HoldsAlone order sid (suc expected) log s) → IsRising (suc expected) u (e ∷ rest)
      → IsFor sid (e ∷ rest)
      → have_room (e ∷ rest) h.held.row.id s.tables ≡ true
      → ((locked_insert sid expected u (e ∷ rest) s).0
          ≡ (dispatch (recorded_rows (e ∷ rest) s.tenant_id s.tables.next_event) s.dispatched).0)
        × HoldsAlone order sid u (log ++ e ∷ rest) (locked_insert sid expected u (e ∷ rest) s).1
  insert_events-HoldsAlone sid expected u log e rest s h rising for room =
      let run = insert_events-found sid expected u log e rest s h room in
      (
        ap (λ r. r.0) run,
        subst (λ r. HoldsAlone order sid u (log ++ e ∷ rest) r.1) (sym run)
            (stored-HoldsAlone sid expected u log e rest s h rising for),
      )
