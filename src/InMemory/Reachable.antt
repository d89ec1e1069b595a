-- ===== src/InMemory/Reachable.antt =====
-- The states that clients can bring an in-memory backend to, and what holds in all of them.
use python_event_sourcery.Prelude.{
  ℕ, suc, ◌+◌, some, Bool, true, false, List, [], ◌∷◌, ◌++◌, length, length-append, get_elem?, take,
  drop, ◌≡◌, ◌∙◌, refl, ap, sym, arith, Key, inl, inr,
}
use python_event_sourcery.Errors.{Result, Result-cases, ok}
use python_event_sourcery.Exec.{Exec}
use python_event_sourcery.StreamId.{StreamId, TenantId}
use python_event_sourcery.Versioning.{Versioning}
use python_event_sourcery.Event.{RawEvent, RecordedRaw}
use python_event_sourcery.Event.Json.{Fields}
use python_event_sourcery.InMemory.Storage
use python_event_sourcery.InMemory.Storage.{Storage, position_or_zero}
use python_event_sourcery.InMemory.Storage.Valid.{
  IsValid, IsValid-new, position-get_elem?, position_or_zero-length, append_log,
}
use python_event_sourcery.InMemory.Strategy.{
  Entries, Strategy, ensure_stream, create_if_missing, recorded_from, store_records, insert_events,
  save_snapshot, delete_stream, scoped_for_tenant, new_strategy,
}
use python_event_sourcery.InMemory.Invariant.{
  insert_events-IsValid, save_snapshot-IsValid, delete_stream-IsValid, ensure_stream_state,
  records-create_if_missing,
}
use python_event_sourcery.InMemory.Reads.{fetch_events-delete_stream}
use python_event_sourcery.InMemory.Inserted.{stored_outcome}
use python_event_sourcery.InMemory.Outbox.{State, run}
use python_event_sourcery.InMemory.Outbox.Run.{settled, run-settled}
use python_event_sourcery.InMemory.Outbox.Order.{
  IsOrdered, IsOrdered-mono, into_outbox-IsOrdered, settled-IsOrdered,
}

length-recorded_from :
    (p : ℕ) (tenant : TenantId) (events : List RawEvent)
    → length (recorded_from p tenant events) ≡ length events
unfolding recorded_from
length-recorded_from p tenant [] = refl
length-recorded_from p tenant (e ∷ rest) = ap suc (length-recorded_from (p + 1) tenant rest)

module _ {ℓ} {T : Type ℓ} where
  pub record IsSound (s : Strategy T) : Type ℓ where
    pub valid : IsValid s.storage
    pub ordered : IsOrdered (length s.storage.records) s.outbox

  module _ (filterer : RawEvent → Bool) (dispatch : List RecordedRaw → Exec T (Unit {0})) where
    store_records-IsOrdered :
        (n : ℕ) (tenant : TenantId) (events : List RawEvent) (s : Strategy T)
        → n ≡ length s.storage.records
        → IsOrdered n s.outbox
        → IsOrdered
            (length
              (store_records filterer dispatch (recorded_from n tenant events) s).1.storage.records)
            (store_records filterer dispatch (recorded_from n tenant events) s).1.outbox
    store_records-IsOrdered n tenant events s e h =
        let rs = recorded_from n tenant events in
        let logged : length (Storage.append rs s.storage).1.records ≡ n + length events =
          ap length (append_log rs s.storage)
          ∙ length-append s.storage.records rs
          ∙ rw (length-recorded_from n tenant events, e) in
        elim (Result-cases (Storage.append rs s.storage).0) [
          | inl (u, returned) ↦
              rw (stored_outcome filterer dispatch rs s returned, logged)
                (into_outbox-IsOrdered filterer tenant n events s.outbox h)
          | inr (x, raised) ↦
              unfold store_records in
              rw (raised, logged) (IsOrdered-mono n (n + length events) s.outbox (omega arith) h)
        ]

    insert_events-IsOrdered :
        (sid : StreamId) (vs : Versioning) (events : List RawEvent) (s : Strategy T)
        → IsSound s
        → IsOrdered
            (length (insert_events filterer dispatch sid vs events s).1.storage.records)
            (insert_events filterer dispatch sid vs events s).1.outbox
    insert_events-IsOrdered sid vs events s h =
        let n = length s.storage.records in
        let state = ensure_stream_state sid vs s.storage in
        let made = create_if_missing sid vs s.storage in
        let kept = records-create_if_missing sid vs s.storage in
        let position = position_or_zero-length s.storage h.valid in
        elim (Result-cases (ensure_stream sid vs s.storage).0) [
          | inl (u, passed) ↦
              unfold insert_events in
              rw (passed, state, position)
                (store_records-IsOrdered n s.tenant_id events (record s { storage = made })
                  (ap length (sym kept)) h.ordered)
          | inr (x, raised) ↦ unfold insert_events in rw (raised, state, kept) h.ordered
        ]

  module _ ⦃dict_key : Key Fields⦄ (max_attempts : ℕ) (filterer : RawEvent → Bool)
      (dispatch : List RecordedRaw → Exec T (Unit {0})) where
    -- A run of the outbox `l` of the strategy.
    unfoldable pub publish :
        (RecordedRaw → Exec T (Unit {0})) → ℕ → Entries → Exec (Strategy T) (Unit {0})
    unfolding run
    publish attempt limit l s =
        let done = run max_attempts attempt limit (record { entries = l; world = s.dispatched }) in
        (done.0, record s { outbox = some done.1.entries; dispatched = done.1.world })

    -- The operations of a client, any result of which it may ignore.
    pub data Step : Strategy T → Strategy T → Type ℓ where
      inserts :
          (s : Strategy T) (sid : StreamId) (vs : Versioning) (events : List RawEvent)
          → Step s (insert_events filterer dispatch sid vs events s).1
      snapshots : (s : Strategy T) (snapshot : RawEvent) → Step s (save_snapshot snapshot s)
      deletes : (s : Strategy T) (sid : StreamId) → Step s (delete_stream sid s).1
      scopes : (s : Strategy T) (tenant : TenantId) → Step s (scoped_for_tenant tenant s)
      publishes :
          (s : Strategy T) (l : Entries) (limit : ℕ) (attempt : RecordedRaw → Exec T (Unit {0}))
          → s.outbox ≡ some l
          → Step s (publish attempt limit l s).1

    -- What clients can bring a new strategy to.
    pub data Reachable : Strategy T → Type ℓ where
      fresh : (with_outbox : Bool) (t : T) → Reachable (new_strategy with_outbox t)
      next : {s t : Strategy T} → Reachable s → Step s t → Reachable t

    publish-settled :
        (attempt : RecordedRaw → Exec T (Unit {0})) (limit : ℕ) (l : Entries) (s : Strategy T)
        → IsOrdered (length s.storage.records) (some l)
        → publish attempt limit l s ≡ (
          ok tt,
          record s {
            outbox =
                some ((settled max_attempts attempt (take limit l) s.dispatched).0 ++ drop limit l);
            dispatched = (settled max_attempts attempt (take limit l) s.dispatched).1;
          },
        )
    unfolding publish
    publish-settled attempt limit l s h =
        ap
          (λ (done : Result (Unit {0}) × State T).
            let after : Result (Unit {0}) × Strategy T =
              (done.0, record s { outbox = some done.1.entries; dispatched = done.1.world }) in
            after)
          (run-settled max_attempts attempt limit (record { entries = l; world = s.dispatched })
            h.0)

    Step-IsSound : {s t : Strategy T} → Step s t → IsSound s → IsSound t
    unfolding scoped_for_tenant
    Step-IsSound (inserts s sid vs events) h = record {
      valid = insert_events-IsValid filterer dispatch sid vs events s h.valid;
      ordered = insert_events-IsOrdered filterer dispatch sid vs events s h;
    }
    Step-IsSound (snapshots s snapshot) h = record {
      valid = save_snapshot-IsValid snapshot s h.valid;
      ordered = unfold save_snapshot in h.ordered;
    }
    Step-IsSound (deletes s sid) h = record {
      valid = delete_stream-IsValid sid s h.valid;
      ordered = let same = fetch_events-delete_stream sid s in rw (same.3, same.4) h.ordered;
    }
    Step-IsSound (scopes s tenant) h = record { valid = h.valid; ordered = h.ordered }
    Step-IsSound (publishes s l limit attempt e) h =
        let ordered : IsOrdered (length s.storage.records) (some l) = rw e at (h.ordered) in
        rw (publish-settled attempt limit l s ordered) (record {
          valid = h.valid;
          ordered =
              settled-IsOrdered max_attempts attempt (length s.storage.records) limit l s.dispatched
                ordered;
        })

    -- In every reachable state the storage is valid and the outbox is in order.
    pub Reachable-IsSound : {s : Strategy T} → Reachable s → IsSound s
    unfolding new_strategy
    Reachable-IsSound (fresh true t) = record { valid = IsValid-new; ordered = (tt, tt) }
    Reachable-IsSound (fresh false t) = record { valid = IsValid-new; ordered = tt }
    Reachable-IsSound (next r step) = Step-IsSound step (Reachable-IsSound r)

    -- In every state that clients can reach by inserts, snapshots, deletions, changes of the tenant
    -- and runs of the outbox, failed or not, the record at index i of the log has the position
    -- i + 1.
    pub position-Reachable :
        {s : Strategy T} (reached : Reachable s) (i : ℕ) {r : RecordedRaw}
        → get_elem? s.storage.records i ≡ some r
        → r.position ≡ i + 1
    position-Reachable {s} reached i found = omega (
      arith,
      position-get_elem? 0 s.storage.records i (Reachable-IsSound reached).valid.numbered found,
    )

    -- In every reachable state with an outbox l, a run of it returns and raises nothing: the first
    -- `limit` entries are tried once, in order, and kept, counted or dropped by their answers, and
    -- the entries behind them stay.
    pub publish-Reachable :
        {s : Strategy T} (reached : Reachable s) (l : Entries)
        (attempt : RecordedRaw → Exec T (Unit {0})) (limit : ℕ)
        → s.outbox ≡ some l
        → publish attempt limit l s ≡ (
          ok tt,
          record s {
            outbox =
                some ((settled max_attempts attempt (take limit l) s.dispatched).0 ++ drop limit l);
            dispatched = (settled max_attempts attempt (take limit l) s.dispatched).1;
          },
        )
    publish-Reachable {s} reached l attempt limit e =
        publish-settled attempt limit l s (rw e at ((Reachable-IsSound reached).ordered))
