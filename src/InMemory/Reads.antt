-- ===== src/InMemory/Reads.antt =====
-- What `fetch_events` returns after each operation.
use mathlib.Core.List.{map-append}
use python_event_sourcery.Prelude.{
  ℕ, zero, suc, ◌+◌, sym, Option, none, some, Bool, true, false, List, [], ◌∷◌, ◌++◌, all,
  select-append, ◌≡◌, ◌∙◌, ap, refl, arith, if◌then◌else◌, Option-cases, inl, inr, string_key,
}
use python_event_sourcery.Prelude.Dict.{lookup, lookup-insert, lookup-remove, lookup_congr}
use python_event_sourcery.Errors.{Error, ok, err}
use python_event_sourcery.Exec.{Exec}
use python_event_sourcery.StreamId.{
  StreamId, TenantId, stream_id_same, stream_id_key, stream_id_refl,
}
use python_event_sourcery.Versioning.{Versioning}
use python_event_sourcery.Event.{RawEvent, RecordedRaw}
use python_event_sourcery.InMemory.Storage.{Storage, position_or_zero}
use python_event_sourcery.InMemory.Storage.Valid.{IsValid}
use python_event_sourcery.InMemory.Strategy.{
  Strategy, index_of, slice, take_to, drop_to, entries_of, fetch_from, recorded_from, fetch_events,
  insert_events, save_snapshot, delete_stream,
}
use python_event_sourcery.InMemory.Created.{contents, stream_version}
use python_event_sourcery.InMemory.Insert.{verdict}
use python_event_sourcery.InMemory.Inserted.{new_records, insert-Inserted, insert-Refused}

take_to-nil : (stop : Option ℕ) → take_to stop [] ≡ []
take_to-nil none = refl
take_to-nil (some zero) = refl
take_to-nil (some (suc n)) = refl

drop_to-nil : (start : Option ℕ) → drop_to start [] ≡ []
drop_to-nil none = refl
drop_to-nil (some zero) = refl
drop_to-nil (some (suc n)) = refl

slice-nil : (start stop : Option ℕ) → slice start stop [] ≡ []
slice-nil start stop = rw (take_to-nil stop) (drop_to-nil start)

-- A read never raises: it is a function of the records of the stream.
pub fetch_from-contents :
    (tenant : TenantId) (j : StreamId) (start stop : Option ℕ) (s : Storage)
    → fetch_from tenant j start stop s
      ≡ ok (entries_of tenant (slice (index_of start) (index_of stop) (contents j s)))
unfolding fetch_from
fetch_from-contents tenant j start stop s = elim (Option-cases (lookup j s.streams)) [
  | inl missing ↦
      rw missing
        (ap (λ l. ok (entries_of tenant l)) (sym (slice-nil (index_of start) (index_of stop))))
  | inr (l, found) ↦ rw found
]

-- The records that a tenant makes are all its own.
pub entries_of-recorded_from :
    (p : ℕ) (tenant : TenantId) (events : List RawEvent)
    → entries_of tenant (recorded_from p tenant events) ≡ events
unfolding recorded_from
entries_of-recorded_from p tenant [] = refl
entries_of-recorded_from p tenant (e ∷ rest) =
    ground (arith, string_key.same_refl tenant, entries_of-recorded_from (p + 1) tenant rest)

entries_of-append :
    (tenant : TenantId) (xs ys : List RecordedRaw)
    → entries_of tenant (xs ++ ys) ≡ entries_of tenant xs ++ entries_of tenant ys
entries_of-append tenant xs ys = rw (select-append, map-append)

-- Two storages with the same records of a stream are read alike.
pub fetch_from_congr :
    (tenant : TenantId) (j : StreamId) (start stop : Option ℕ) (s t : Storage)
    → contents j t ≡ contents j s
    → fetch_from tenant j start stop t ≡ fetch_from tenant j start stop s
fetch_from_congr tenant j start stop s t h =
    fetch_from-contents tenant j start stop t
    ∙ ap (λ l. ok (entries_of tenant (slice (index_of start) (index_of stop) l))) h
    ∙ sym (fetch_from-contents tenant j start stop s)

-- The record that `save_snapshot` makes.
abbrev pub snapshot_record {ℓ} : {T : Type ℓ} → RawEvent → Strategy T → RecordedRaw
snapshot_record snapshot s = record {
  entry = snapshot;
  position = position_or_zero s.storage + 1;
  tenant_id = s.tenant_id;
}

contents-delete_stream {ℓ} :
    {T : Type ℓ} (sid j : StreamId) (s : Strategy T)
    → contents j (delete_stream sid s).1.storage
      ≡ (if stream_id_same sid j then [] else contents j s.storage)
unfolding delete_stream
contents-delete_stream sid j s =
    ground (arith, lookup-remove sid j s.storage.streams, lookup_congr sid j s.storage.streams)

contents-save_snapshot {ℓ} :
    {T : Type ℓ} (snapshot : RawEvent) (j : StreamId) (s : Strategy T)
    → contents j (save_snapshot snapshot s).storage ≡ (
        if stream_id_same snapshot.stream_id j
        then snapshot_record snapshot s ∷ []
        else contents j s.storage)
unfolding save_snapshot
contents-save_snapshot snapshot j s =
    ground (
      arith,
      lookup-insert snapshot.stream_id j (snapshot_record snapshot s ∷ []) s.storage.streams,
    )

-- The stream of a snapshot holds it alone.
pub contents-snapshot {ℓ} :
    {T : Type ℓ} (snapshot : RawEvent) (s : Strategy T)
    → contents snapshot.stream_id (save_snapshot snapshot s).storage
      ≡ snapshot_record snapshot s ∷ []
contents-snapshot snapshot s =
    ground (
      arith,
      contents-save_snapshot snapshot snapshot.stream_id s,
      stream_id_refl snapshot.stream_id,
    )

module _ {ℓ} {T : Type ℓ} where
  module _ (filterer : RawEvent → Bool) (dispatch : List RecordedRaw → Exec T (Unit {0}))
      (sid : StreamId) (vs : Versioning) (events : List RawEvent) (s : Strategy T) where
    abbrev after_insert : Strategy T
    after_insert = (insert_events filterer dispatch sid vs events s).1

    -- After an accepted insert of events of its stream into a valid storage, the stream reads as
    -- before with the events at its end, and every other stream reads as before, in any range and
    -- for any tenant.
    pub fetch_events-insert_events :
        IsValid s.storage
        → verdict vs (stream_version sid s.storage) ≡ ok tt
        → all (λ e. stream_id_same sid e.stream_id) events ≡ true
        → ((old : List RawEvent)
            → fetch_events sid none none s ≡ ok old
            → fetch_events sid none none after_insert ≡ ok (old ++ events))
          × ((tenant : TenantId) (j : StreamId) (start stop : Option ℕ)
              → stream_id_same sid j ≡ false
              → fetch_from tenant j start stop after_insert.storage
                ≡ fetch_from tenant j start stop s.storage)
    unfolding fetch_events
    fetch_events-insert_events v accepted mine =
        let i = insert-Inserted filterer dispatch sid vs events s v accepted mine in
        (
          λ old h.
              let now : contents sid after_insert.storage
                  ≡ contents sid s.storage ++ new_records filterer dispatch sid vs events s =
                ground (arith, i.at_contents sid, stream_id_refl sid) in
              let before : entries_of s.tenant_id (contents sid s.storage) ≡ old =
                cc (fetch_from-contents s.tenant_id sid none none s.storage, h) in
              let new = new_records filterer dispatch sid vs events s in
              let whole : entries_of s.tenant_id (contents sid s.storage ++ new) ≡ old ++ events =
                entries_of-append s.tenant_id (contents sid s.storage) new
                ∙ cc (
                  before,
                  entries_of-recorded_from (position_or_zero s.storage) s.tenant_id events,
                ) in
              fetch_from-contents after_insert.tenant_id sid none none after_insert.storage
              ∙ rw (i.tenant, now) (ap ok whole),
          λ tenant j start stop ne.
              fetch_from_congr tenant j start stop s.storage after_insert.storage
                (ground (arith, i.at_contents j)),
        )

    -- A refused insert into a valid storage raises the verdict, and no read and no subscription can
    -- tell that it was tried: every range of every stream, the log, the outbox and what was
    -- dispatched stay.
    fetch_events-insert_refused :
        {e : Error}
        → IsValid s.storage
        → verdict vs (stream_version sid s.storage) ≡ err e
        → ((insert_events filterer dispatch sid vs events s).0 ≡ err e)
          × ((tenant : TenantId) (j : StreamId) (start stop : Option ℕ)
              → fetch_from tenant j start stop after_insert.storage
                ≡ fetch_from tenant j start stop s.storage)
          × (after_insert.storage.records ≡ s.storage.records)
          × (after_insert.outbox ≡ s.outbox)
          × (after_insert.dispatched ≡ s.dispatched)
    fetch_events-insert_refused v refused =
        let (raised, r) = insert-Refused filterer dispatch sid vs events s v refused in
        (
          raised,
          λ tenant j start stop.
              fetch_from_congr tenant j start stop s.storage after_insert.storage (r.at_contents j),
          r.log,
          r.in_outbox,
          r.sent,
        )

  -- After a deletion the stream reads as empty, for every tenant, whichever tenant deleted it; the
  -- other streams, the log and the outbox stay.
  pub fetch_events-delete_stream :
      (sid : StreamId) (s : Strategy T)
      → ((delete_stream sid s).0 ≡ ok tt)
        × ((tenant : TenantId) (start stop : Option ℕ)
            → fetch_from tenant sid start stop (delete_stream sid s).1.storage ≡ ok [])
        × ((tenant : TenantId) (j : StreamId) (start stop : Option ℕ)
            → stream_id_same sid j ≡ false
            → fetch_from tenant j start stop (delete_stream sid s).1.storage
              ≡ fetch_from tenant j start stop s.storage)
        × ((delete_stream sid s).1.storage.records ≡ s.storage.records)
        × ((delete_stream sid s).1.outbox ≡ s.outbox)
  unfolding delete_stream
  fetch_events-delete_stream sid s =
      let t = (delete_stream sid s).1 in
      let gone : contents sid t.storage ≡ [] =
        ground (arith, contents-delete_stream sid sid s, stream_id_refl sid) in
      (
        ground arith,
        λ tenant start stop.
            fetch_from-contents tenant sid start stop t.storage
            ∙ rw (gone, slice-nil (index_of start) (index_of stop)),
        λ tenant j start stop ne.
            fetch_from_congr tenant j start stop s.storage t.storage
              (ground (arith, contents-delete_stream sid j s)),
        ground arith,
        ground arith,
      )

  -- After a snapshot its stream reads as the snapshot alone, for the tenant that took it; the other
  -- streams and the log stay.
  pub fetch_events-save_snapshot :
      (snapshot : RawEvent) (s : Strategy T)
      → (fetch_events snapshot.stream_id none none (save_snapshot snapshot s) ≡ ok (snapshot ∷ []))
        × ((tenant : TenantId) (j : StreamId) (start stop : Option ℕ)
            → stream_id_same snapshot.stream_id j ≡ false
            → fetch_from tenant j start stop (save_snapshot snapshot s).storage
              ≡ fetch_from tenant j start stop s.storage)
        × ((save_snapshot snapshot s).storage.records ≡ s.storage.records)
  unfolding save_snapshot fetch_events
  fetch_events-save_snapshot snapshot s =
      let t = save_snapshot snapshot s in
      (
        fetch_from-contents s.tenant_id snapshot.stream_id none none t.storage
            ∙ rw (contents-snapshot snapshot s, string_key.same_refl s.tenant_id),
        λ tenant j start stop ne.
            fetch_from_congr tenant j start stop s.storage t.storage
              (ground (arith, contents-save_snapshot snapshot j s)),
        refl,
      )
