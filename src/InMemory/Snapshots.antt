-- ===== src/InMemory/Snapshots.antt =====
-- Reads in a range after a snapshot: the slice counts records, not versions.
use python_event_sourcery.Prelude.{
  ℕ, zero, suc, Option, none, some, [], ◌∷◌, ◌≡◌, ◌∙◌, ap, refl, drop, string_key,
}
use python_event_sourcery.Errors.{ok}
use python_event_sourcery.Event.{RawEvent, RecordedRaw}
use python_event_sourcery.InMemory.Strategy.{
  Strategy, fetch_events, save_snapshot, entries_of, slice, index_of,
}
use python_event_sourcery.InMemory.Reads.{fetch_from-contents, snapshot_record, contents-snapshot}

drop-nil : (k : ℕ) → drop {A = RecordedRaw} k [] ≡ []
drop-nil zero = refl
drop-nil (suc k) = refl

-- One record has none from the second on.
slice-one {ℓ} :
    {T : Type ℓ} (snapshot : RawEvent) (s : Strategy T) (k : ℕ) (stop : Option ℕ)
    → slice (index_of (some (suc (suc k)))) stop (snapshot_record snapshot s ∷ []) ≡ []
slice-one snapshot s k none = drop-nil k
slice-one snapshot s k (some zero) = refl
slice-one snapshot s k (some (suc zero)) = drop-nil k
slice-one snapshot s k (some (suc (suc n))) = drop-nil k

-- After a snapshot a read of its stream from version 2 or any later version on returns nothing,
-- even when the version of the snapshot is in the range.
pub fetch_events-after_snapshot {ℓ} :
    {T : Type ℓ} (snapshot : RawEvent) (s : Strategy T) (k : ℕ) (stop : Option ℕ)
    → fetch_events snapshot.stream_id (some (suc (suc k))) stop (save_snapshot snapshot s) ≡ ok []
unfolding fetch_events save_snapshot
fetch_events-after_snapshot snapshot s k stop =
    fetch_from-contents s.tenant_id snapshot.stream_id (some (suc (suc k))) stop
      (save_snapshot snapshot s).storage
    ∙ ap
        (λ l. ok (entries_of s.tenant_id (slice (index_of (some (suc (suc k)))) (index_of stop) l)))
        (contents-snapshot snapshot s)
    ∙ ap (λ l. ok (entries_of s.tenant_id l)) (slice-one snapshot s k (index_of stop))
