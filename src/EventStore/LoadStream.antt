-- ===== src/EventStore/LoadStream.antt =====
-- What `load_stream` returns after `append`, over the in-memory backend.
use python_event_sourcery.Prelude.{
  ℕ, Option, none, Bool, List, [], ◌∷◌, ◌++◌, ◌≡◌, ap, sym, subst, refl,
}
use python_event_sourcery.Errors.{ok}
use python_event_sourcery.Exec.{Exec, ◌>>=◌, continue, continue-eq_ok, pure}
use python_event_sourcery.StreamId.{StreamId}
use python_event_sourcery.Event.{RawEvent, RecordedRaw, WrappedEvent}
use python_event_sourcery.Registry.{Registry}
use python_event_sourcery.Registry.Growth.{Reachable}
use python_event_sourcery.InMemory.Strategy.{Strategy}
use python_event_sourcery.InMemory.Storage.Valid.{IsValid}
use python_event_sourcery.InMemory.Created.{stream_version}
use python_event_sourcery.InMemory.Insert.{verdict}
use python_event_sourcery.InMemory.Reads.{fetch_events-insert_events}
use python_event_sourcery.Serde.{Setting, for_each, serialize_many, deserialize, deserialize_many}
use python_event_sourcery.Serde.RoundTrip.{AllPlain, deserialize_many-serialize_many}
use python_event_sourcery.EventStore.{
  StorageStrategy, Store, ExpectedVersion, versioning_of, last_version, load_stream, append,
  on_registry,
}
use python_event_sourcery.EventStore.OverMemory.{in_memory}

-- A loop over two lists is the loop over the first, then the second.
for_each-append {ℓ κ μ} :
    {S : Type ℓ} {A : Type κ} {B : Type μ} (f : A → Exec S B) (xs ys : List A) (s : S)
    {as' bs : List B} {t u : S}
    → for_each f xs s ≡ (ok as', t)
    → for_each f ys t ≡ (ok bs, u)
    → for_each f (xs ++ ys) s ≡ (ok (as' ++ bs), u)
unfolding for_each
for_each-append f [] ys s {as'} {bs} {t} {u} h k =
    let none_yet : [] ≡ as' = cc in
    let same : s ≡ t = cc in
    rw (← none_yet) (subst (λ x. for_each f ys x ≡ (ok bs, u)) (sym same) k)
for_each-append f (x ∷ xs) ys s {as'} {bs} {t} {u} h k =
    let s1 = (f x s).1 in
    let (y, first, others) =
      continue-eq_ok (f x s).0 (λ y. for_each f xs >>= λ rest. pure (y ∷ rest)) s1 h in
    let (rest, read, last) =
      continue-eq_ok (for_each f xs s1).0 (λ rest. pure (y ∷ rest)) (for_each f xs s1).1 others in
    let is_list : y ∷ rest ≡ as' = cc in
    let same : (for_each f xs s1).1 ≡ t = cc in
    let whole : for_each f xs s1 ≡ (ok rest, t) = rw (← read, ← same) refl in
    rw (first, continue, for_each-append f xs ys s1 whole k, ← is_list) refl

module _ {ℓ} {S : Type ℓ} (storage_strategy : StorageStrategy S) (setting : Setting) where
  append-outcome :
      (events : List WrappedEvent) (sid : StreamId) (expected : ExpectedVersion) (s : Store S)
      (new_version : Option ℕ) (raws : List RawEvent)
      → last_version events ≡ ok new_version
      → serialize_many setting events sid s.registry ≡ (ok raws, s.registry)
      → append storage_strategy setting events sid expected s ≡ (
        (storage_strategy.insert_events sid (versioning_of expected new_version) raws s.strategy).0,
        record {
          strategy =
              (storage_strategy.insert_events sid
                (versioning_of expected new_version)
                raws
                s.strategy).1;
          registry = s.registry;
        },
      )
  unfolding append
  append-outcome events sid expected s new_version raws h k = rw (h, continue, k) refl

  load_stream-outcome :
      (sid : StreamId) (s : Store S) (raws : List RawEvent) (events : List WrappedEvent)
      → storage_strategy.fetch_events sid none none s.strategy ≡ ok raws
      → deserialize_many setting raws s.registry ≡ (ok events, s.registry)
      → load_stream storage_strategy setting sid none none s ≡ (ok events, s)
  unfolding load_stream
  load_stream-outcome sid s raws events h k = rw (h, continue, k) refl

  load_stream-parts :
      (sid : StreamId) (s : Store S) (events : List WrappedEvent)
      → load_stream storage_strategy setting sid none none s ≡ (ok events, s)
      → (raws : List RawEvent) × (storage_strategy.fetch_events sid none none s.strategy ≡ ok raws)
        × (deserialize_many setting raws s.registry ≡ (ok events, s.registry))
  unfolding load_stream
  load_stream-parts sid s events h =
      let (raws, fetched, read) =
        continue-eq_ok (storage_strategy.fetch_events sid none none s.strategy)
          (λ raws. on_registry storage_strategy setting (deserialize_many setting raws)) s h in
      (raws, fetched, ap (λ p. (p.0, p.1.registry)) read)

module _ {ℓ} {T : Type ℓ} (filterer : RawEvent → Bool)
    (dispatch : List RecordedRaw → Exec T (Unit {0})) (setting : Setting) where
  whole :
      {r : Registry} {old events : List WrappedEvent} (old_raws raws : List RawEvent)
      → deserialize_many setting old_raws r ≡ (ok old, r)
      → deserialize_many setting raws r ≡ (ok events, r)
      → deserialize_many setting (old_raws ++ raws) r ≡ (ok (old ++ events), r)
  unfolding deserialize_many
  whole {r} old_raws raws h k = for_each-append (deserialize setting) old_raws raws r h k

  -- Over the in-memory backend with a valid storage and a registry that can be reached: when the
  -- verdict on the stream lets the append through, `load_stream` returns after it what it returned
  -- before, followed by the appended events, if those have no encrypted field and are rebuilt by
  -- their classes.
  pub load_stream-append :
      (events old : List WrappedEvent) (sid : StreamId) (expected : ExpectedVersion)
      (s : Store (Strategy T)) (new_version : Option ℕ)
      → Reachable setting.defined s.registry
      → IsValid s.strategy.storage
      → last_version events ≡ ok new_version
      → verdict (versioning_of expected new_version) (stream_version sid s.strategy.storage) ≡ ok tt
      → AllPlain setting s.registry events
      → load_stream (in_memory filterer dispatch) setting sid none none s ≡ (ok old, s)
      → (let t = (append (in_memory filterer dispatch) setting events sid expected s).1 in
          load_stream (in_memory filterer dispatch) setting sid none none t
          ≡ (ok (old ++ events), t))
  unfolding in_memory
  load_stream-append events old sid expected s new_version reached valid last accepted plain
        before =
      let memory = in_memory filterer dispatch in
      let (raws, written, mine, read) =
        deserialize_many-serialize_many setting reached events sid plain in
      let (old_raws, fetched, old_read) = load_stream-parts memory setting sid s old before in
      let vs = versioning_of expected new_version in
      let (now, others) =
        fetch_events-insert_events filterer dispatch sid vs raws s.strategy valid accepted mine in
      rw (append-outcome memory setting events sid expected s new_version raws last written) (
        load_stream-outcome memory setting sid _ (old_raws ++ raws) (old ++ events)
          (now old_raws fetched) (whole old_raws raws old_read read))
