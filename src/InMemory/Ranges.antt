-- ===== src/InMemory/Ranges.antt =====
-- `fetch_events` cuts a stream by index, `start - 1` to `stop - 1`. On a stream whose versions are
-- 1, 2, … that is the cut by version that the interface promises.
use python_event_sourcery.Prelude.{
  ℕ, zero, suc, ◌+◌, ◌≤◌, Option, none, some, Bool, true, false, ◌&&◌, List, [], ◌∷◌, map, select,
  take, drop, ltb, leb, ◌≡◌, ◌∙◌, sym, ap, refl, arith, ◌==◌, string_key,
}
use python_event_sourcery.Errors.{ok}
use python_event_sourcery.StreamId.{StreamId, TenantId}
use python_event_sourcery.Event.{RecordedRaw}
use python_event_sourcery.InMemory.Storage.{Storage}
use python_event_sourcery.InMemory.Strategy.{
  index_of, slice, take_to, drop_to, entries_of, fetch_from,
}
use python_event_sourcery.InMemory.Created.{contents}
use python_event_sourcery.InMemory.Reads.{fetch_from-contents}

-- The versions are `k + 1`, `k + 2`, and so on, and one tenant wrote them.
abbrev pub IsContiguous : TenantId → ℕ → List RecordedRaw → Type 0
IsContiguous tenant k [] = Unit
IsContiguous tenant k (r ∷ rest) =
    (r.entry.version ≡ some (k + 1)) × (r.tenant_id ≡ tenant) × IsContiguous tenant (k + 1) rest

-- `version >= start`
abbrev pub from_start : Option ℕ → Option ℕ → Bool
from_start none v = true
from_start (some a) none = false
from_start (some a) (some v) = leb a v

-- `version < stop`
abbrev pub before_stop : Option ℕ → Option ℕ → Bool
before_stop none v = true
before_stop (some b) none = false
before_stop (some b) (some v) = ltb v b

abbrev pub in_range : Option ℕ → Option ℕ → RecordedRaw → Bool
in_range start stop r = from_start start r.entry.version && before_stop stop r.entry.version

select-true : (l : List RecordedRaw) → select (λ r. true) l ≡ l
select-true [] = refl
select-true (r ∷ l) = ap (◌∷◌ r) (select-true l)

select-select :
    (p q : RecordedRaw → Bool) (l : List RecordedRaw)
    → select p (select q l) ≡ select (λ r. p r && q r) l
select-select p q [] = refl
select-select p q (r ∷ l) = let rest = select-select p q l in ground arith

module _ (tenant : TenantId) where
  select_from :
      (k a : ℕ) (l : List RecordedRaw)
      → IsContiguous tenant k l
      → a ≤ k + 1
      → select (λ r. from_start (some a) r.entry.version) l ≡ l
  select_from k a [] h le = refl
  select_from k a (r ∷ l) h le =
      let rest = select_from (k + 1) a l h.2 (omega arith) in ground arith

  select_before_none :
      (k b : ℕ) (l : List RecordedRaw)
      → IsContiguous tenant k l
      → b ≤ k + 1
      → select (λ r. before_stop (some b) r.entry.version) l ≡ []
  select_before_none k b [] h le = refl
  select_before_none k b (r ∷ l) h le =
      let rest = select_before_none (k + 1) b l h.2 (omega arith) in ground arith

  drop-select :
      (k i a : ℕ) (l : List RecordedRaw)
      → IsContiguous tenant k l
      → a ≡ k + i + 1
      → drop i l ≡ select (λ r. from_start (some a) r.entry.version) l
  drop-select k zero a l h e = sym (select_from k a l h (omega arith))
  drop-select k (suc i) a [] h e = refl
  drop-select k (suc i) a (r ∷ l) h e =
      let rest = drop-select (k + 1) i a l h.2 (omega arith) in ground arith

  take-select :
      (k n b : ℕ) (l : List RecordedRaw)
      → IsContiguous tenant k l
      → b ≡ k + n + 1
      → take n l ≡ select (λ r. before_stop (some b) r.entry.version) l
  take-select k zero b l h e = sym (select_before_none k b l h (omega arith))
  take-select k (suc n) b [] h e = refl
  take-select k (suc n) b (r ∷ l) h e =
      let rest = take-select (k + 1) n b l h.2 (omega arith) in ground arith

  IsContiguous-take :
      (k n : ℕ) (l : List RecordedRaw) → IsContiguous tenant k l → IsContiguous tenant k (take n l)
  IsContiguous-take k zero l h = tt
  IsContiguous-take k (suc n) [] h = tt
  IsContiguous-take k (suc n) (r ∷ l) h = (h.0, h.1, IsContiguous-take (k + 1) n l h.2)

  take_to-select :
      (stop : Option ℕ) (l : List RecordedRaw)
      → IsContiguous tenant 0 l
      → take_to (index_of stop) l ≡ select (λ r. before_stop stop r.entry.version) l
  take_to-select none l h = sym (select-true l)
  take_to-select (some zero) l h = sym (select_before_none 0 0 l h (omega arith))
  take_to-select (some (suc v)) l h = take-select 0 v (suc v) l h (omega arith)

  drop_to-select :
      (start : Option ℕ) (l : List RecordedRaw)
      → IsContiguous tenant 0 l
      → drop_to (index_of start) l ≡ select (λ r. from_start start r.entry.version) l
  drop_to-select none l h = sym (select-true l)
  drop_to-select (some zero) l h = sym (select_from 0 0 l h (omega arith))
  drop_to-select (some (suc v)) l h = drop-select 0 v (suc v) l h (omega arith)

  IsContiguous-take_to :
      (stop : Option ℕ) (l : List RecordedRaw)
      → IsContiguous tenant 0 l
      → IsContiguous tenant 0 (take_to stop l)
  IsContiguous-take_to none l h = h
  IsContiguous-take_to (some n) l h = IsContiguous-take 0 n l h

  slice-select :
      (start stop : Option ℕ) (l : List RecordedRaw)
      → IsContiguous tenant 0 l
      → slice (index_of start) (index_of stop) l ≡ select (in_range start stop) l
  slice-select start stop l h =
      drop_to-select start (take_to (index_of stop) l) (IsContiguous-take_to (index_of stop) l h)
      ∙ ap (select (λ r. from_start start r.entry.version)) (take_to-select stop l h)
      ∙ select-select (λ r. from_start start r.entry.version)
          (λ r. before_stop stop r.entry.version) l

  select_tenant :
      (p : RecordedRaw → Bool) (k : ℕ) (l : List RecordedRaw)
      → IsContiguous tenant k l
      → select (λ r. r.tenant_id == tenant) (select p l) ≡ select p l
  select_tenant p k [] h = refl
  select_tenant p k (r ∷ l) h =
      let rest = select_tenant p (k + 1) l h.2 in
      let mine : (r.tenant_id == tenant) ≡ true = rw h.1 (string_key.same_refl tenant) in
      ground arith

  -- On a stream that one tenant wrote with the versions 1, 2, …, that tenant reads in the range
  -- from `start` to `stop` exactly the events with `start <= version < stop`, in order.
  pub fetch_from-in_range :
      (sid : StreamId) (start stop : Option ℕ) (s : Storage)
      → IsContiguous tenant 0 (contents sid s)
      → fetch_from tenant sid start stop s
        ≡ ok (map (λ r. r.entry) (select (in_range start stop) (contents sid s)))
  fetch_from-in_range sid start stop s h =
      fetch_from-contents tenant sid start stop s
      ∙ ap (λ l. ok (entries_of tenant l)) (slice-select start stop (contents sid s) h)
      ∙ ap (λ l. ok (map (λ r. r.entry) l))
          (select_tenant (in_range start stop) 0 (contents sid s) h)
