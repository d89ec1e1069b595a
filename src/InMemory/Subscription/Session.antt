-- ===== src/InMemory/Subscription/Session.antt =====
-- A subscription over time: polls, interleaved with appends of other clients to the log.
use mathlib.Core.List.{append_assoc}
use python_event_sourcery.Prelude.{
  ℕ, zero, suc, ◌≤◌, List, [], ◌∷◌, ◌++◌, length, length-append, drop, select, select-append, ◌≡◌,
  ◌∙◌, ap, sym, subst, refl, arith, some,
}
use python_event_sourcery.Errors.{ok}
use python_event_sourcery.Event.{RecordedRaw}
use python_event_sourcery.InMemory.Storage.{Storage}
use python_event_sourcery.InMemory.Storage.Valid.{IsValid}
use python_event_sourcery.InMemory.Subscription.{Kind, Subscription, wants, next_batch}
use python_event_sourcery.InMemory.Subscription.Delivery.{wanted_from, next_batch-Delivered}

-- What was delivered since the start, with the storage and the subscription as they are now.
pub data Session (start : Subscription) : Storage → Subscription → List RecordedRaw → Type 0 where
  opened :
      (s : Storage)
      → IsValid s
      → start.current_position ≤ length s.records
      → Session start s start []
  polled :
      {s : Storage} {sub sub' : Subscription} {got batch : List RecordedRaw}
      → Session start s sub got
      → (rounds : ℕ) → next_batch rounds s sub ≡ some (ok (batch, sub'))
      → Session start s sub' (got ++ batch)
  grown :
      {s t : Storage} {sub : Subscription} {got : List RecordedRaw}
      → Session start s sub got
      → IsValid t
      → (new : List RecordedRaw) → t.records ≡ s.records ++ new
      → Session start t sub got

drop-append :
    (i : ℕ) (xs ys : List RecordedRaw) → i ≤ length xs → drop i (xs ++ ys) ≡ drop i xs ++ ys
drop-append zero xs ys h = refl
drop-append (suc i) [] ys h = absurd (omega arith)
drop-append (suc i) (x ∷ xs) ys h = drop-append i xs ys (omega arith)

wanted_from-grown :
    (kind : Kind) (s t : Storage) (pos : ℕ) (new : List RecordedRaw)
    → t.records ≡ s.records ++ new
    → pos ≤ length s.records
    → wanted_from kind t pos ≡ wanted_from kind s pos ++ select (wants kind) new
wanted_from-grown kind s t pos new grows h =
    rw (grows, drop-append pos s.records new h)
      (select-append (wants kind) (drop pos s.records) new)

-- What a session keeps.
record Complete (start : Subscription) (s : Storage) (sub : Subscription) (got : List RecordedRaw)
    : Type 0 where
  valid : IsValid s
  same_kind : sub.kind ≡ start.kind
  started : start.current_position ≤ length s.records
  inside : sub.current_position ≤ length s.records
  exact :
      wanted_from start.kind s start.current_position
      ≡ got ++ wanted_from start.kind s sub.current_position

polled-Complete :
    (start : Subscription) (s : Storage) (sub sub' : Subscription) (got batch : List RecordedRaw)
    (rounds : ℕ)
    → Complete start s sub got
    → next_batch rounds s sub ≡ some (ok (batch, sub'))
    → Complete start s sub' (got ++ batch)
polled-Complete start s sub sub' got batch rounds c e =
    let d = next_batch-Delivered rounds s sub c.valid in
    let same_batch : batch ≡ d.batch = cc (e, d.returned) in
    let same_sub : sub' ≡ record sub { current_position = d.next } = cc (e, d.returned) in
    let further : wanted_from start.kind s sub.current_position
        ≡ d.batch ++ wanted_from start.kind s d.next =
      subst (λ k. wanted_from k s sub.current_position ≡ d.batch ++ wanted_from k s d.next)
        c.same_kind d.exact in
    rw (same_batch, same_sub)
      (record {
        valid = c.valid;
        same_kind = c.same_kind;
        started = c.started;
        inside = d.within c.inside;
        exact =
            c.exact
            ∙ ap (λ l. got ++ l) further
            ∙ sym (append_assoc got d.batch (wanted_from start.kind s d.next));
      })

grown-Complete :
    (start : Subscription) (s t : Storage) (sub : Subscription) (got new : List RecordedRaw)
    → Complete start s sub got
    → IsValid t
    → t.records ≡ s.records ++ new
    → Complete start t sub got
grown-Complete start s t sub got new c v grows = record {
  valid = v;
  same_kind = c.same_kind;
  started = omega (arith, c.started, ap length grows, length-append s.records new);
  inside = omega (arith, c.inside, ap length grows, length-append s.records new);
  exact =
      wanted_from-grown start.kind s t start.current_position new grows c.started
      ∙ ap (λ l. l ++ select (wants start.kind) new) c.exact
      ∙ append_assoc got (wanted_from start.kind s sub.current_position)
          (select (wants start.kind) new)
      ∙ ap (λ l. got ++ l)
          (sym (wanted_from-grown start.kind s t sub.current_position new grows c.inside));
}

Session-Complete :
    {start : Subscription} {s : Storage} {sub : Subscription} {got : List RecordedRaw}
    → Session start s sub got
    → Complete start s sub got
Session-Complete {start} (opened s v inside) = record {
  valid = v;
  same_kind = refl;
  started = inside;
  inside = inside;
  exact = refl;
}
Session-Complete {start} (polled {s} {sub} {sub'} {got} {batch} session rounds e) =
    polled-Complete start s sub sub' got batch rounds (Session-Complete session) e
Session-Complete {start} (grown {s} {t} {sub} {got} session v new e) =
    grown-Complete start s t sub got new (Session-Complete session) v e

-- However polls and appends alternate, and whatever the time limits, what a subscription has
-- delivered and what it will still find is exactly what its class wants of the log from its start
-- on, in order: nothing is skipped, repeated or reordered.
pub delivered-Session :
    {start : Subscription} {s : Storage} {sub : Subscription} {got : List RecordedRaw}
    → Session start s sub got
    → got ++ wanted_from start.kind s sub.current_position
      ≡ wanted_from start.kind s start.current_position
delivered-Session session = sym (Session-Complete session).exact
