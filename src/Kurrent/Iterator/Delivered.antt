-- ===== src/Kurrent/Iterator/Delivered.antt =====
-- What the iterator of event_sourcery_kurrentdb/subscription.py delivers.
use mathlib.Core.List.{append_assoc, append-nil}
use python_event_sourcery.Prelude.{
  ℕ, Option, some, List, [], ◌∷◌, ◌++◌, length, length-append, ◌≡◌, ◌∙◌, ap, sym, subst, refl,
  arith, ◌≤◌, ◌<◌, Bool-cases, inl, inr, nat_key, nat_beq,
}
use python_event_sourcery.Event.{RecordedRaw}
use python_event_sourcery.Kurrent.Iterator.{
  Client, Signal, commits, arrives, deadline, Iteration, begin, if_wanted, yield_full, hand_out,
  iterate, iterate_all,
}
use python_event_sourcery.Kurrent.Iterator.Promised.{AreAbove, IsBehind, IsSorted, IsPast, IsClient}

-- `[r for batch in batches for r in batch]`
abbrev pub joined : List (List RecordedRaw) → List RecordedRaw
joined [] = []
joined (batch ∷ rest) = batch ++ joined rest

-- The signals commit records behind the log and the start.
abbrev pub AreBehind : Option ℕ → List Signal → List RecordedRaw → Type 0
AreBehind start [] server_log = Unit
AreBehind start (commits r ∷ rest) server_log =
    IsBehind r server_log × (IsPast start r × AreBehind start rest (server_log ++ r ∷ []))
AreBehind start (arrives ∷ rest) server_log = AreBehind start rest server_log
AreBehind start (deadline ∷ rest) server_log = AreBehind start rest server_log

-- What was yielded, what is in the batch and what is to come is what a subscription from the start
-- would be handed now; what is to come is what one from the builder's position would be.
pub record IsOnTrack (client : Client) (size : ℕ) (start : Option ℕ) (s : Iteration) : Type 0 where
  pub whole : joined s.yielded ++ (s.batch ++ s.subscription) ≡ client.opened start s.server_log
  pub resumes : client.opened s.builder s.server_log ≡ s.subscription
  pub smaller : length s.batch < size
  pub sorted : IsSorted s.server_log
  pub reached : (x : RecordedRaw) → IsBehind x s.server_log → IsPast start x → IsPast s.builder x

AreAbove-append_one :
    (p : ℕ) (l : List RecordedRaw) (r : RecordedRaw)
    → AreAbove p l
    → p < r.position
    → AreAbove p (l ++ r ∷ [])
AreAbove-append_one p [] r h k = (k, tt)
AreAbove-append_one p (x ∷ l) r h k = (h.0, AreAbove-append_one p l r h.1 k)

IsSorted-append_one :
    (l : List RecordedRaw) (r : RecordedRaw) → IsSorted l → IsBehind r l → IsSorted (l ++ r ∷ [])
IsSorted-append_one [] r h k = (tt, tt)
IsSorted-append_one (x ∷ l) r h k =
    (AreAbove-append_one x.position l r h.0 k.0, IsSorted-append_one l r h.1 k.1)

IsBehind-before :
    (l : List RecordedRaw) (r x : RecordedRaw) → IsBehind x (l ++ r ∷ []) → IsBehind x l
IsBehind-before [] r x h = tt
IsBehind-before (y ∷ l) r x h = (h.0, IsBehind-before l r x h.1)

joined-append_one :
    (batches : List (List RecordedRaw)) (batch : List RecordedRaw)
    → joined (batches ++ batch ∷ []) ≡ joined batches ++ batch
joined-append_one [] batch = append-nil batch
joined-append_one (b ∷ rest) batch =
    ap (λ l. b ++ l) (joined-append_one rest batch) ∙ sym (append_assoc b (joined rest) batch)

module _ (client : Client) (promised : IsClient client) (size : ℕ) (positive : 0 < size)
    (start : Option ℕ) where
  IsOnTrack-commits :
      (r : RecordedRaw) (s : Iteration)
      → IsBehind r s.server_log
      → IsPast start r
      → IsOnTrack client size start s
      → IsOnTrack client size start (iterate client size (commits r) s)
  unfolding iterate
  IsOnTrack-commits r s behind past h = record {
    whole =
        ap (λ l. joined s.yielded ++ l)
          (sym (append_assoc s.batch s.subscription (if_wanted client r)))
        ∙ sym (append_assoc (joined s.yielded) (s.batch ++ s.subscription) (if_wanted client r))
        ∙ ap (λ l. l ++ if_wanted client r) h.whole
        ∙ sym (promised.opened-commits start s.server_log r behind past);
    resumes =
        promised.opened-commits s.builder s.server_log r behind (h.reached r behind past)
        ∙ ap (λ l. l ++ if_wanted client r) h.resumes;
    smaller = h.smaller;
    sorted = IsSorted-append_one s.server_log r h.sorted behind;
    reached = λ x k. h.reached x (IsBehind-before s.server_log r x k);
  }

  IsOnTrack-deadline :
      (s : Iteration)
      → IsOnTrack client size start s
      → IsOnTrack client size start (iterate client size deadline s)
  unfolding iterate
  IsOnTrack-deadline s h = record {
    whole =
        ap (λ l. joined (s.yielded ++ s.batch ∷ []) ++ l) h.resumes
        ∙ ap (λ l. l ++ s.subscription) (joined-append_one s.yielded s.batch)
        ∙ append_assoc (joined s.yielded) s.batch s.subscription
        ∙ h.whole;
    resumes = refl;
    smaller = positive;
    sorted = h.sorted;
    reached = h.reached;
  }

  IsOnTrack-yield_full :
      (s : Iteration)
      → joined s.yielded ++ (s.batch ++ s.subscription) ≡ client.opened start s.server_log
      → client.opened s.builder s.server_log ≡ s.subscription
      → length s.batch ≤ size
      → IsSorted s.server_log
      → ((x : RecordedRaw) → IsBehind x s.server_log → IsPast start x → IsPast s.builder x)
      → IsOnTrack client size start (yield_full client size s)
  unfolding yield_full
  IsOnTrack-yield_full s whole resumes small sorted reached =
      elim (Bool-cases (nat_beq (length s.batch) size)) [
        | inl full ↦ rw full (record {
          whole =
              ap (λ l. l ++ s.subscription) (joined-append_one s.yielded s.batch)
              ∙ append_assoc (joined s.yielded) s.batch s.subscription
              ∙ whole;
          resumes = resumes;
          smaller = positive;
          sorted = sorted;
          reached = reached;
        })
        | inr short ↦ rw short (record {
          whole = whole;
          resumes = resumes;
          smaller = ground arith;
          sorted = sorted;
          reached = reached;
        })
      ]

  IsOnTrack-hand_out :
      (subscription : List RecordedRaw) (s : Iteration)
      → s.subscription ≡ subscription
      → IsOnTrack client size start s
      → IsOnTrack client size start (hand_out client size subscription s)
  unfolding hand_out
  IsOnTrack-hand_out [] s e h = h
  IsOnTrack-hand_out (r ∷ rest) s e h =
      let next = record s {
        builder = some r.position;
        subscription = rest;
        batch = s.batch ++ r ∷ [];
      } in
      IsOnTrack-yield_full next
        (ap (λ l. joined s.yielded ++ l)
            (append_assoc s.batch (r ∷ []) rest ∙ ap (λ l. s.batch ++ l) (sym e))
          ∙ h.whole)
        (promised.opened-next s.builder s.server_log r rest h.sorted (h.resumes ∙ e))
        (omega (arith, length-append s.batch (r ∷ []), h.smaller)) h.sorted
        (λ x k past. promised.opened-within s.builder s.server_log r rest x (h.resumes ∙ e) k)

  log-hand_out :
      (subscription : List RecordedRaw) (s : Iteration)
      → (hand_out client size subscription s).server_log ≡ s.server_log
  unfolding hand_out yield_full
  log-hand_out [] s = refl
  log-hand_out (r ∷ rest) s = elim (Bool-cases (nat_beq (length (s.batch ++ r ∷ [])) size)) [
    | inl full ↦ rw full refl
    | inr short ↦ rw short refl
  ]

  IsOnTrack-iterate_all :
      (signals : List Signal) (s : Iteration)
      → AreBehind start signals s.server_log
      → IsOnTrack client size start s
      → IsOnTrack client size start (iterate_all client size signals s)
  unfolding iterate iterate_all
  IsOnTrack-iterate_all [] s behind h = h
  IsOnTrack-iterate_all (commits r ∷ rest) s behind h =
      IsOnTrack-iterate_all rest (iterate client size (commits r) s) behind.1.1
        (IsOnTrack-commits r s behind.0 behind.1.0 h)
  IsOnTrack-iterate_all (arrives ∷ rest) s behind h =
      IsOnTrack-iterate_all rest (iterate client size arrives s)
        (subst (AreBehind start rest) (sym (log-hand_out s.subscription s)) behind)
        (IsOnTrack-hand_out s.subscription s refl h)
  IsOnTrack-iterate_all (deadline ∷ rest) s behind h =
      IsOnTrack-iterate_all rest (iterate client size deadline s) behind (IsOnTrack-deadline s h)

  abbrev pub after : List Signal → List RecordedRaw → Iteration
  after signals server_log = iterate_all client size signals (begin client start server_log)

  -- If the client keeps its promises, then from a log whose positions grow, however commits, records
  -- that arrive and deadlines follow on one another, with every commit behind the log and the start
  -- position, if there is one, and a batch size above 0: what the
  -- iterator has yielded so far, with the batch at work and what its subscription has still to hand
  -- out, is what a subscription from the start would be handed of the log as it is then, in order;
  -- and the batch at work is smaller than the batch size.
  pub joined-iterate_all :
      (signals : List Signal) (server_log : List RecordedRaw)
      → IsSorted server_log
      → AreBehind start signals server_log
      → (joined (after signals server_log).yielded
            ++ ((after signals server_log).batch ++ (after signals server_log).subscription)
          ≡ client.opened start (after signals server_log).server_log)
        × (length (after signals server_log).batch < size)
  unfolding begin
  joined-iterate_all signals server_log sorted behind =
      let h = IsOnTrack-iterate_all signals (begin client start server_log) behind (record {
        whole = refl;
        resumes = refl;
        smaller = positive;
        sorted = sorted;
        reached = λ x k past. past;
      }) in
      (h.whole, h.smaller)
