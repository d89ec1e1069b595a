-- ===== src/Kurrent/Iterator/Promised.antt =====
-- What the iterator of event_sourcery_kurrentdb/subscription.py relies on of the client.
use python_event_sourcery.Prelude.{ℕ, Option, none, some, List, [], ◌∷◌, ◌++◌, ◌≡◌, ◌<◌, nat_key}
use python_event_sourcery.Event.{RecordedRaw}
use python_event_sourcery.Kurrent.Iterator.{Client, if_wanted}

-- All positions are above one.
abbrev pub AreAbove : ℕ → List RecordedRaw → Type 0
AreAbove p [] = Unit
AreAbove p (x ∷ rest) = (p < x.position) × AreAbove p rest

-- A record is committed behind all that are there.
abbrev pub IsBehind : RecordedRaw → List RecordedRaw → Type 0
IsBehind r [] = Unit
IsBehind r (x ∷ rest) = (x.position < r.position) × IsBehind r rest

-- The positions of the log grow.
abbrev pub IsSorted : List RecordedRaw → Type 0
IsSorted [] = Unit
IsSorted (x ∷ rest) = AreAbove x.position rest × IsSorted rest

-- A record is behind a position; every one is behind the start of the log.
abbrev pub IsPast : Option ℕ → RecordedRaw → Type 0
IsPast none r = Unit
IsPast (some p) r = p < r.position

-- What the documentation of the client promises of a log whose positions grow: a record that is
-- committed behind the log, and behind the position, comes last in what a subscription from this
-- position is handed, if it is wanted; what is handed is in the log; and a subscription from the
-- position of the record that another hands out next goes on behind it.
pub record IsClient (client : Client) : Type 0 where
  pub opened-commits :
      (position : Option ℕ) (server_log : List RecordedRaw) (r : RecordedRaw)
      → IsBehind r server_log
      → IsPast position r
      → client.opened position (server_log ++ r ∷ [])
        ≡ client.opened position server_log ++ if_wanted client r
  pub opened-within :
      (position : Option ℕ) (server_log : List RecordedRaw) (r : RecordedRaw)
      (rest : List RecordedRaw) (x : RecordedRaw)
      → client.opened position server_log ≡ r ∷ rest
      → IsBehind x server_log
      → r.position < x.position
  pub opened-next :
      (position : Option ℕ) (server_log : List RecordedRaw) (r : RecordedRaw)
      (rest : List RecordedRaw)
      → IsSorted server_log
      → client.opened position server_log ≡ r ∷ rest
      → client.opened (some r.position) server_log ≡ rest
