-- ===== src/Django/Bulk.antt =====
-- The rows that `bulk_create` of event_sourcery_django/event_store.py gets, and the rows of streams
-- that the lock leaves.
use python_event_sourcery.Prelude.{
  ℕ, suc, ◌≤◌, Option, none, some, Bool, List, [], ◌∷◌, map, if◌then◌else◌, ◌≡◌, ap, refl, arith,
  Bool-cases, inl, inr, nat_key, string_key, option_key,
}
use python_event_sourcery.EventLog.{IsRising}
use python_event_sourcery.Event.{RawEvent, RecordedRaw}
use python_event_sourcery.Tables.{Tables, StreamRow}
use python_event_sourcery.Tables.Rows.{IsDistinct, IsDistinct-map}
use python_event_sourcery.TableOutbox.{Texts, OutboxSetting, put_if_any, put_into_table}
use python_event_sourcery.Django.Statements.{entry_rows, all_fresh, bump_version, has_version}
use python_event_sourcery.Django.Ensure.{at_version}

pub IsRising-le : (p v : ℕ) (events : List RawEvent) → IsRising p v events → p ≤ v
IsRising-le p v [] h = omega arith
IsRising-le p v (e ∷ rest) h = omega (arith, h.2, IsRising-le h.0 v rest h.3)

-- No event has the UUID of a stored one or of another.
abbrev pub are_fresh : List RawEvent → Tables → Bool
are_fresh events t = all_fresh (map (λ e. e.uuid) t.events) (map (λ e. e.uuid) events)

pub map-uuid-entry_rows :
    (events : List RawEvent) (row : StreamRow) (id : ℕ)
    → map (λ e. e.uuid) (entry_rows events row id) ≡ map (λ e. e.uuid) events
unfolding entry_rows
map-uuid-entry_rows [] row id = refl
map-uuid-entry_rows (e ∷ rest) row id = ap (◌∷◌ e.uuid) (map-uuid-entry_rows rest row (suc id))

pub IsDistinct-bumped :
    (id expected : ℕ) (u : Option ℕ) (rows : List StreamRow)
    → IsDistinct rows
    → IsDistinct (bump_version id expected u rows)
unfolding bump_version
IsDistinct-bumped id expected u rows h =
    IsDistinct-map (λ r. if has_version id expected r then at_version u r else r) rows
      (λ r. elim (Bool-cases (has_version id expected r)) [ inl a ↦ rw a refl | inr b ↦ rw b refl ])
      h

pub streams-put_if_any :
    (texts : Texts) (outbox : Option OutboxSetting) (records : List RecordedRaw) (t : Tables)
    → (put_if_any texts outbox records t).streams ≡ t.streams
unfolding put_into_table
streams-put_if_any texts none records t = refl
streams-put_if_any texts (some setting) records t = refl
