-- ===== src/SqlAlchemy/Flush.antt =====
-- The flush of `insert_events` of event_sourcery_sqlalchemy/event_store.py: its rows, and the unique
-- indexes.
use python_event_sourcery.Prelude.{
  ℕ, suc, Option, none, some, Bool, true, false, ◌||◌, List, [], ◌∷◌, find, is_some, if◌then◌else◌,
  ◌≡◌, ap, refl, Bool-cases, inl, inr, ◌==◌, nat_key, string_key,
}
use python_event_sourcery.Errors.{ok, err, integrity_error}
use python_event_sourcery.StreamId.{StreamId}
use python_event_sourcery.Event.{RawEvent, RecordedRaw}
use python_event_sourcery.Tables.{Tables, StreamRow, EventRow, RowOrder}
use python_event_sourcery.Tables.Rows.{IsDistinct, IsDistinct-map}
use python_event_sourcery.TableOutbox.{Texts, OutboxSetting, put_if_any, put_into_table}
use python_event_sourcery.Django.Query.{latest_snapshot}
use python_event_sourcery.Django.Statements.{entry_row, entry_rows}
use python_event_sourcery.Django.Ensure.{at_version}
use python_event_sourcery.Django.Holds.{with_events}
use python_event_sourcery.SqlAlchemy.Query.{stream_of}
use python_event_sourcery.SqlAlchemy.Statements.{
  event_row, event_rows, flush_events, is_nil, fits, update_version, to_bump,
}

pub event_rows-entry_rows :
    (events : List RawEvent) (row : StreamRow) (id : ℕ)
    → event_rows events row.id id ≡ entry_rows events row id
unfolding event_rows entry_rows event_row entry_row
event_rows-entry_rows [] row id = refl
event_rows-entry_rows (e ∷ rest) row id =
    ap (◌∷◌ (entry_row e row id)) (event_rows-entry_rows rest row (suc id))

pub is_nil-event_rows :
    (e : RawEvent) (rest : List RawEvent) (stream id : ℕ)
    → is_nil (event_rows (e ∷ rest) stream id) ≡ false
unfolding event_rows
is_nil-event_rows e rest stream id = refl

pub flush_events-room :
    (stream : ℕ) (rows : List EventRow) (t : Tables)
    → is_nil rows ≡ false
    → is_some (stream_of stream t) ≡ true
    → fits t.events rows ≡ true
    → flush_events stream rows t ≡ (ok tt, with_events rows t)
unfolding stream_of flush_events
flush_events-room stream rows t some_rows there room = rw (some_rows, there, room) refl

pub flush_events-full :
    (stream : ℕ) (rows : List EventRow) (t : Tables)
    → fits t.events rows ≡ false
    → flush_events stream rows t ≡ (err integrity_error, t)
unfolding flush_events
flush_events-full stream rows t full =
    elim (Bool-cases (is_nil rows || is_some (find (λ r. r.id == stream) t.streams))) [
      | inl there ↦ rw (there, full) refl
      | inr missing ↦ rw (missing) refl
    ]

pub IsDistinct-locked :
    (sid : StreamId) (expected : ℕ) (u : Option ℕ) (rows : List StreamRow)
    → IsDistinct rows
    → IsDistinct (update_version sid expected u rows)
unfolding update_version
IsDistinct-locked sid expected u rows h =
    IsDistinct-map (λ r. if to_bump sid expected r then at_version u r else r) rows
      (λ r. elim (Bool-cases (to_bump sid expected r)) [ inl a ↦ rw a refl | inr b ↦ rw b refl ]) h

-- The unique indexes have room for the events of a stream.
abbrev pub have_room : List RawEvent → ℕ → Tables → Bool
have_room events stream t = fits t.events (event_rows events stream t.next_event)

pub only_row : {a b : StreamRow} → a ∷ [] ≡ b ∷ [] → a ≡ b
only_row h = cc

pub latest_snapshot-put_if_any :
    (order : RowOrder) (id : ℕ) (texts : Texts) (outbox : Option OutboxSetting)
    (records : List RecordedRaw) (t : Tables)
    → latest_snapshot order id none none (put_if_any texts outbox records t)
      ≡ latest_snapshot order id none none t
unfolding put_into_table latest_snapshot
latest_snapshot-put_if_any order id texts none records t = refl
latest_snapshot-put_if_any order id texts (some setting) records t = refl

pub latest_snapshot-with_events :
    (order : RowOrder) (id : ℕ) (rows : List EventRow) (streams : List StreamRow) (t : Tables)
    → latest_snapshot order id none none (with_events rows (record t { streams = streams }))
      ≡ latest_snapshot order id none none t
unfolding latest_snapshot
latest_snapshot-with_events order id rows streams t = refl
