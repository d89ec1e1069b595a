-- ===== src/TableOutbox/Records.antt =====
-- `raw_outbox` after `outbox_entry` of event_sourcery_django/dto.py.
use python_event_sourcery.Prelude.{
  ℕ, String, Option, none, some, ◌≡◌, refl, inl, inr, nat_refl, Bool-cases, ◌==◌, nat_key,
  string_key,
}
use python_event_sourcery.Errors.{ok}
use python_event_sourcery.StreamId.{StreamId, stream_id, stream_uuid, choose_uuid, check_name}
use python_event_sourcery.Event.{RecordedRaw}
use python_event_sourcery.TableOutbox.{Texts, outbox_data, outbox_entry, raw_outbox}

-- The texts of the UUIDs and of the time in a record are read back.
pub record AreReadable (texts : Texts) (r : RecordedRaw) : Type 0 where
  pub uuid : texts.uuid_library.parse_hex (texts.uuid_text r.entry.uuid) ≡ ok r.entry.uuid
  pub stream :
      texts.uuid_library.parse_hex (texts.uuid_text r.entry.stream_id.uuid)
      ≡ ok r.entry.stream_id.uuid
  pub time : texts.time_from_text (texts.time_text r.entry.created_at) ≡ ok r.entry.created_at

-- A stream with a name has the UUID of its name, as `StreamUUID` sees to.
abbrev pub IsNamedAfter : Texts → StreamId → Type 0
IsNamedAfter texts sid =
    (n : String) → sid.name ≡ some n → texts.uuid_library.from_name n ≡ sid.uuid

abbrev pub without_category : RecordedRaw → RecordedRaw
without_category r = record r {
  entry = record r.entry { stream_id = record r.entry.stream_id { category = none } };
}

stream_id-from_hex :
    (texts : Texts) (name : Option String) (u : ℕ)
    → texts.uuid_library.parse_hex (texts.uuid_text u) ≡ ok u
    → ((n : String) → name ≡ some n → texts.uuid_library.from_name n ≡ u)
    → stream_id texts.uuid_library none name (some (texts.uuid_text u)) none 0
      ≡ ok (record { uuid = u; name = name; category = none })
unfolding choose_uuid check_name stream_uuid stream_id
stream_id-from_hex texts none u readable named = rw readable refl
stream_id-from_hex texts (some n) u readable named =
    let same = named n refl in
    elim (Bool-cases (n == "")) [
      | inl empty ↦ rw (empty, same) refl
      | inr filled ↦ rw (filled, nat_refl (texts.uuid_library.from_name n), same) refl
    ]

-- If the texts of its UUIDs and of its time are read back, a record whose stream has the UUID of
-- its name, if it has one, is published from its outbox entry as it was put in, but for the
-- category of its stream, which is lost.
pub raw_outbox-outbox_entry :
    (texts : Texts) (r : RecordedRaw) (max_attempts id : ℕ)
    → AreReadable texts r
    → IsNamedAfter texts r.entry.stream_id
    → raw_outbox texts (outbox_entry texts r max_attempts id) ≡ ok (without_category r)
unfolding outbox_data outbox_entry raw_outbox
raw_outbox-outbox_entry texts r max_attempts id readable named =
    rw
      (
        readable.uuid,
        stream_id-from_hex texts r.entry.stream_id.name r.entry.stream_id.uuid readable.stream
            named,
        readable.time,
      )
      refl
