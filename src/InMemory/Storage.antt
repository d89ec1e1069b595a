-- ===== src/InMemory/Storage.antt =====
-- `Storage` of event_sourcery/_event_store/in_memory.py: every record in the order of arrival, the
-- records of each stream, and the version of each stream.
pub mod Append
pub mod Valid
use python_event_sourcery.Prelude.{
  ℕ, Option, none, some, Bool, List, [], ◌∷◌, ◌++◌, last?, is_some, if◌then◌else◌,
}
use python_event_sourcery.Prelude.Dict.{Dict, lookup, insert, remove}
use python_event_sourcery.Errors.{Result, ok, err, key_error}
use python_event_sourcery.Exec.{Exec, ◌>>=◌, ◌>>◌, lift, pure}
use python_event_sourcery.StreamId.{StreamId, stream_id_key}
use python_event_sourcery.Versioning.{Versioning, no_versioning, explicit_versioning}
use python_event_sourcery.Event.{RecordedRaw}

pub record Storage : Type 0 where
  pub records : List RecordedRaw
  pub streams : Dict StreamId (List RecordedRaw)
  pub versions : Dict StreamId (Option ℕ)

abbrev pub new_storage : Storage
new_storage = record { records = []; streams = []; versions = [] }

abbrev pub position_of : Option RecordedRaw → Option ℕ
position_of none = none
position_of (some r) = some r.position

unfoldable pub current_position : Storage → Option ℕ
current_position s = position_of (last? s.records)

-- The strategy's `self.current_position or 0`
abbrev pub or_zero : Option ℕ → ℕ
or_zero none = 0
or_zero (some p) = p

abbrev pub position_or_zero : Storage → ℕ
position_or_zero s = or_zero (current_position s)

-- `stream_id in self._storage`
unfoldable pub has_stream : StreamId → Storage → Bool
has_stream sid s = is_some (lookup sid s.streams)

abbrev pub first_version : Versioning → Option ℕ
first_version no_versioning = none
first_version (explicit_versioning e i) = some 0

unfoldable pub create : StreamId → Versioning → Storage → Storage
create sid vs s = record s {
  streams = insert sid [] s.streams;
  versions = insert sid (first_version vs) s.versions;
}

-- `d[k]`
abbrev pub or_key_error {ℓ} : {A : Type ℓ} → Option A → Result A
or_key_error none = err key_error
or_key_error (some a) = ok a

-- The body of the loop of `append`: `self._data[stream_id].append(record)` and the version.
put_record : RecordedRaw → List RecordedRaw → Storage → Storage
put_record r before s = record s {
  streams = insert r.entry.stream_id (before ++ r ∷ []) s.streams;
  versions = insert r.entry.stream_id r.entry.version s.versions;
}

append_record : RecordedRaw → Exec Storage (Unit {0})
unfolding put_record
append_record r s =
    (lift (or_key_error (lookup r.entry.stream_id s.streams)) >>= λ before s'.
    (ok tt, put_record r before s'))
      s

append_loop : List RecordedRaw → Exec Storage (Unit {0})
unfolding append_record
append_loop [] = pure tt
append_loop (r ∷ rest) = do append_record r; append_loop rest

unfoldable pub append : List RecordedRaw → Exec Storage (Unit {0})
unfolding append_loop
append records s = append_loop records (record s { records = s.records ++ records })

unfoldable pub replace : RecordedRaw → Storage → Storage
replace with_snapshot s = record s {
  streams = insert with_snapshot.entry.stream_id (with_snapshot ∷ []) s.streams;
  versions = insert with_snapshot.entry.stream_id with_snapshot.entry.version s.versions;
}

unfoldable pub read : StreamId → Storage → Result (List RecordedRaw)
read sid s = or_key_error (lookup sid s.streams)

-- `del self._data[stream_id]`; the version stays behind
unfoldable pub delete : StreamId → Storage → Result Storage
delete sid s =
    if is_some (lookup sid s.streams)
    then ok (record s { streams = remove sid s.streams })
    else err key_error

unfoldable pub get_version : StreamId → Storage → Result (Option ℕ)
get_version sid s = or_key_error (lookup sid s.versions)
