-- ===== src/Kurrent.antt =====
-- event_sourcery_kurrentdb/stream.py: the names of streams in KurrentDB, and the window of a read.
-- A text is the list of its characters' codes; the hexadecimal form of a UUID is a parameter.
pub mod Iterator
pub mod Names
pub mod Scope
use python_event_sourcery.Prelude.{
  ℕ, zero, suc, ◌+◌, ◌-◌, Option, none, some, Bool, true, false, List, [], ◌∷◌, ◌++◌, if◌then◌else◌,
  ltb, ◌==◌, nat_key, list_key,
}
use python_event_sourcery.Errors.{
  Result, ok, err, ◌>>=◌, illegal_tenant_id, illegal_category_name, value_error,
}
use python_event_sourcery.Event.Json.{ℤ, pos, negsuc}

abbrev pub Text : Type 0
Text = List ℕ

abbrev pub dash : ℕ
dash = 45

-- "snapshot"
abbrev pub snapshot_word : Text
snapshot_word = 115 ∷ 110 ∷ 97 ∷ 112 ∷ 115 ∷ 104 ∷ 111 ∷ 116 ∷ []

-- `"-" in s`
abbrev pub has_dash : Text → Bool
has_dash [] = false
has_dash (c ∷ s) = if c == dash then true else has_dash s

-- `s.split("-", 1)`, none if there is no dash
unfoldable pub split : Text → Option (Text × Text)
split [] = none
split (c ∷ s) =
    let rest = split s in
    if c == dash
    then some ([], s)
    else (elim rest [ none ↦ none | some parts ↦ some (c ∷ parts.0, parts.1) ])

-- `s.rsplit("-", 1)`
unfoldable pub rsplit : Text → Option (Text × Text)
rsplit [] = none
rsplit (c ∷ s) = elim (rsplit s) [
  | some parts ↦ some (c ∷ parts.0, parts.1)
  | none ↦ if c == dash then some ([], s) else none
]

-- A stream of a tenant: its category, where "" is none, and its UUID.
pub record StreamName : Type 0 where
  pub tenant_id : Text
  pub category : Text
  pub uuid : ℕ

-- What the module takes of `uuid`.
pub record HexLibrary : Type 0 where
  pub hex : ℕ → Text
  pub from_hex : Text → Result ℕ

-- The end "-snapshot" is there when the part behind the last dash is that word.
unfoldable pub without_snapshot : Text → Text
unfolding rsplit
without_snapshot s = elim (rsplit s) [
  | none ↦ s
  | some parts ↦ if parts.1 == snapshot_word then parts.0 else s
]

or_value_error : Option (Text × Text) → Result (Text × Text)
or_value_error none = err value_error
or_value_error (some parts) = ok parts

module _ (lib : HexLibrary) where
  -- `str(Name(tenant_id, stream_id))`
  unfoldable pub as_string : StreamName → Result Text
  as_string n =
      if has_dash n.tenant_id
      then err illegal_tenant_id
      else (if has_dash n.category
          then err illegal_category_name
          else ok (n.category ++ (dash ∷ (n.tenant_id ++ (dash ∷ lib.hex n.uuid)))))

  -- `snapshot`
  unfoldable pub snapshot_name : StreamName → Result Text
  unfolding as_string
  snapshot_name n = do s ← as_string n; ok (s ++ (dash ∷ snapshot_word))

  -- The unpacking of `stream_name.split("-", 2)`, and `cls(…)` on it, which refuses a tenant or a
  -- category with a dash.
  unfoldable pub from_parts : Text → Result StreamName
  unfolding split or_value_error
  from_parts s = do
    first ← or_value_error (split s)
    second ← or_value_error (split first.1)
    uuid ← lib.from_hex second.1
    ok (record { tenant_id = second.0; category = first.0; uuid = uuid })

  unfoldable pub from_stream_name : Text → Result StreamName
  unfolding without_snapshot from_parts
  from_stream_name s = from_parts (without_snapshot s)

-- `sys.maxsize`
abbrev pub max_position : ℕ
max_position = 9223372036854775807

-- `start_version and Position.from_version(start_version)`
abbrev pub start_position : Option ℕ → Option ℕ
start_position none = none
start_position (some zero) = some 0
start_position (some (suc v)) = some v

-- `(stop_version and Position.from_version(stop_version)) or MAX_POSITION`
abbrev pub stop_position : Option ℕ → ℕ
stop_position none = max_position
stop_position (some zero) = max_position
stop_position (some (suc zero)) = max_position
stop_position (some (suc (suc v))) = suc v

abbrev pub or_start : Option ℕ → ℕ
or_start none = 0
or_start (some p) = p

abbrev pub minus : ℕ → ℕ → ℤ
minus a b = if ltb a b then negsuc (b - (a + 1)) else pos (a - b)

unfoldable pub scope : Option ℕ → Option ℕ → Option ℕ × ℤ
scope start_version stop_version = (
  start_position start_version,
  minus (stop_position stop_version) (or_start (start_position start_version)),
)
