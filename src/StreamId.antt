-- ===== src/StreamId.antt =====
-- event_sourcery/_event_store/stream_id.py and tenant_id.py. A UUID is its number; `uuid5`,
-- `uuid4` and the parser of hexadecimal text are parameters.
use python_event_sourcery.Prelude.{
  ℕ, String, Option, none, some, Bool, true, false, ◌&&◌, not, ◌≡◌, arith, if◌then◌else◌, Key, ◌==◌,
  nat_key, string_key, option_key, pair_key, nat_beq_iff,
}
use python_event_sourcery.Errors.{Result, ok, err, incompatible_uuid_and_name, ◌>>=◌}

abbrev pub TenantId : Type 0
TenantId = String

abbrev pub default_tenant : TenantId
default_tenant = ""

pub record StreamUuid : Type 0 where
  pub uuid : ℕ
  pub name : Option String

pub record StreamId : Type 0 where
  pub uuid : ℕ
  pub name : Option String
  pub category : Option String

-- What the module takes from `uuid`: the name-based UUID in the fixed namespace, and `UUID(hex=…)`.
pub record UuidLibrary : Type 0 where
  pub from_name : String → ℕ
  pub parse_hex : String → Result ℕ

-- Python's truth of an optional text, `if self.name`, with the text.
abbrev pub truthy : Option String → Option String
truthy none = none
truthy (some s) = if s == "" then none else some s

-- `stream_id.category or ""`
abbrev pub or_empty : Option String → String
or_empty none = ""
or_empty (some s) = s

module _ (lib : UuidLibrary) where
  -- the `if`/`elif` that chooses the UUID; `fresh` is the value of `uuid4()`
  unfoldable pub choose_uuid : Option ℕ → Option String → Option String → ℕ → Result ℕ
  choose_uuid (some u) name from_hex fresh = ok u
  choose_uuid none (some n) from_hex fresh = ok (lib.from_name n)
  choose_uuid none none (some hex) fresh = lib.parse_hex hex
  choose_uuid none none none fresh = ok fresh

  unfoldable pub check_name : Option String → ℕ → Result ℕ
  check_name none uuid = ok uuid
  check_name (some n) uuid =
      if not (n == "") && not (lib.from_name n == uuid)
      then err (incompatible_uuid_and_name uuid (lib.from_name n) n)
      else ok uuid

  -- `StreamUUID(uuid, name, from_hex)`
  unfoldable pub stream_uuid : Option ℕ → Option String → Option String → ℕ → Result StreamUuid
  unfolding choose_uuid check_name
  stream_uuid uuid name from_hex fresh = do
    chosen ← choose_uuid uuid name from_hex fresh
    checked ← check_name name chosen
    ok (record { uuid = checked; name = name })

  -- `StreamId(uuid, name, from_hex, category)`
  unfoldable pub stream_id :
      Option ℕ → Option String → Option String → Option String → ℕ → Result StreamId
  unfolding stream_uuid
  stream_id uuid name from_hex category fresh = do
    base ← stream_uuid uuid name from_hex fresh
    ok (record { uuid = base.uuid; name = base.name; category = category })

  -- A stream identifier that is made with a name, other than the empty one, has the UUID of its
  -- name, whatever else it was made from: two of one name and category are equal.
  uuid-stream_id :
      (uuid : Option ℕ) (n : String) (from_hex category : Option String) (fresh : ℕ) (s : StreamId)
      → (n == "") ≡ false
      → stream_id uuid (some n) from_hex category fresh ≡ ok s
      → (s.uuid ≡ lib.from_name n) × (s.name ≡ some n) × (s.category ≡ category)
  unfolding stream_id
  uuid-stream_id none n from_hex category fresh s h e =
      ground (arith, nat_beq_iff (lib.from_name n) (lib.from_name n))
  uuid-stream_id (some u) n from_hex category fresh s h e =
      ground (arith, nat_beq_iff (lib.from_name n) u)

-- `StreamId.__eq__`: the name is not compared.
abbrev pub stream_id_same : StreamId → StreamId → Bool
stream_id_same a b = (a.uuid == b.uuid) && (a.category == b.category)

-- The tuple that `StreamId.__hash__` hashes, with the number that `UUID.__hash__` hashes.
pub hash_key : StreamId → Option String × ℕ
hash_key s = (s.category, s.uuid)

abbrev uuid_and_category : StreamId → ℕ × Option String
uuid_and_category s = (s.uuid, s.category)

pub stream_id_refl : (a : StreamId) → stream_id_same a a ≡ true
stream_id_refl a = pair_key.same_refl (uuid_and_category a)

pub stream_id_symm : (a b : StreamId) → stream_id_same a b ≡ stream_id_same b a
stream_id_symm a b = pair_key.same_symm (uuid_and_category a) (uuid_and_category b)

pub stream_id_cong :
    (a b c : StreamId) → stream_id_same a b ≡ true → stream_id_same a c ≡ stream_id_same b c
stream_id_cong a b c =
    pair_key.same_cong (uuid_and_category a) (uuid_and_category b) (uuid_and_category c)

instance abbrev pub stream_id_key : Key StreamId
stream_id_key = record {
  same = stream_id_same;
  same_refl = stream_id_refl;
  same_symm = stream_id_symm;
  same_cong = stream_id_cong;
}

-- Equal identifiers have equal hashes, whatever their names.
hash_key-same : (a b : StreamId) → stream_id_same a b ≡ true → hash_key a == hash_key b ≡ true
unfolding hash_key
hash_key-same a b h = ground arith
