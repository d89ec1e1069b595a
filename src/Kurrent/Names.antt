-- ===== src/Kurrent/Names.antt =====
-- Stream names are read back.
use python_event_sourcery.Prelude.{
  ℕ, none, some, false, [], ◌∷◌, ◌++◌, if◌then◌else◌, ◌≡◌, ◌∙◌, ap, sym, refl, arith, ◌==◌, nat_key,
  list_key,
}
use mathlib.Core.List.{append_assoc}
use python_event_sourcery.Errors.{ok, ◌>>=◌}
use python_event_sourcery.Kurrent.{
  Text, dash, snapshot_word, has_dash, split, rsplit, StreamName, HexLibrary, without_snapshot,
  or_value_error, as_string, snapshot_name, from_parts, from_stream_name,
}

split-first : (a b : Text) → has_dash a ≡ false → split (a ++ (dash ∷ b)) ≡ some (a, b)
unfolding split
split-first [] b h = refl
split-first (c ∷ a) b h = ground (arith, split-first a b)

rsplit-none : (a : Text) → has_dash a ≡ false → rsplit a ≡ none
unfolding rsplit
rsplit-none [] h = refl
rsplit-none (c ∷ a) h = ground (arith, rsplit-none a)

rsplit-last : (a b : Text) → has_dash b ≡ false → rsplit (a ++ (dash ∷ b)) ≡ some (a, b)
unfolding rsplit
rsplit-last [] b h = ground (arith, rsplit-none b h)
rsplit-last (c ∷ a) b h = ground (arith, rsplit-last a b h)

without_snapshot-parts :
    (s a b : Text)
    → rsplit s ≡ some (a, b)
    → without_snapshot s ≡ (if b == snapshot_word then a else s)
unfolding without_snapshot
without_snapshot-parts s a b h = rw (h, without_snapshot) refl

-- What is documented of `UUID.hex` and `UUID(hex=…)`: 32 hexadecimal digits, which are read back.
pub record IsHex (lib : HexLibrary) (uuid : ℕ) : Type 0 where
  pub no_dash : has_dash (lib.hex uuid) ≡ false
  pub no_word : (lib.hex uuid == snapshot_word) ≡ false
  pub read_back : lib.from_hex (lib.hex uuid) ≡ ok uuid

module _ (lib : HexLibrary) (n : StreamName) (h : IsHex lib n.uuid) where
  abbrev whole : Text
  whole = n.category ++ (dash ∷ (n.tenant_id ++ (dash ∷ lib.hex n.uuid)))

  as_string-parts :
      (s : Text)
      → as_string lib n ≡ ok s
      → (has_dash n.tenant_id ≡ false) × (has_dash n.category ≡ false) × (s ≡ whole)
  unfolding as_string
  as_string-parts s e = (ground arith, ground arith, ground arith)

  from_parts-whole :
      has_dash n.tenant_id ≡ false → has_dash n.category ≡ false → from_parts lib whole ≡ ok n
  unfolding from_parts or_value_error
  from_parts-whole t c =
      rw
        (
          split-first n.category (n.tenant_id ++ (dash ∷ lib.hex n.uuid)) c,
          ◌>>=◌,
          split-first n.tenant_id (lib.hex n.uuid) t,
          h.read_back,
        )
        refl

  without_snapshot-whole : without_snapshot whole ≡ whole
  without_snapshot-whole =
      let before = n.category ++ (dash ∷ n.tenant_id) in
      let id = lib.hex n.uuid in
      let last : rsplit whole ≡ some (before, id) =
        ap rsplit (sym (append_assoc n.category (dash ∷ n.tenant_id) (dash ∷ id)))
        ∙ rsplit-last before id h.no_dash in
      without_snapshot-parts whole before id last ∙ ap (λ b. if b then before else whole) h.no_word

  named :
      (u s : Text)
      → as_string lib n ≡ ok s
      → snapshot_name lib n ≡ ok u
      → s ++ (dash ∷ snapshot_word) ≡ u
  unfolding snapshot_name
  named u s e f = ground (arith)

  -- A stream of a tenant whose name KurrentDB can take, and whose UUID has a hexadecimal form that
  -- is read back, without a dash and not the word, is read back from that name, and from the
  -- name of its snapshots.
  pub from_stream_name-as_string :
      (s : Text)
      → as_string lib n ≡ ok s
      → (from_stream_name lib s ≡ ok n)
        × ((t : Text) → snapshot_name lib n ≡ ok t → from_stream_name lib t ≡ ok n)
  unfolding from_stream_name snapshot_name
  from_stream_name-as_string s e =
      let (t, c, is_whole) = as_string-parts s e in
      (
        rw (is_whole, without_snapshot-whole) (from_parts-whole t c),
        λ u f.
            let is_u : s ++ (dash ∷ snapshot_word) ≡ u = named u s e f in
            let shorter : without_snapshot (s ++ (dash ∷ snapshot_word)) ≡ s =
              without_snapshot-parts (s ++ (dash ∷ snapshot_word)) s snapshot_word
                (rsplit-last s snapshot_word refl) in
            rw (← is_u, shorter, is_whole) (from_parts-whole t c),
      )
