-- ===== src/InMemory/Storage/Valid.antt =====
-- The invariant of `Storage`: the log is numbered from 1 with no gap, and every stream has a
-- version entry, so that no method raises a `KeyError` on a stream that is there.
use native.Mathlib.Nat.{zero-add}
use python_event_sourcery.Prelude.{
  ℕ, zero, suc, ◌+◌, none, some, true, List, [], ◌∷◌, ◌++◌, last?, get_elem?, length, is_some, ◌≡◌,
  ◌∙◌, refl, arith, Option-cases, inl, inr,
}
use python_event_sourcery.Prelude.Dict.{lookup, remove, lookup-insert, lookup-remove}
use python_event_sourcery.Errors.{ok, err, key_error}
use python_event_sourcery.StreamId.{StreamId, stream_id_key}
use python_event_sourcery.Versioning.{Versioning}
use python_event_sourcery.Event.{RecordedRaw}
use python_event_sourcery.InMemory.Storage.{
  Storage, new_storage, current_position, create, put_record, append_record, append_loop, append,
  replace, position_of, first_version, or_zero, position_or_zero,
}

-- The positions are `p + 1`, `p + 2`, and so on.
abbrev pub IsNumbered : ℕ → List RecordedRaw → Type 0
IsNumbered p [] = Unit
IsNumbered p (r ∷ rest) = (r.position ≡ p + 1) × IsNumbered (p + 1) rest

pub record IsValid (s : Storage) : Type 0 where
  pub numbered : IsNumbered 0 s.records
  pub has_version :
      (j : StreamId) → is_some (lookup j s.streams) ≡ true → is_some (lookup j s.versions) ≡ true

pub IsNumbered-append :
    (p : ℕ) (xs ys : List RecordedRaw)
    → IsNumbered p xs
    → IsNumbered (p + length xs) ys
    → IsNumbered p (xs ++ ys)
IsNumbered-append p [] ys h k = subst_start (omega arith) k
  where
    subst_start : {q : ℕ} → q ≡ p → IsNumbered q ys → IsNumbered p ys
    subst_start e k = rw e at k
IsNumbered-append p (x ∷ xs) ys h k =
    (h.0, IsNumbered-append (p + 1) xs ys h.1 (moved (omega arith) k))
  where
    moved : {q : ℕ} → q ≡ p + 1 + length xs → IsNumbered q ys → IsNumbered (p + 1 + length xs) ys
    moved e k = rw e at k

-- The record at index `i` has the position after it.
pub position-get_elem? :
    (p : ℕ) (l : List RecordedRaw) (i : ℕ) {r : RecordedRaw}
    → IsNumbered p l
    → get_elem? l i ≡ some r
    → r.position ≡ p + i + 1
position-get_elem? p [] i h e = cc
position-get_elem? p (x ∷ l) zero h e = ground arith
position-get_elem? p (x ∷ l) (suc i) h e = omega (arith, position-get_elem? (p + 1) l i h.1 e)

-- The last position is the number of records.
position-last? :
    (p : ℕ) (x : RecordedRaw) (l : List RecordedRaw)
    → IsNumbered p (x ∷ l)
    → position_of (last? (x ∷ l)) ≡ some (p + length (x ∷ l))
position-last? p x [] h = ground arith
position-last? p x (y ∷ l) h = ground (arith, position-last? (p + 1) y l h.1)

numbered_last : (l : List RecordedRaw) → IsNumbered 0 l → or_zero (position_of (last? l)) ≡ length l
numbered_last [] h = refl
numbered_last (x ∷ l) h = ground (arith, position-last? 0 x l h)

pub position_or_zero-length : (s : Storage) → IsValid s → position_or_zero s ≡ length s.records
unfolding current_position
position_or_zero-length s v = numbered_last s.records v.numbered

pub IsValid-new : IsValid new_storage
unfolding lookup
IsValid-new = record { numbered = tt; has_version = λ j h. cc }

module _ (s : Storage) (v : IsValid s) where
  pub create-IsValid : (sid : StreamId) (vs : Versioning) → IsValid (create sid vs s)
  unfolding create
  create-IsValid sid vs = record {
    numbered = v.numbered;
    has_version = λ j h. ground (
      arith,
      v.has_version j,
      lookup-insert sid j [] s.streams,
      lookup-insert sid j (first_version vs) s.versions,
    );
  }

  pub replace-IsValid : (r : RecordedRaw) → IsValid (replace r s)
  unfolding replace
  replace-IsValid r = record {
    numbered = v.numbered;
    has_version = λ j h. ground (
      arith,
      v.has_version j,
      lookup-insert r.entry.stream_id j (r ∷ []) s.streams,
      lookup-insert r.entry.stream_id j r.entry.version s.versions,
    );
  }

  pub remove-IsValid : (sid : StreamId) → IsValid (record s { streams = remove sid s.streams })
  remove-IsValid sid = record {
    numbered = v.numbered;
    has_version = λ j h. ground (arith, v.has_version j, lookup-remove sid j s.streams);
  }

  put_record-IsValid : (r : RecordedRaw) (l : List RecordedRaw) → IsValid (put_record r l s)
  unfolding put_record
  put_record-IsValid r l = record {
    numbered = v.numbered;
    has_version = λ j h. ground (
      arith,
      v.has_version j,
      lookup-insert r.entry.stream_id j (l ++ r ∷ []) s.streams,
      lookup-insert r.entry.stream_id j r.entry.version s.versions,
    );
  }

append_record_found :
    (r : RecordedRaw) (s : Storage) (l : List RecordedRaw)
    → lookup r.entry.stream_id s.streams ≡ some l
    → append_record r s ≡ (ok tt, put_record r l s)
unfolding append_record
append_record_found r s l h = rw h

append_record_missing :
    (r : RecordedRaw) (s : Storage)
    → lookup r.entry.stream_id s.streams ≡ none
    → append_record r s ≡ (err key_error, s)
unfolding append_record
append_record_missing r s h = rw h

append_loop-IsValid :
    (rs : List RecordedRaw) (s : Storage) → IsValid s → IsValid (append_loop rs s).1
unfolding append_loop
append_loop-IsValid [] s v = v
append_loop-IsValid (r ∷ rest) s v = elim (Option-cases (lookup r.entry.stream_id s.streams)) [
  | inl missing ↦ rw (append_record_missing r s missing) v
  | inr (l, found) ↦
      rw (append_record_found r s l found)
        (append_loop-IsValid rest (put_record r l s) (put_record-IsValid s v r l))
]

-- `append` of records that are numbered after the log keeps the invariant, also where it raises
-- a `KeyError` half way.
pub append-IsValid :
    (rs : List RecordedRaw) (s : Storage)
    → IsValid s
    → IsNumbered (length s.records) rs
    → IsValid (append rs s).1
unfolding append
append-IsValid rs s v h =
    append_loop-IsValid rs (record s { records = s.records ++ rs })
      (record {
        numbered = IsNumbered-append 0 s.records rs v.numbered (rw zero-add h);
        has_version = v.has_version;
      })

put_record_log :
    (r : RecordedRaw) (l : List RecordedRaw) (s : Storage) → (put_record r l s).records ≡ s.records
unfolding put_record
put_record_log r l s = refl

append_loop_log : (rs : List RecordedRaw) (s : Storage) → (append_loop rs s).1.records ≡ s.records
unfolding append_loop
append_loop_log [] s = refl
append_loop_log (r ∷ rest) s = elim (Option-cases (lookup r.entry.stream_id s.streams)) [
  | inl missing ↦ rw (append_record_missing r s missing) refl
  | inr (l, found) ↦
      rw (append_record_found r s l found)
        (append_loop_log rest (put_record r l s) ∙ put_record_log r l s)
]

-- The log is extended first, so also where the loop raises.
pub append_log : (rs : List RecordedRaw) (s : Storage) → (append rs s).1.records ≡ s.records ++ rs
unfolding append
append_log rs s = append_loop_log rs (record s { records = s.records ++ rs })
