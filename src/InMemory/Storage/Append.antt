-- ===== src/InMemory/Storage/Append.antt =====
-- What the loop of `Storage.append` does to the streams and the versions.
use mathlib.Core.List.{append-nil, append_assoc}
use python_event_sourcery.Prelude.{
  ℕ, Option, some, Bool, true, List, [], ◌∷◌, ◌++◌, all, ◌≡◌, refl, arith, if◌then◌else◌,
}
use python_event_sourcery.Prelude.Dict.{lookup, lookup-insert, lookup_congr}
use python_event_sourcery.Errors.{ok}
use python_event_sourcery.StreamId.{
  StreamId, stream_id_same, stream_id_key, stream_id_symm, stream_id_cong,
}
use python_event_sourcery.Event.{RecordedRaw}
use python_event_sourcery.InMemory.Storage.{Storage, put_record, append_record, append_loop, append}

abbrev pub belongs_to : StreamId → RecordedRaw → Bool
belongs_to sid r = stream_id_same sid r.entry.stream_id

-- The version that a stream has after these records.
abbrev pub version_after : Option ℕ → List RecordedRaw → Option ℕ
version_after v [] = v
version_after v (r ∷ rest) = version_after r.entry.version rest

-- `t` is `s` with the records at the end of the stream, of which `l` and `v` are what `s` has.
pub record Appended (sid : StreamId) (l : List RecordedRaw) (v : Option ℕ) (rs : List RecordedRaw)
    (s t : Storage) : Type 0 where
  pub same_records : t.records ≡ s.records
  pub at_stream :
      (j : StreamId)
      → lookup j t.streams ≡ (if stream_id_same sid j then some (l ++ rs) else lookup j s.streams)
  pub at_version :
      (j : StreamId)
      → lookup j t.versions
        ≡ (if stream_id_same sid j then some (version_after v rs) else lookup j s.versions)

module _ (sid : StreamId) where
  Appended-nil :
      (l : List RecordedRaw) (v : Option ℕ) (s : Storage)
      → lookup sid s.streams ≡ some l
      → lookup sid s.versions ≡ some v
      → Appended sid l v [] s s
  Appended-nil l v s hl hv = record {
    same_records = refl;
    at_stream = λ j. ground (arith, lookup_congr sid j s.streams, append-nil l);
    at_version = λ j. ground (arith, lookup_congr sid j s.versions);
  }

  Appended-cons :
      (l : List RecordedRaw) (v : Option ℕ) (r : RecordedRaw) (rest : List RecordedRaw)
      (s t : Storage)
      → belongs_to sid r ≡ true
      → Appended sid (l ++ r ∷ []) r.entry.version rest (put_record r l s) t
      → Appended sid l v (r ∷ rest) s t
  unfolding put_record
  Appended-cons l v r rest s t mine a = record {
    same_records = a.same_records;
    at_stream = λ j. ground (
      arith,
      a.at_stream j,
      append_assoc l (r ∷ []) rest,
      lookup-insert r.entry.stream_id j (l ++ r ∷ []) s.streams,
      stream_id_cong sid r.entry.stream_id j mine,
    );
    at_version = λ j. ground (
      arith,
      a.at_version j,
      lookup-insert r.entry.stream_id j r.entry.version s.versions,
      stream_id_cong sid r.entry.stream_id j mine,
    );
  }

  append_record-put :
      (l : List RecordedRaw) (r : RecordedRaw) (s : Storage)
      → lookup sid s.streams ≡ some l
      → belongs_to sid r ≡ true
      → append_record r s ≡ (ok tt, put_record r l s)
  unfolding append_record
  append_record-put l r s hl mine =
      let here = lookup_congr sid r.entry.stream_id s.streams mine in
      let found : lookup r.entry.stream_id s.streams ≡ some l = cc (hl, here) in rw found

  lookup-put_record :
      (l : List RecordedRaw) (r : RecordedRaw) (s : Storage)
      → belongs_to sid r ≡ true
      → (lookup sid (put_record r l s).streams ≡ some (l ++ r ∷ []))
        × (lookup sid (put_record r l s).versions ≡ some r.entry.version)
  unfolding put_record
  lookup-put_record l r s mine = ground (
    arith,
    lookup-insert r.entry.stream_id sid (l ++ r ∷ []) s.streams,
    lookup-insert r.entry.stream_id sid r.entry.version s.versions,
    stream_id_symm r.entry.stream_id sid,
  )

  append_loop-Appended :
      (rs : List RecordedRaw) (l : List RecordedRaw) (v : Option ℕ) (s : Storage)
      → lookup sid s.streams ≡ some l
      → lookup sid s.versions ≡ some v
      → all (belongs_to sid) rs ≡ true
      → ((append_loop rs s).0 ≡ ok tt) × Appended sid l v rs s (append_loop rs s).1
  unfolding append_loop
  append_loop-Appended [] l v s hl hv h = (refl, Appended-nil l v s hl hv)
  append_loop-Appended (r ∷ rest) l v s hl hv h =
      let mine : belongs_to sid r ≡ true = ground arith in
      let others : all (belongs_to sid) rest ≡ true = ground arith in
      let found = lookup-put_record l r s mine in
      let after =
        append_loop-Appended rest (l ++ r ∷ []) r.entry.version (put_record r l s) found.0 found.1
          others in
      rw (append_record-put l r s hl mine)
        (after.0, Appended-cons l v r rest s (append_loop rest (put_record r l s)).1 mine after.1)

  -- `append` of records that belong to one stream returns; they come last in the log and in the
  -- stream, and nothing else changes.
  pub append-Appended :
      (rs : List RecordedRaw) (l : List RecordedRaw) (v : Option ℕ) (s : Storage)
      → lookup sid s.streams ≡ some l
      → lookup sid s.versions ≡ some v
      → all (belongs_to sid) rs ≡ true
      → ((append rs s).0 ≡ ok tt)
        × Appended sid l v rs (record s { records = s.records ++ rs }) (append rs s).1
  unfolding append
  append-Appended rs l v s hl hv h =
      append_loop-Appended rs l v (record s { records = s.records ++ rs }) hl hv h
