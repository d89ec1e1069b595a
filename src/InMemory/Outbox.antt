-- ===== src/InMemory/Outbox.antt =====
-- `InMemoryOutboxStorageStrategy` of event_sourcery/_event_store/in_memory.py, and the loop of
-- `Outbox.run` of event_sourcery/_event_store/outbox.py over it. What stands in the `with` block,
-- the deserialisation and the call of the publisher, is an action `attempt` that may raise.
pub mod Run
pub mod Order
use python_event_sourcery.Prelude.{
  ℕ, zero, suc, ◌+◌, Option, none, some, Bool, true, false, ◌&&◌, List, [], ◌∷◌, take, set,
  erase_idx, leb, if◌then◌else◌, ◌==◌, Key, nat_key,
}
use python_event_sourcery.Errors.{Result, ok, err, value_error}
use python_event_sourcery.Exec.{Exec, ◌>>=◌, ◌>>◌}
use python_event_sourcery.Event.{RecordedRaw, recorded_same}
use python_event_sourcery.Event.Json.{Fields}
use python_event_sourcery.InMemory.Strategy.{Entries}

-- The outbox, and what the publisher changes.
pub record State {ℓ} (W : Type ℓ) : Type ℓ where
  pub entries : Entries
  pub world : W

module _ ⦃dict_key : Key Fields⦄ where
  -- The comparison of tuples in `list.index`.
  abbrev pub entry_same : RecordedRaw × ℕ → RecordedRaw × ℕ → Bool
  entry_same a b = recorded_same a.0 b.0 && (a.1 == b.1)

  -- `self._outbox.index(entry)`
  unfoldable pub index_of_entry : RecordedRaw × ℕ → Entries → Option ℕ
  index_of_entry e [] = none
  index_of_entry e (x ∷ xs) = elim (entry_same x e) [
    | true ↦ some 0
    | false ↦ (elim (index_of_entry e xs) [ none ↦ none | some i ↦ some (suc i) ])
  ]

unfoldable pub reached_max : ℕ → ℕ → Bool
reached_max max_attempts failure_count = leb max_attempts failure_count

-- The `except` and `else` clauses of `_publish_context`, at the index that was found before.
unfoldable pub settle_at : ℕ → RecordedRaw × ℕ → ℕ → Result (Unit {0}) → Entries → Entries
unfolding reached_max
settle_at max_attempts e index (ok u) entries = erase_idx entries index
settle_at max_attempts e index (err x) entries =
    if reached_max max_attempts (e.1 + 1)
    then erase_idx entries index
    else set entries index (e.0, e.1 + 1)

module _ {ℓ} {W : Type ℓ} ⦃dict_key : Key Fields⦄ (max_attempts : ℕ)
    (attempt : RecordedRaw → Exec W (Unit {0})) where
  publish_at : RecordedRaw × ℕ → Option ℕ → Exec (State W) (Unit {0})
  publish_at e none s = (err value_error, s)
  publish_at e (some index) s =
      let answer = attempt e.0 s.world in
      (
        ok tt,
        record { entries = settle_at max_attempts e index answer.0 s.entries; world = answer.1 },
      )

  -- `with self._publish_context(record, failure_count) as raw_record: …`
  unfoldable pub publish_context : RecordedRaw × ℕ → Exec (State W) (Unit {0})
  unfolding publish_at
  publish_context e s = publish_at e (index_of_entry e s.entries) s

  run_loop : List (RecordedRaw × ℕ) → Exec (State W) (Unit {0})
  run_loop [] s = (ok tt, s)
  run_loop (e ∷ rest) s = (publish_context e >> run_loop rest) s

  -- `run(publisher, limit)`; the entries are the copy `self._outbox[:limit]`
  unfoldable pub run : ℕ → Exec (State W) (Unit {0})
  unfolding run_loop publish_context index_of_entry settle_at
  run limit s = run_loop (take limit s.entries) s
