-- ===== src/EventStore/OverMemory.antt =====
-- `InMemoryStorageStrategy` of event_sourcery/_event_store/in_memory.py as a `StorageStrategy`.
use python_event_sourcery.Prelude.{Bool, List}
use python_event_sourcery.Errors.{ok}
use python_event_sourcery.Exec.{Exec}
use python_event_sourcery.Event.{RawEvent, RecordedRaw}
use python_event_sourcery.InMemory.Strategy
use python_event_sourcery.InMemory.Strategy.{Strategy}
use python_event_sourcery.EventStore.{StorageStrategy}

unfoldable pub in_memory {ℓ} :
    {T : Type ℓ}
    → (RawEvent → Bool)
    → (List RecordedRaw → Exec T (Unit {0}))
    → StorageStrategy (Strategy T)
in_memory filterer dispatch = record {
  fetch_events = Strategy.fetch_events;
  insert_events = Strategy.insert_events filterer dispatch;
  save_snapshot = λ snapshot s. (ok tt, Strategy.save_snapshot snapshot s);
  delete_stream = Strategy.delete_stream;
  current_position = Strategy.strategy_position;
}
