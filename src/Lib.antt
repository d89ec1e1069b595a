-- ===== src/Lib.antt =====
-- A verification library of python-event-sourcery: event stores, subscriptions, the outbox, the
-- registry and encryption of events, read models and aggregates.
--
-- The parts, and how they interact. An `EventStore` (event_sourcery/_event_store/event_store.py)
-- wraps events, serialises them with the `Serde`, which asks the registry for names and the
-- `Encryption` for the data, and hands them to a `StorageStrategy`. The in-memory strategy checks
-- the optimistic lock, stores and numbers the records, puts them into its outbox and dispatches
-- them to listeners; the Django and SQLAlchemy strategies do so over tables. Subscriptions follow
-- the log; a projector follows one stream for a read model; a repository replays a stream into an
-- aggregate and appends the aggregate's changes.
--
-- Which file models which part; Python's names keep their words:
--   Prelude, Errors, Exec: dictionaries by their `__eq__`, exceptions (event_sourcery/exceptions.py)
--     as values, and methods that keep what they wrote when they raise, as functions that pass the
--     state on.
--   StreamId, Versioning, Event: event_sourcery/_event_store/stream_id.py, tenant_id.py,
--     versioning.py and event/dto.py; Event.Class is what event/registry.py reads off a class.
--   InMemory: event_sourcery/_event_store/in_memory.py. Storage has a function per method of
--     `Storage`; Strategy per method of `InMemoryStorageStrategy`, `_ensure_stream` with its three
--     steps; Subscription has `__next__` and `_pop_record`; Outbox has `_publish_context` and the
--     loop of `Outbox.run` (event_sourcery/_event_store/outbox.py). The files beside them prove.
--   Registry: `EventRegistry`; Encryption: `Encryption`, `NestedDict` and `InMemoryKeyStorage`;
--     Serde: `Serde`; EventStore: `EventStore` over a record of the strategy's operations, which
--     EventStore.OverMemory fills with the in-memory strategy.
--   InTransaction: event_sourcery/_event_store/subscription/in_transaction.py.
--   ReadModel: event_sourcery/read_model/projector.py over event_sourcery_sqlalchemy/cursors_dao.py.
--   Repository: event_sourcery/event_sourcing/aggregate.py and repository.py.
--   GapDetecting: event_sourcery_sqlalchemy/subscription.py and event_sourcery_django/subscription.py.
--   Builder: event_sourcery/_event_store/subscription/builder.py over the in-memory subscriptions.
--   Tables: the tables of event_sourcery_sqlalchemy/models/base.py and event_sourcery_django/models.py,
--     whose columns are the same, and the events read from their rows (dto.py of both).
--   TableOutbox: event_sourcery_sqlalchemy/outbox.py, event_sourcery_django/outbox.py, and the
--     outbox part of event_sourcery_django/dto.py.
--   Django: event_sourcery_django/event_store.py. Query has `fetch_events`, Statements the steps of
--     `_ensure_stream` and of the writes, and Django itself the methods; the files beside them prove.
--   SqlAlchemy: event_sourcery_sqlalchemy/event_store.py, laid out in the same way.
--   EventLog: what a `StorageStrategy` promises to writers with an expected version, as laws and as
--     a specification of one stream, whose answers are settled by its version; the in-memory, Django
--     and SQLAlchemy strategies fill the laws.
--   Kurrent: event_sourcery_kurrentdb/stream.py, and `_iterator` of event_sourcery_kurrentdb/subscription.py.
--   Tests: runs on small inputs.
--
-- Bounds and fuel. Versions, positions and times are natural numbers without a bound, as in Python.
-- The loop of `_pop_record` runs on as many rounds as there are records and one more; each round
-- passes one record. The loops of `__next__` take the rounds, or the polls, that the clock leaves
-- them as an argument. All other loops run over a list.
--
-- Parameters, since their code is elsewhere: UUIDs, the texts of UUIDs and times, the cipher, JSON
-- text, the constructor of an event class, publishers, listeners, read models and `__apply__`, the
-- order of a set, the orders in which a database returns rows, what a subscription of the KurrentDB
-- client hands out, and the clock.
--
-- A statement that the database refuses changes nothing; what a method wrote before it raised stays,
-- and the transaction that a client wraps around it is the argument `undo` of EventLog. Transactions
-- that run at the same time are modelled as turns. Of the objects that a SQLAlchemy session keeps
-- the model has the columns that never change. A dictionary that two objects share is passed on
-- with the state of the one at work; no theorem is about two objects over one dictionary but those
-- of a change of tenant.
--
-- Not modelled: the container of backends and the wiring in the `__init__` files, which only
-- construct objects; the KurrentDB event store and outbox, which call a server; column types, the
-- registration of models, migrations; validation by pydantic; and the check of a name against its
-- UUID where `StreamId` is rebuilt from a row, which no row that the program writes fails.
pub mod Prelude
pub mod Errors
pub mod Exec
pub mod StreamId
pub mod Versioning
pub mod Event
pub mod InMemory
pub mod Registry
pub mod Encryption
pub mod ReadModel
pub mod Serde
pub mod Tables
pub mod TableOutbox
pub mod Django
pub mod SqlAlchemy
pub mod EventStore
pub mod EventLog
pub mod Repository
pub mod GapDetecting
pub mod InTransaction
pub mod Kurrent
pub mod Builder
pub mod Tests
