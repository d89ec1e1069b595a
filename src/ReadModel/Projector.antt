-- ===== src/ReadModel/Projector.antt =====
-- event_sourcery/read_model/projector.py. The event store is the reads that `load_stream` answers,
-- and the read model an action on a state of its own, which may raise.
use python_event_sourcery.Prelude.{ℕ, ◌+◌, String, Option, none, some, List, [], ◌∷◌}
use python_event_sourcery.Errors.{
  Error, Result, ok, err, stream_not_tracked, behind_stream, ahead_of_stream,
  cant_project_unversioned_event,
}
use python_event_sourcery.Exec.{Exec, ◌>>=◌, ◌>>◌, lift, raise, pure}
use python_event_sourcery.StreamId.{StreamId}
use python_event_sourcery.Event.{WrappedEvent}
use python_event_sourcery.ReadModel.{Rows, increment, put_at, move_to}

-- The table of cursors, and what the read model changes.
pub record State {ℓ} (W : Type ℓ) : Type ℓ where
  pub rows : Rows
  pub world : W

abbrev pub LoadStream : Type 0
LoadStream = StreamId → Option ℕ → Option ℕ → Result (List WrappedEvent)

module _ {ℓ} {W : Type ℓ} where
  abbrev pub on_rows : Exec Rows (Unit {0}) → Exec (State W) (Unit {0})
  on_rows m s = ((m s.rows).0, record s { rows = (m s.rows).1 })

  abbrev pub on_world : Exec W (Unit {0}) → Exec (State W) (Unit {0})
  on_world m s = ((m s.world).0, record s { world = (m s.world).1 })

  module _ (read_model : WrappedEvent → StreamId → Exec W (Unit {0})) where
    -- `for event in missed_events: self._read_model(event, stream_id)`
    unfoldable pub read_all : StreamId → List WrappedEvent → Exec W (Unit {0})
    read_all sid [] = pure tt
    read_all sid (e ∷ rest) = read_model e sid >> read_all sid rest

    module _ (name : String) (load_stream : LoadStream) where
      -- The end that two `except` clauses share: the missed events, then the event itself.
      unfoldable pub catch_up : WrappedEvent → StreamId → Option ℕ → ℕ → Exec (State W) (Unit {0})
      catch_up event sid start version = do
        missed ← lift (load_stream sid start (some version))
        on_world (read_all sid missed)
        on_world (read_model event sid)

      unfoldable pub except_clauses :
          Error → WrappedEvent → StreamId → ℕ → Exec (State W) (Unit {0})
      except_clauses stream_not_tracked event sid version = do
        on_rows (put_at (name, sid) version)
        catch_up event sid none version
      except_clauses (behind_stream current) event sid version = do
        on_rows (move_to (name, sid) version)
        catch_up event sid (some (current + 1)) version
      except_clauses (ahead_of_stream current) event sid version = pure tt
      except_clauses e event sid version = raise e

      unfoldable pub try_body : WrappedEvent → StreamId → ℕ → Exec (State W) (Unit {0})
      try_body event sid version = do
        on_rows (increment (name, sid) version)
        on_world (read_model event sid)

      abbrev pub handled :
          Result (Unit {0}) → WrappedEvent → StreamId → ℕ → Exec (State W) (Unit {0})
      handled (ok u) event sid version = pure u
      handled (err e) event sid version = except_clauses e event sid version

      unfoldable pub project_at : Option ℕ → WrappedEvent → StreamId → Exec (State W) (Unit {0})
      project_at none event sid s = (err cant_project_unversioned_event, s)
      project_at (some version) event sid s =
          let tried = try_body event sid version s in handled tried.0 event sid version tried.1

      unfoldable pub project : WrappedEvent → StreamId → Exec (State W) (Unit {0})
      unfolding project_at
      project event sid s = project_at event.version event sid s
