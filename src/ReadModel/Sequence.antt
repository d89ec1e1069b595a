-- ===== src/ReadModel/Sequence.antt =====
-- A run of the projector over notifications in any order, some lost and some twice.
use python_event_sourcery.Prelude.{
  ℕ, zero, suc, ◌+◌, ◌-◌, ◌≤◌, ◌<◌, String, Option, none, some, List, ◌∷◌, [], ◌++◌, ◌≡◌, ◌≢◌, ◌∙◌,
  ap, sym, refl, arith, subst, pair_key, string_key,
}
use python_event_sourcery.Prelude.Dict.{lookup}
use python_event_sourcery.Errors.{ok}
use python_event_sourcery.Exec.{Exec, ◌>>◌, pure, continue}
use python_event_sourcery.StreamId.{StreamId, stream_id_key}
use python_event_sourcery.Event.{WrappedEvent}
use python_event_sourcery.ReadModel.Projector.{State, LoadStream, read_all, project}
use python_event_sourcery.ReadModel.Cursors.{IsUnique}
use python_event_sourcery.ReadModel.Projected.{Moved-at}
use python_event_sourcery.ReadModel.Missed.{
  events_from, IsStored, seen, maximum, IsTotal, read_all-append, Projected,
}
use python_event_sourcery.ReadModel.Once.{project-Projected}

-- A client that calls `project` for the events of one stream, at each of the versions v + 1.
unfoldable pub project_all {ℓ} :
    {W : Type ℓ}
    → (WrappedEvent → StreamId → Exec W (Unit {0}))
    → String
    → LoadStream
    → StreamId
    → (ℕ → WrappedEvent)
    → List ℕ
    → Exec (State W) (Unit {0})
project_all read_model name load_stream sid history [] = pure tt
project_all read_model name load_stream sid history (v ∷ vs) =
    project read_model name load_stream (history (suc v)) sid
    >> project_all read_model name load_stream sid history vs

-- The greatest of a version and those of a list, each one more.
unfoldable pub greatest : ℕ → List ℕ → ℕ
greatest c [] = c
greatest c (v ∷ vs) = greatest (maximum c (suc v)) vs

greatest-le : (c : ℕ) (vs : List ℕ) → c ≤ greatest c vs
unfolding greatest
greatest-le c [] = omega arith
greatest-le c (v ∷ vs) = ground (arith, greatest-le (maximum c (suc v)) vs)

events_from-append :
    (history : ℕ → WrappedEvent) (from n m at : ℕ)
    → at ≡ from + n
    → events_from history from n ++ events_from history at m ≡ events_from history from (n + m)
unfolding events_from
events_from-append history from zero m at h =
    let start : at ≡ from = omega arith in
    let count : m ≡ 0 + m = omega arith in
    ap (λ i. events_from history i m) start ∙ ap (events_from history from) count
events_from-append history from (suc n) m at h =
    let count : suc (n + m) ≡ suc n + m = omega arith in
    ap (λ l. history from ∷ l) (events_from-append history (suc from) n m at (omega arith))
    ∙ ap (events_from history from) count

-- The versions v + 1 are stored.
abbrev pub AreStored : ℕ → List ℕ → Type 0
AreStored top [] = Unit
AreStored top (v ∷ vs) = (v < top) × AreStored top vs

module _ {ℓ} {W : Type ℓ} (read_model : WrappedEvent → StreamId → Exec W (Unit {0}))
    (total : IsTotal read_model) (name : String) (load_stream : LoadStream) (sid : StreamId)
    (top : ℕ) (history : ℕ → WrappedEvent) (stored : IsStored load_stream sid top history) where
  split_range :
      (c v : ℕ) (vs : List ℕ) (w : W)
      → (read_all read_model sid
          (events_from history
            (suc (maximum c (suc v)))
            (greatest (maximum c (suc v)) vs - maximum c (suc v)))
          (read_all read_model sid (events_from history (suc c) (suc v - c)) w).1).1
        ≡ (read_all read_model sid (events_from history (suc c) (greatest c (v ∷ vs) - c)) w).1
  unfolding greatest
  split_range c v vs w =
      let m = maximum c (suc v) in
      let g = greatest m vs in
      let bound : m ≤ g = greatest-le m vs in
      let start : suc m ≡ suc c + (suc v - c) = ground arith in
      let count : (suc v - c) + (g - m) ≡ g - c = ground arith in
      sym (
        read_all-append read_model sid total (events_from history (suc c) (suc v - c))
          (events_from history (suc m) (g - m)) w)
      ∙ ap (λ l. (read_all read_model sid l w).1)
          (events_from-append history (suc c) (suc v - c) (g - m) (suc m) start
            ∙ ap (events_from history (suc c)) count)

  read_all-none :
      (from : ℕ) (w : W) → (read_all read_model sid (events_from history from 0) w).1 ≡ w
  unfolding read_all events_from
  read_all-none from w = refl

  project_all-by_cursor :
      (vs : List ℕ) (s : State W) (cursor : Option ℕ)
      → AreStored top vs
      → IsUnique s.rows
      → lookup (name, sid) s.rows ≡ cursor
      → cursor ≢ some 0
      → ((project_all read_model name load_stream sid history vs s).0 ≡ ok tt)
        × ((project_all read_model name load_stream sid history vs s).1.world
            ≡ (read_all read_model sid
                (events_from history (suc (seen cursor)) (greatest (seen cursor) vs - seen cursor))
                s.world).1)
  unfolding project_all
  project_all-by_cursor [] s cursor within u h p =
      let none_left : greatest (seen cursor) [] - seen cursor ≡ 0 =
        unfold greatest in omega arith in
      (
        refl,
        sym (
            ap
              (λ n. (read_all read_model sid (events_from history (suc (seen cursor)) n) s.world).1)
              none_left
            ∙ read_all-none (suc (seen cursor)) s.world),
      )
  project_all-by_cursor (v ∷ vs) s cursor within u h p =
      let now =
        subst
          (λ o.
            Projected read_model sid total name load_stream history s v o
              (project read_model name load_stream (history (suc v)) sid s))
          h
          (project-Projected read_model sid total name load_stream top history v s stored within.0 u
            (subst (λ o. o ≢ some 0) (sym h) p)) in
      let t = (project read_model name load_stream (history (suc v)) sid s).1 in
      let m = maximum (seen cursor) (suc v) in
      let positive : some m ≢ some 0 = λ e. ground arith in
      let (worked, shown) =
        project_all-by_cursor vs t (some m) within.1 now.cursors.unique
          (Moved-at (name, sid) s.rows t.rows (some m) now.cursors) positive in
      rw (now.worked, continue)
        (
          worked,
          shown
              ∙ ap
                  (λ w.
                    (read_all read_model sid (events_from history (suc m) (greatest m vs - m)) w).1)
                  now.shown
              ∙ split_range (seen cursor) v vs s.world,
        )

  -- Whatever the versions that the projector is called for, of those that are stored, and however
  -- often and in what order, a read model that never raises, over a stream stored up to a version
  -- whose cursor is not yet there, with no other cursor there twice, is shown every version from 1
  -- to the greatest of them once, in the order of the stream.
  pub project_all-once :
      (vs : List ℕ) (s : State W)
      → AreStored top vs
      → IsUnique s.rows
      → lookup (name, sid) s.rows ≡ none
      → ((project_all read_model name load_stream sid history vs s).0 ≡ ok tt)
        × ((project_all read_model name load_stream sid history vs s).1.world
            ≡ (read_all read_model sid (events_from history 1 (greatest 0 vs)) s.world).1)
  project_all-once vs s within u h =
      let (worked, shown) = project_all-by_cursor vs s none within u h (λ e. cc) in
      let count : greatest 0 vs - 0 ≡ greatest 0 vs = omega arith in
      (
        worked,
        shown ∙ ap (λ n. (read_all read_model sid (events_from history 1 n) s.world).1) count,
      )
