-- ===== src/ReadModel/Once.antt =====
-- What the projector shows to a read model: every version of a stream once, in order.
use python_event_sourcery.Prelude.{
  ◌≢◌, ℕ, zero, suc, ◌+◌, ◌-◌, ◌≤◌, ◌<◌, String, Option, none, some, ◌∷◌, [], ◌++◌, ◌≡◌, ◌∙◌, ap,
  sym, refl, arith, subst, nat_key, string_key, pair_key, inl, inr,
}
use python_event_sourcery.Prelude.Dict.{lookup}
use python_event_sourcery.Errors.{ok, err, stream_not_tracked, behind_stream, ahead_of_stream}
use python_event_sourcery.Exec.{Exec, continue}
use python_event_sourcery.StreamId.{StreamId, stream_id_key}
use python_event_sourcery.Event.{WrappedEvent}
use python_event_sourcery.ReadModel.{Rows, increment, put_at, move_to}
use python_event_sourcery.ReadModel.Projector.{
  State, LoadStream, read_all, except_clauses, project_at, project,
}
use python_event_sourcery.ReadModel.Cursors.{IsUnique}
use python_event_sourcery.ReadModel.Projected.{
  Moved, outcome, cursor_after, increment-Moved, Moved-trans, Moved-at, put_at-Moved, move_to-Moved,
}
use python_event_sourcery.ReadModel.Missed.{
  events_from, events_from-last, IsStored, compare-cases, outcome-ahead, cursor_after-ahead,
  IsTotal, catch_up-ok, project_at-incremented, project_at-refused, Projected, shown-Projected,
  at_version,
}

module _ {ℓ} {W : Type ℓ} (read_model : WrappedEvent → StreamId → Exec W (Unit {0}))
    (sid : StreamId) (total : IsTotal read_model) (name : String) (load_stream : LoadStream)
    (top : ℕ) where
  -- The cursors after `increment`.
  abbrev after_increment : ℕ → State W → Rows
  after_increment version s = (increment (name, sid) version s.rows).1

  project_at-first :
      (history : ℕ → WrappedEvent) (s : State W)
      → IsUnique s.rows
      → lookup (name, sid) s.rows ≡ none
      → Projected read_model sid total name load_stream history s 0 none
          (project_at read_model name load_stream (some 1) (history 1) sid s)
  unfolding events_from
  project_at-first history s u h =
      let (answer, cursors) = increment-Moved (name, sid) s.rows u 0 in
      rw
        (project_at-incremented read_model sid total name load_stream (history 1) 1 s
          (answer ∙ ap (λ o. outcome o 0) h))
        (record {
          worked = refl;
          cursors =
              subst (λ o. Moved (name, sid) s.rows (after_increment 1 s) o)
                (ap (λ o. cursor_after o 0) h) cursors;
          shown = refl;
        })

  project_at-untracked :
      (history : ℕ → WrappedEvent) (v : ℕ) (s : State W)
      → IsStored load_stream sid top history
      → suc v < top
      → IsUnique s.rows
      → lookup (name, sid) s.rows ≡ none
      → Projected read_model sid total name load_stream history s (suc v) none (
          project_at read_model name load_stream (some (suc (suc v))) (history (suc (suc v))) sid s)
  unfolding except_clauses
  project_at-untracked history v s stored within u h =
      let (answer, f) = increment-Moved (name, sid) s.rows u (suc v) in
      let f' : Moved (name, sid) s.rows (after_increment (suc (suc v)) s) none =
        subst (λ o. Moved (name, sid) s.rows (after_increment (suc (suc v)) s) o)
          (ap (λ o. cursor_after o (suc v)) h) f in
      let (put, g) =
        put_at-Moved (name, sid) (after_increment (suc (suc v)) s) f'.unique (suc (suc v))
          (Moved-at (name, sid) s.rows (after_increment (suc (suc v)) s) none f') in
      let t : State W = record {
        rows = (put_at (name, sid) (suc (suc v)) (after_increment (suc (suc v)) s)).1;
        world = s.world;
      } in
      rw
        (
          project_at-refused read_model sid total name load_stream (history (suc (suc v)))
              (suc (suc v)) stream_not_tracked s (answer ∙ ap (λ o. outcome o (suc v)) h),
          put,
          continue,
          catch_up-ok read_model sid total name load_stream (history (suc (suc v))) none
              (suc (suc v)) (events_from history 1 (suc v)) t
              (stored.from_first (suc v) (omega arith)),
        )
        (shown-Projected read_model sid total name load_stream history s (suc v) none t.rows
          (suc (suc v)) (events_from history 1 (suc v) ++ (history (suc (suc v)) ∷ []))
          (Moved-trans (name, sid) s.rows (after_increment (suc (suc v)) s) t.rows none
            (some (suc (suc v))) f' g)
          (ground arith)
          (events_from-last history 1 (suc v) (suc (suc v)) (suc (suc v) - 0) (omega arith)
            (omega arith)))

  project_at-behind :
      (history : ℕ → WrappedEvent) (v c : ℕ) (s : State W)
      → IsStored load_stream sid top history
      → suc v < top
      → IsUnique s.rows
      → lookup (name, sid) s.rows ≡ some (suc c)
      → c < v
      → Projected read_model sid total name load_stream history s (suc v) (some (suc c)) (
          project_at read_model name load_stream (some (suc (suc v))) (history (suc (suc v))) sid s)
  unfolding except_clauses
  project_at-behind history v c s stored within u h less =
      let n = v - c in
      let (answer, f) = increment-Moved (name, sid) s.rows u (suc v) in
      let f' : Moved (name, sid) s.rows (after_increment (suc (suc v)) s) (some (suc c)) =
        subst (λ o. Moved (name, sid) s.rows (after_increment (suc (suc v)) s) o)
          (ap (λ o. cursor_after o (suc v)) h ∙ ground arith) f in
      let (moved_on, g) =
        move_to-Moved (name, sid) (after_increment (suc (suc v)) s) f'.unique (suc (suc v)) (suc c)
          (Moved-at (name, sid) s.rows (after_increment (suc (suc v)) s) (some (suc c)) f') in
      let t : State W = record {
        rows = (move_to (name, sid) (suc (suc v)) (after_increment (suc (suc v)) s)).1;
        world = s.world;
      } in
      let load : load_stream sid (some (suc c + 1)) (some (suc (suc v)))
          ≡ ok (events_from history (suc (suc c)) n) =
        stored.from_version (suc c) n (suc c + 1) (suc (suc v)) (omega arith) (omega arith)
          (omega arith) in
      rw
        (
          project_at-refused read_model sid total name load_stream (history (suc (suc v)))
              (suc (suc v)) (behind_stream (suc c)) s
              (answer ∙ ap (λ o. outcome o (suc v)) h ∙ ground arith),
          moved_on,
          continue,
          catch_up-ok read_model sid total name load_stream (history (suc (suc v)))
              (some (suc c + 1)) (suc (suc v)) (events_from history (suc (suc c)) n) t load,
        )
        (shown-Projected read_model sid total name load_stream history s (suc v) (some (suc c))
          t.rows (suc (suc v)) (events_from history (suc (suc c)) n ++ (history (suc (suc v)) ∷ []))
          (Moved-trans (name, sid) s.rows (after_increment (suc (suc v)) s) t.rows (some (suc c))
            (some (suc (suc v))) f' g)
          (ground arith)
          (events_from-last history (suc (suc c)) n (suc (suc v)) (suc (suc v) - suc c)
            (omega arith) (omega arith)))

  project_at-next :
      (history : ℕ → WrappedEvent) (c : ℕ) (s : State W)
      → IsUnique s.rows
      → lookup (name, sid) s.rows ≡ some (suc c)
      → Projected read_model sid total name load_stream history s (suc c) (some (suc c)) (
          project_at read_model name load_stream (some (suc (suc c))) (history (suc (suc c))) sid s)
  unfolding events_from
  project_at-next history c s u h =
      let (answer, f) = increment-Moved (name, sid) s.rows u (suc c) in
      let one : (suc (suc c) - suc c) ≡ 1 = omega arith in
      rw
        (project_at-incremented read_model sid total name load_stream (history (suc (suc c)))
          (suc (suc c)) s (answer ∙ ap (λ o. outcome o (suc c)) h ∙ ground arith))
        (shown-Projected read_model sid total name load_stream history s (suc c) (some (suc c))
          (after_increment (suc (suc c)) s) (suc (suc c)) (history (suc (suc c)) ∷ [])
          (subst (λ o. Moved (name, sid) s.rows (after_increment (suc (suc c)) s) o)
            (ap (λ o. cursor_after o (suc c)) h ∙ ground arith) f)
          (ground arith) (sym (ap (events_from history (suc (suc c))) one)))

  project_at-ahead :
      (history : ℕ → WrappedEvent) (v c : ℕ) (s : State W)
      → IsUnique s.rows
      → lookup (name, sid) s.rows ≡ some (suc c)
      → v ≤ c
      → Projected read_model sid total name load_stream history s v
          (some (suc c))
          (project_at read_model name load_stream (some (suc v)) (history (suc v)) sid s)
  unfolding except_clauses events_from read_all
  project_at-ahead history v c s u h more =
      let (answer, f) = increment-Moved (name, sid) s.rows u v in
      let ahead : outcome (some (suc c)) v ≡ err (ahead_of_stream (suc c)) =
        outcome-ahead v c more in
      let kept : cursor_after (some (suc c)) v ≡ some (suc c) = cursor_after-ahead v c more in
      let nothing : (suc v - suc c) ≡ 0 = omega arith in
      rw
        (project_at-refused read_model sid total name load_stream (history (suc v)) (suc v)
          (ahead_of_stream (suc c)) s (answer ∙ ap (λ o. outcome o v) h ∙ ahead))
        (shown-Projected read_model sid total name load_stream history s v (some (suc c))
          (after_increment (suc v) s) (suc c) []
          (subst (λ o. Moved (name, sid) s.rows (after_increment (suc v) s) o)
            (ap (λ o. cursor_after o v) h ∙ kept) f)
          (ground arith) (sym (ap (events_from history (suc (suc c))) nothing)))

  project_at-seen :
      (history : ℕ → WrappedEvent) (v : ℕ) (s : State W) (cursor : Option ℕ)
      → IsStored load_stream sid top history
      → v < top
      → IsUnique s.rows
      → lookup (name, sid) s.rows ≡ cursor
      → cursor ≢ some 0
      → Projected read_model sid total name load_stream history s v cursor
          (project_at read_model name load_stream (some (suc v)) (history (suc v)) sid s)
  project_at-seen history zero s none stored within u h p = project_at-first history s u h
  project_at-seen history (suc v) s none stored within u h p =
      project_at-untracked history v s stored within u h
  project_at-seen history v s (some zero) stored within u h p = elim (p refl) [ ]
  project_at-seen history v s (some (suc c)) stored within u h p = elim (compare-cases v c) [
    | inl more ↦ project_at-ahead history v c s u h more
    | inr (inl (w, at_next, less)) ↦
        subst
          (λ x.
            Projected read_model sid total name load_stream history s x (some (suc c))
              (project_at read_model name load_stream (some (suc x)) (history (suc x)) sid s))
          (sym at_next) (project_at-behind history w c s stored (omega arith) u h less)
    | inr (inr at_next) ↦
        subst
          (λ x.
            Projected read_model sid total name load_stream history s x (some (suc c))
              (project_at read_model name load_stream (some (suc x)) (history (suc x)) sid s))
          (sym at_next) (project_at-next history c s u h)
  ]

  -- When the read model never raises, the stream is stored up to a version, no cursor is there
  -- twice and that of the stream is not at 0, a call for version v + 1, which is stored, with the
  -- cursor at c shows it the versions c + 1 to v + 1 in order, and nothing if c is past v; the
  -- cursor is then at the larger of c and v + 1, and no other cursor moved.
  pub project-Projected :
      (history : ℕ → WrappedEvent) (v : ℕ) (s : State W)
      → IsStored load_stream sid top history
      → v < top
      → IsUnique s.rows
      → lookup (name, sid) s.rows ≢ some 0
      → Projected read_model sid total name load_stream history s v
          (lookup (name, sid) s.rows)
          (project read_model name load_stream (history (suc v)) sid s)
  project-Projected history v s stored within u p =
      at_version read_model sid total name load_stream history v s (lookup (name, sid) s.rows)
        (stored.versioned v within)
        (project_at-seen history v s (lookup (name, sid) s.rows) stored within u refl p)
