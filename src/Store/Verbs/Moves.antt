-- ===== src/Store/Verbs/Moves.antt =====
-- What the two verbs that change a task's status do, on each of their branches.
use lazybones.Prelude.{
  String, Option, none, some, [], ◌∷◌, ◌++◌, ◌≡◌, refl, ◌∙◌, ap, ◌⊎◌, inl, inr, true, false, insert,
  option_map, Bool-cases, if◌then◌else◌,
}
use lazybones.Store.Error.{StoreError, operation, illegal_transition}
use lazybones.Store.Surreal.{
  Surreal, IsDocumented, Contents, ◌>>=◌, call, AppendsEvent, expect, return, throw,
}
use lazybones.Store.Event.{Event, EventRow, NewEvent, into_event}
use lazybones.Store.Task.Status.{pending, as_str}
use lazybones.Store.Task.Model.{Task}
use lazybones.Store.Task.Row.{from_task}
use lazybones.Store.Task.Transition.{Transition, target, is_legal, apply_side_data}
use lazybones.Store.Verbs.{
  required, write, append_event, write_and_log, make_move, cleared, transition_task, reset_task,
}
use lazybones.Store.Verbs.Post.{
  Post, Post_mono, bind-Post, call-Post, Holds, Untouched, Failed, required-Post, write-Post,
}

-- The event says which task moved, from and to which status, and who drove it.
pub record IsEntry (run task from to actor : String) (event : Event) : Type 0 where
  pub same_run : event.run ≡ run
  pub same_task : event.task ≡ task
  pub same_from : event.from ≡ from
  pub same_to : event.to ≡ to
  pub same_actor : event.actor ≡ actor

-- One row more stands at the end of the log.
pub record Logs (c : Contents) (event : Event) (c' : Contents) : Type 0 where
  pub row : EventRow
  pub projected : event ≡ into_event row
  pub appended : c' ≡ record c { events = c.events ++ row ∷ [] }

-- The contents after task `id` was written as `t`.
abbrev pub with_task : Contents → String → Task → Contents
with_task c id t = record c { tasks = insert id (from_task t) c.tasks }

-- The task after a transition at a time.
abbrev pub moved_task : Task → Transition → String → Task
moved_task t transition at = apply_side_data (record t { status = target transition }) transition at

-- A transition that was made.
pub record Moved (c : Contents) (id : String) (transition : Transition) (actor : String) (t : Task)
    (event : Event) (c' : Contents) : Type 0 where
  pub old : Task
  pub held : Holds c id old
  pub legal : is_legal old.status transition ≡ true
  pub at : String
  pub moved : t ≡ moved_task old transition at
  pub entry : IsEntry t.run id (as_str old.status) (as_str (target transition)) actor event
  pub logged : Logs (with_task c id t) event c'

-- A transition that was not made, or was not logged.
pub data NotMoved (c : Contents) (id : String) (transition : Transition) (e : StoreError)
    (c' : Contents) : Type 0 where
  untouched : Untouched c id e c' → NotMoved c id transition e c'
  illegal :
      (old : Task)
      → Holds c id old
      → is_legal old.status transition ≡ false
      → e ≡ illegal_transition id (as_str old.status) (as_str (target transition))
      → c' ≡ c
      → NotMoved c id transition e c'
  unlogged :
      (old : Task) (at m : String)
      → Holds c id old
      → is_legal old.status transition ≡ true
      → e ≡ operation m
      → c' ≡ with_task c id (moved_task old transition at)
      → NotMoved c id transition e c'

-- The task starts anew: it is pending, nothing of a claim, an outcome or a retry is left, and the rest
-- stays.
abbrev pub anew : Task → Task
anew t = record {
  id = t.id;
  run = t.run;
  title = t.title;
  spec = t.spec;
  status = pending;
  deps = t.deps;
  owns = t.owns;
  tool = t.tool;
  model = t.model;
  effort = t.effort;
  auto_trust_agent_folder = t.auto_trust_agent_folder;
  worktree_mode = t.worktree_mode;
  session = none;
  worktree = none;
  branch = none;
  base_commit = t.base_commit;
  commit = none;
  reason = none;
  heartbeat = none;
  started_at = none;
  finished_at = none;
  failed_at = none;
  run_id = t.run_id;
  template_id = t.template_id;
  reuse_from = t.reuse_from;
  worktree_mode_override = t.worktree_mode_override;
  auto_retry = t.auto_retry;
  max_retries = t.max_retries;
  retry_count = 0;
  issue_url = t.issue_url;
  issue_close_on_done = t.issue_close_on_done;
  issue_synced_state = t.issue_synced_state;
}

cleared-anew : (t : Task) → cleared t ≡ anew t
unfolding cleared
cleared-anew t = refl

-- A reset that was made.
pub record WasReset (c : Contents) (id actor : String) (t : Task) (event : Event) (c' : Contents)
    : Type 0 where
  pub old : Task
  pub held : Holds c id old
  pub restarted : t ≡ anew old
  pub entry : IsEntry t.run id (as_str old.status) (as_str pending) actor event
  pub logged : Logs (with_task c id t) event c'

-- A reset that was not made, or was not logged.
abbrev pub NotReset : Contents → String → StoreError → Contents → Type 0
NotReset c id e c' =
    Untouched c id e c'
    ⊎ ((old : Task) × (m : String) × Holds c id old
        × (e ≡ operation m)
        × (c' ≡ with_task c id (anew old)))

module _ (s : Surreal) (doc : IsDocumented s) where
  appended-Post :
      (c : Contents) (e : NewEvent) (o : Option EventRow) (d : s.Db)
      → AppendsEvent c e o (s.contents d)
      → Post s.contents
          (expect (option_map into_event o) (operation "event insert returned no row") d)
          (λ ev c'. IsEntry e.run e.task e.from e.to e.actor ev × Logs c ev c')
          (Failed c)
  appended-Post c e none d h = ("event insert returned no row", refl, h)
  appended-Post c e (some r) d (run, task, from, to, actor, at, h) = (
    record { same_run = run; same_task = task; same_from = from; same_to = to; same_actor = actor },
    record { row = r; projected = refl; appended = h },
  )

  append_event-Post :
      (run task from to actor : String) (d : s.Db)
      → Post s.contents
          (append_event s run task from to actor d)
          (λ ev c'. IsEntry run task from to actor ev × Logs (s.contents d) ev c')
          (Failed (s.contents d))
  unfolding append_event
  append_event-Post run task from to actor d =
      let e : NewEvent = record {
        run = run;
        task = task;
        from = from;
        to = to;
        actor = actor;
        at = s.now d;
      } in
      bind-Post s.contents (call (s.create_event e))
        (λ o. expect (option_map into_event o) (operation "event insert returned no row")) d
        (AppendsEvent (s.contents d) e) (Failed (s.contents d)) _ _
        (call-Post s.contents (s.create_event e) d _ (doc.create_event_law e d))
        (λ o d' h. appended-Post (s.contents d) e o d' h) (λ e c h. h)

  -- The write and the line of the log, in this order: the log can fail after the write.
  pub write_and_log-Post :
      (id : String) (t : Task) (from to actor : String) (d : s.Db)
      → Post s.contents
          (write_and_log s id t from to actor d)
          (λ r c.
            (r.0 ≡ t)
            × IsEntry t.run id from to actor r.1
            × Logs (with_task (s.contents d) id t) r.1 c)
          (λ e c.
            Untouched (s.contents d) id e c
            ⊎ ((m : String) × (e ≡ operation m) × (c ≡ with_task (s.contents d) id t)))
  unfolding write_and_log
  write_and_log-Post id t from to actor d =
      bind-Post s.contents (write s id t)
        (λ w. append_event s w.run id from to actor >>= λ event. return (w, event)) d
        (λ w c. (w ≡ t) × (c ≡ with_task (s.contents d) id t)) (Untouched (s.contents d) id) _ _
        (write-Post s doc id t d)
        (λ w d' h.
          bind-Post s.contents (append_event s w.run id from to actor) (λ event. return (w, event))
            d' (λ ev c'. IsEntry w.run id from to actor ev × Logs (s.contents d') ev c')
            (Failed (s.contents d')) _ _ (append_event-Post w.run id from to actor d')
            (λ ev d'' g. (h.0, rw h.0 at (g.0), rw h.1 at (g.1)))
            (λ e c g. inr (g.0, g.1, g.2 ∙ h.1)))
        (λ e c h. inl h)

  make_move-Post :
      (id : String) (transition : Transition) (actor : String) (t : Task) (d : s.Db)
      → Holds (s.contents d) id t
      → is_legal t.status transition ≡ true
      → Post s.contents
          (make_move s id transition actor t d)
          (λ r c. Moved (s.contents d) id transition actor r.0 r.1 c)
          (NotMoved (s.contents d) id transition)
  unfolding make_move
  make_move-Post id transition actor t d held legal =
      let t' : Task = moved_task t transition (s.now d) in
      Post_mono s.contents
        (write_and_log s id t' (as_str t.status) (as_str (target transition)) actor d) _ _ _ _
        (write_and_log-Post id t' (as_str t.status) (as_str (target transition)) actor d)
        (λ r c h. record {
          old = t;
          held = held;
          legal = legal;
          at = s.now d;
          moved = h.0;
          entry = rw h.0 (h.1);
          logged = rw h.0 (h.2);
        })
        (λ e c h. elim h [
          | inl same ↦ untouched same
          | inr (m, failed, after) ↦ unlogged t (s.now d) m held legal failed after
        ])

  checked_move-Post :
      (id : String) (transition : Transition) (actor : String) (t : Task) (d : s.Db)
      → Holds (s.contents d) id t
      → Post s.contents
          ((if is_legal t.status transition
              then make_move s id transition actor t
              else throw (illegal_transition id (as_str t.status) (as_str (target transition))))
            d)
          (λ r c. Moved (s.contents d) id transition actor r.0 r.1 c)
          (NotMoved (s.contents d) id transition)
  checked_move-Post id transition actor t d held =
      elim (Bool-cases (is_legal t.status transition)) [
        | inl legal ↦ rw legal (make_move-Post id transition actor t d held legal)
        | inr not_legal ↦ rw not_legal (illegal t held not_legal refl refl)
      ]

  -- A transition is made exactly as the state machine allows: the task gets the target status and
  -- the side data, all other tasks stay, and one event is appended. It fails and leaves everything
  -- where the database fails, the task is missing or the move is illegal; only where the log
  -- fails after the write is the task moved with no event.
  pub transition_task-Post :
      (id : String) (transition : Transition) (actor : String) (d : s.Db)
      → Post s.contents
          (transition_task s id transition actor d)
          (λ r c. Moved (s.contents d) id transition actor r.0 r.1 c)
          (NotMoved (s.contents d) id transition)
  unfolding transition_task
  transition_task-Post id transition actor d =
      bind-Post s.contents (required s id) _ d
        (λ t c. Holds (s.contents d) id t × (c ≡ s.contents d)) (Untouched (s.contents d) id) _ _
        (required-Post s doc id d)
        (λ t d' h. rw (← h.1) (checked_move-Post id transition actor t d' (rw (← h.1) at (h.0))))
        (λ e c h. untouched h)

  reset_held-Post :
      (id actor : String) (t : Task) (d : s.Db)
      → Holds (s.contents d) id t
      → Post s.contents
          (write_and_log s id (cleared t) (as_str t.status) (as_str pending) actor d)
          (λ r c. WasReset (s.contents d) id actor r.0 r.1 c)
          (NotReset (s.contents d) id)
  reset_held-Post id actor t d held =
      Post_mono s.contents
        (write_and_log s id (cleared t) (as_str t.status) (as_str pending) actor d) _ _ _ _
        (write_and_log-Post id (cleared t) (as_str t.status) (as_str pending) actor d)
        (λ r c h. record {
          old = t;
          held = held;
          restarted = h.0 ∙ cleared-anew t;
          entry = rw h.0 (h.1);
          logged = rw h.0 (h.2);
        })
        (λ e c h. elim h [
          | inl same ↦ inl same
          | inr (m, failed, after) ↦
              inr (t, m, held, failed, after ∙ ap (with_task (s.contents d) id) (cleared-anew t))
        ])

  -- A reset works from every status, the terminal ones too: the task is written as pending, with
  -- nothing left of a claim, an outcome or a retry and the rest, its baseline too, as it was, and one event to `pending` is appended. It fails and leaves everything where the database
  -- fails or the task is missing; only where the log fails after the write is the task reset with
  -- no event.
  pub reset_task-Post :
      (id actor : String) (d : s.Db)
      → Post s.contents
          (reset_task s id actor d)
          (λ r c. WasReset (s.contents d) id actor r.0 r.1 c)
          (NotReset (s.contents d) id)
  unfolding reset_task
  reset_task-Post id actor d =
      bind-Post s.contents (required s id)
        (λ task. write_and_log s id (cleared task) (as_str task.status) (as_str pending) actor) d
        (λ t c. Holds (s.contents d) id t × (c ≡ s.contents d)) (Untouched (s.contents d) id) _ _
        (required-Post s doc id d)
        (λ t d' h. rw (← h.1) (reset_held-Post id actor t d' (rw (← h.1) at (h.0))))
        (λ e c h. inl h)
