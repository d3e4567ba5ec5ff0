-- ===== src/Store/Run/Verbs/Changes.antt =====
-- The verbs that change a run, as one command each.
use lazybones.Prelude.{
  ℕ, String, Option, none, some, ◌≡◌, refl, sym, ◌∙◌, ◌⊎◌, inl, inr, true, false, ap, arith,
  Option-cases, Bool-cases, ◌+◌, ◌-◌, is_some, unwrap_or,
}
use lazybones.Store.Surreal.{Surreal, IsDocumented, Contents, Verb, ◌>>=◌}
use lazybones.Store.Run.Lifecycle.{active, stopped}
use lazybones.Store.Run.Model.{Run, Workspace}
use lazybones.Store.Verbs.Post.{Post, Post_mono, bind-Post}
use lazybones.Store.Run.Verbs.{
  required_run, write_run, set_lifecycle, stop_run, resume_run, mark_started, clear_started,
  set_pr_url, update_workspace, advance_hcom_cursor, with_lifecycle, unstarted, with_pr_url,
  with_workspace, furthest, is_cursor,
}
use lazybones.Store.Run.Verbs.Post.{
  HoldsRun, UntouchedRun, stored, with_run, required_run-Post, write_run-Post,
}

pub data RunCommand : Type 0 where
  stop resume clear : RunCommand
  start : (now : String) → RunCommand
  open_pr : (url : String) → RunCommand
  rebase : Workspace → RunCommand
  advance : (cursor : ℕ) → RunCommand

-- The verb of a command.
unfoldable pub perform : (s : Surreal) → String → RunCommand → Verb s.Db Run
perform s id stop = stop_run s id
perform s id resume = resume_run s id
perform s id clear = clear_started s id
perform s id (start now) = mark_started s id now
perform s id (open_pr url) = set_pr_url s id url
perform s id (rebase workspace) = update_workspace s id workspace
perform s id (advance cursor) = advance_hcom_cursor s id cursor

-- The larger of the cursor that a run has, if it has one, and another.
abbrev later : Option ℕ → ℕ → ℕ
later none cursor = cursor
later (some cur) cursor = cur + (cursor - cur)

-- What a command makes of a run.
unfoldable pub commanded : RunCommand → Run → Run
commanded stop run = record run { lifecycle = stopped }
commanded resume run = record run { lifecycle = active }
commanded clear run = record run { started_at = none; lifecycle = active; pr_url = none }
commanded (start now) run = record run { started_at = some (unwrap_or run.started_at now) }
commanded (open_pr url) run = record run { pr_url = some url }
commanded (rebase workspace) run = record run {
  workspace = record workspace { repo = run.workspace.repo };
}
commanded (advance cursor) run = record run {
  hcom_log_cursor = some (later run.hcom_log_cursor cursor);
}

-- The command's effect was written, or was none.
abbrev pub Commanded : Contents → String → RunCommand → Run → Contents → Type 0
Commanded c id command r c' =
    (old : Run) × HoldsRun c id old
    × (((r ≡ stored (commanded command old)) × (c' ≡ with_run c id (commanded command old)))
        ⊎ ((commanded command old ≡ old) × (r ≡ old) × (c' ≡ c)))

unwrap_or-none : (o : Option String) (now : String) → is_some o ≡ false → now ≡ unwrap_or o now
unwrap_or-none none now h = refl
unwrap_or-none (some at) now h = absurd (cc)

started-same :
    (run : Run) (now : String) → is_some run.started_at ≡ true → commanded (start now) run ≡ run
unfolding commanded
started-same run now h = elim (Option-cases run.started_at) [
  | inl absent ↦ absurd (ground arith)
  | inr (at, held) ↦ ap (λ x. record run { started_at = x }) (rw held)
]

started-fresh :
    (run : Run) (now : String)
    → is_some run.started_at ≡ false
    → record run { started_at = some now } ≡ commanded (start now) run
unfolding commanded
started-fresh run now h =
    ap (λ x. record run { started_at = some x }) (unwrap_or-none run.started_at now h)

furthest-later : (o : Option ℕ) (cursor : ℕ) → furthest o cursor ≡ later o cursor
unfolding furthest
furthest-later none cursor = refl
furthest-later (some cur) cursor = ground arith

cursor-same : (o : Option ℕ) (next : ℕ) → is_cursor o next ≡ true → some next ≡ o
cursor-same none next h = absurd (cc)
cursor-same (some cur) next h = ground arith

module _ (s : Surreal) (doc : IsDocumented s) where
  written-Commanded :
      (id : String) (command : RunCommand) (r old : Run) (d d' : s.Db)
      → HoldsRun (s.contents d) id old
      → r ≡ commanded command old
      → s.contents d' ≡ s.contents d
      → Post s.contents
          (write_run s id r d')
          (Commanded (s.contents d) id command)
          (UntouchedRun (s.contents d) id)
  written-Commanded id command r old d d' held e same =
      Post_mono s.contents (write_run s id r d') _ _ _ _ (rw same at (write_run-Post s doc id r d'))
        (λ r' c h. (old, held, inl (h.0 ∙ ap stored e, h.1 ∙ ap (with_run (s.contents d) id) e)))
        (λ e c h. h)

  changed-Commanded :
      (id : String) (command : RunCommand) (f : Run → Verb s.Db Run) (d : s.Db)
      → ((old : Run) (d' : s.Db)
          → HoldsRun (s.contents d) id old
          → s.contents d' ≡ s.contents d
          → Post s.contents
              (f old d')
              (Commanded (s.contents d) id command)
              (UntouchedRun (s.contents d) id))
      → Post s.contents
          ((required_run s id >>= f) d)
          (Commanded (s.contents d) id command)
          (UntouchedRun (s.contents d) id)
  changed-Commanded id command f d k =
      bind-Post s.contents (required_run s id) f d
        (λ r c. HoldsRun (s.contents d) id r × (c ≡ s.contents d)) (UntouchedRun (s.contents d) id)
        _ _ (required_run-Post s doc id d) (λ old d' h. k old d' h.0 h.1) (λ e c h. h)

  -- Each verb that changes a run answers the run with the effect of its command, as it is read
  -- back, and writes it; where the command changes nothing it answers the stored run. A failure
  -- leaves all tables, and only a missing run fails otherwise than in the database.
  pub perform-Post :
      (id : String) (command : RunCommand) (d : s.Db)
      → Post s.contents
          (perform s id command d)
          (Commanded (s.contents d) id command)
          (UntouchedRun (s.contents d) id)
  unfolding perform commanded stop_run resume_run set_lifecycle clear_started mark_started
      set_pr_url update_workspace advance_hcom_cursor with_lifecycle unstarted with_pr_url
      with_workspace
  perform-Post id stop d =
      changed-Commanded id stop _ d λ old d' h e. written-Commanded id stop _ old d d' h refl e
  perform-Post id resume d =
      changed-Commanded id resume _ d λ old d' h e. written-Commanded id resume _ old d d' h refl e
  perform-Post id clear d =
      changed-Commanded id clear _ d λ old d' h e. written-Commanded id clear _ old d d' h refl e
  perform-Post id (open_pr url) d =
      changed-Commanded id (open_pr url) _ d
        λ old d' h e. written-Commanded id (open_pr url) _ old d d' h refl e
  perform-Post id (rebase workspace) d =
      changed-Commanded id (rebase workspace) _ d
        λ old d' h e. written-Commanded id (rebase workspace) _ old d d' h refl e
  perform-Post id (start now) d = changed-Commanded id (start now) _ d λ old d' h e.
      elim (Bool-cases (is_some old.started_at)) [
        | inl same ↦ rw same ((old, h, inr (started-same old now same, refl, e)))
        | inr absent ↦ rw absent (
            written-Commanded id (start now) (record old { started_at = some now }) old d d' h
              (started-fresh old now absent) e)
      ]
  perform-Post id (advance cursor) d = changed-Commanded id (advance cursor) _ d λ old d' h e.
      let next = furthest old.hcom_log_cursor cursor in
      elim (Bool-cases (is_cursor old.hcom_log_cursor next)) [
        | inl same ↦ rw same (
            (
              old,
              h,
              inr (
                ap (λ x. record old { hcom_log_cursor = x })
                    (ap some (sym (furthest-later old.hcom_log_cursor cursor))
                      ∙ cursor-same old.hcom_log_cursor next same),
                refl,
                e,
              ),
            ))
        | inr moved ↦ rw moved (
            written-Commanded id (advance cursor) _ old d d' h
              (ap (λ n. record old { hcom_log_cursor = some n })
                (furthest-later old.hcom_log_cursor cursor))
              e)
      ]
