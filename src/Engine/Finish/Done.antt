-- ===== src/Engine/Finish/Done.antt =====
-- A task is reported done only after a green gate, the extensions' consent and a landing.
use lazybones.Prelude.{
  String, ◌≡◌, refl, sym, subst, ap, ◌∙◌, inl, inr, true, Option, none, some, List, [], ◌∷◌, ◌++◌,
  Outcome, ok, err, unwrap_or, if◌then◌else◌,
}
use lazybones.Store.Error.{StoreError}
use lazybones.Store.Task.Model.{Task}
use lazybones.Engine.Config.{EngineConfig}
use lazybones.Engine.Effective.{EffectiveGit}
use lazybones.Engine.Commands.{sh, Output, gate_check, GateDecision, pass, block as refuse}
use lazybones.Engine.Program.{Program, ◌>>=◌}
use lazybones.Engine.Program.Obeys.{Protocol, Obeys, bind-Obeys}
use lazybones.Engine.Program.Within.{Within, Within-Obeys}
use lazybones.Engine.Landing.{commit_worktree, land}
use lazybones.Engine.Landing.Footprint.{IsGit, commit_worktree-Within}
use lazybones.Engine.Gate as Gate
use lazybones.Engine.Gate.{GateOutcome, green, red}
use lazybones.Engine.Gate.Passes.{Passed, run-Obeys}
use lazybones.Engine.Gate.Preflight.{Preflight, fits, fixed, unfixable, check}
use lazybones.Engine.Gate.Preflight.Rewrites.{Fits, Fitted, check-Obeys}
use lazybones.Engine.Worktree.{teardown}
use lazybones.Engine.Finish.{
  gate_and_land, after_preflight, after_gate, after_check, land_unless, finish_landed, close,
  progress_in, workflow_progress, reason_after_commit, back_up,
}
use lazybones.Engine.Finish.Green.{
  Seen, unseen, IsReady, done_when_green, Anyhow, git_allowed, block-Obeys, reads_allowed, p,
}
use lazybones.Engine.Finish.Work.{reason-Within, back_up-Within, teardown-Within, Lands, land-Obeys}

module _ (task : Task) (eff : EffectiveGit) (cfg : EngineConfig) where
  abbrev q : Protocol
  q = p task eff

  -- Commands of `git` keep the work ready.
  abbrev git_keep :
      {A : Type 0} (m : Program A) (s : Seen)
      → IsReady eff.gate s
      → Within IsGit m
      → Obeys q m s (λ _ t. IsReady eff.gate t)
  git_keep m s h w = Within-Obeys IsGit q (IsReady eff.gate) (git_allowed task eff) m s h w

  close-Obeys :
      (answer : Outcome StoreError Task) (s : Seen)
      → IsReady eff.gate s
      → Obeys q (close cfg eff task answer) s Anyhow
  unfolding close
  close-Obeys (err e) s h = tt
  close-Obeys (ok finished) s h = (
    tt,
    λ x.
        bind-Obeys q (teardown task eff cfg) _ s (λ _ t. IsReady eff.gate t) Anyhow
          (git_keep (teardown task eff cfg) s h (teardown-Within task eff cfg)) (λ _ t h'. tt),
  )

  progress-Obeys :
      (run_id : Option String) (s : Seen)
      → IsReady eff.gate s
      → Obeys q (progress_in run_id) s (λ _ t. IsReady eff.gate t)
  progress-Obeys none s h = h
  progress-Obeys (some run_id) s h = (tt, λ tasks. h)

  module _ (to_lowercase : String → String) where
    finish-Obeys :
        (landed : Outcome String String) (s : Seen)
        → Lands task eff landed s
        → Obeys q (finish_landed to_lowercase cfg eff task landed) s Anyhow
    unfolding finish_landed
    finish-Obeys (err e) s h = block-Obeys task eff to_lowercase _ _ s
    finish-Obeys (ok commit) s h = ((refl, h), λ answer. close-Obeys answer s h.0)

    land_unless-Obeys :
        (worktree : String) (reason : Option String) (s : Seen)
        → IsReady eff.gate s
        → Obeys q (land_unless to_lowercase cfg eff task worktree reason) s Anyhow
    unfolding land_unless
    land_unless-Obeys worktree (some reason) s h = block-Obeys task eff to_lowercase _ _ s
    land_unless-Obeys worktree none s h =
        bind-Obeys q (back_up worktree cfg.remote task.branch) _ s (λ _ t. IsReady eff.gate t)
          Anyhow
          (git_keep (back_up worktree cfg.remote task.branch) s h
            (back_up-Within worktree cfg.remote task.branch))
          (λ _ t h'.
            bind-Obeys q (land task eff cfg) _ t (Lands task eff) Anyhow
              (land-Obeys task eff cfg t h') finish-Obeys)

    after_check-Obeys :
        (worktree : String) (decision : GateDecision) (s : Seen)
        → (decision ≡ pass → IsReady eff.gate s)
        → Obeys q (after_check to_lowercase cfg eff task worktree decision) s Anyhow
    unfolding after_check workflow_progress
    after_check-Obeys worktree (refuse reason) s h = block-Obeys task eff to_lowercase _ _ s
    after_check-Obeys worktree pass s h =
        bind-Obeys q (progress_in task.run_id) _ s (λ _ t. IsReady eff.gate t) Anyhow
          (progress-Obeys task.run_id s (h refl))
          (λ progress t h'.
            bind-Obeys q (commit_worktree worktree task progress) _ t (λ _ t'. IsReady eff.gate t')
              Anyhow
              (git_keep (commit_worktree worktree task progress) t h'
                (commit_worktree-Within worktree task progress))
              (λ committed t' h''.
                bind-Obeys q (reason_after_commit worktree eff task committed) _ t'
                  (λ _ t3. IsReady eff.gate t3) Anyhow
                  (git_keep (reason_after_commit worktree eff task committed) t' h''
                    (reason-Within worktree eff task committed))
                  (land_unless-Obeys worktree)))

    -- The commands of the gate that exited zero.
    abbrev Ran : List String → Seen → Type 0
    Ran done s = s.ran ≡ done

    abbrev tree : String
    tree = unwrap_or task.worktree ""

    counts :
        (cmd : String) (done : List String) (s : Seen)
        → Ran done s
        → q.Allows s (sh tree cmd)
          × ((out : Output)
              → out.success ≡ true
              → Ran (done ++ cmd ∷ []) (q.after s (sh tree cmd) (ok out)))
    counts cmd done s e = (
      refl,
      λ out good.
          ap (λ b. (if b then record s { ran = s.ran ++ cmd ∷ [] } else s).ran) good
          ∙ ap (λ r. r ++ cmd ∷ []) e,
    )

    after_gate-Obeys :
        (commands : List String)
        → Fits eff.gate commands
        → (outcome : Outcome String GateOutcome) (s : Seen)
        → Passed q tree Ran counts commands outcome s
        → Obeys q (after_gate to_lowercase cfg eff task tree outcome) s Anyhow
    unfolding after_gate
    after_gate-Obeys commands f (err e) s h = block-Obeys task eff to_lowercase _ _ s
    after_gate-Obeys commands f (ok (red reason)) s h = block-Obeys task eff to_lowercase _ _ s
    after_gate-Obeys commands f (ok green) s h =
        let f' : Fits eff.gate s.ran = subst (Fits eff.gate) (sym h) f in
        (
          (refl, f'),
          λ decision. after_check-Obeys tree decision _ (λ same.
              subst (λ d. IsReady eff.gate (q.after s (gate_check task tree) d)) (sym same)
                (f', refl)),
        )

    gated-Obeys :
        (commands : List String)
        → Fits eff.gate commands
        → (s : Seen) → s ≡ unseen
        → Obeys q (Gate.run tree commands >>= after_gate to_lowercase cfg eff task tree) s Anyhow
    gated-Obeys commands f s e =
        bind-Obeys q (Gate.run tree commands) _ s (Passed q tree Ran counts commands) Anyhow
          (run-Obeys q tree Ran counts commands s (ap (λ t. t.ran) e)) (after_gate-Obeys commands f)

    after_preflight-Obeys :
        (preflight : Preflight) (s : Seen)
        → (s ≡ unseen) × Fitted eff.gate preflight
        → Obeys q (after_preflight to_lowercase cfg eff task tree preflight) s Anyhow
    unfolding after_preflight
    after_preflight-Obeys fits s (e, fitted) = gated-Obeys eff.gate (inl refl) s e
    after_preflight-Obeys (fixed gate note) s (e, fitted) = gated-Obeys gate (inr fitted) s e
    after_preflight-Obeys (unfixable reason) s h = block-Obeys task eff to_lowercase _ _ s

-- Whatever the world answers: the commands of the gate are run in the tree of the task, the
-- extensions are asked once these, or these fitted to a list of crates that is not empty, have all
-- exited zero in their order, and the task is reported done only after the extensions let it pass too,
-- with the commit that `git` named last. No other task is moved or revived, and the transitions that
-- are asked for the task are its finish and its block; besides them it may be revived with guidance.
pub gate_and_land-Obeys :
    (to_lowercase : String → String) (cfg : EngineConfig) (eff : EffectiveGit) (task : Task)
    → Obeys (done_when_green task eff) (gate_and_land to_lowercase cfg eff task) unseen Anyhow
unfolding gate_and_land
gate_and_land-Obeys to_lowercase cfg eff task =
    bind-Obeys (p task eff) (check (unwrap_or task.worktree "") eff.gate) _ unseen
      (λ preflight s. (s ≡ unseen) × Fitted eff.gate preflight) Anyhow
      (check-Obeys (p task eff) unseen (reads_allowed task eff) (unwrap_or task.worktree "")
        eff.gate)
      (after_preflight-Obeys task eff cfg to_lowercase)
