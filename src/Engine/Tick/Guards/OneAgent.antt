-- ===== src/Engine/Tick/Guards/OneAgent.antt =====
-- crates/lazybones-engine/src/scheduler/tick.rs, claim_and_spawn: one agent at most is started for
-- a task, behind the guards of its run.
use lazybones.Prelude.{
  String, ◌≡◌, refl, sym, subst, ap, inl, inr, false, Option, none, some, List, Outcome, ok, err,
  by_test, ◌≢◌, ◌⊎◌, All, Bool-cases, Option-cases, contains, eq_iff, arith, not, [], ◌∷◌,
}
use lazybones.Store.Task.WorktreeMode.{WorktreeMode, mode_eq}
use lazybones.Store.Run.Lifecycle.{Lifecycle, lifecycle_eq, active, stopped}
use lazybones.Store.Error.{StoreError}
use lazybones.Store.Task.Model.{Task}
use lazybones.Store.Task.Transition as Intent
use lazybones.Store.Task.Transition.{Transition}
use lazybones.Store.Run.Model.{Run}
use lazybones.Engine.Config.{EngineConfig}
use lazybones.Engine.Effective.{EffectiveGit, resolve}
use lazybones.Engine.Claims.{is_busy, is_skipped, is_held_back, resolve_base_commit}
use lazybones.Engine.Commands.{Command}
use lazybones.Engine.Program.Obeys.{Protocol, Obeys, bind-Obeys}
use lazybones.Engine.Program.Within.{Within-mono}
use lazybones.Engine.Program.Quiet.{Quiet, Quiet-Obeys}
use lazybones.Engine.Block.Footprint.{IsBlocking, block-Within}
use lazybones.Engine.Block.{block}
use lazybones.Engine.Program.{Program, return, ◌>>=◌}
use lazybones.Engine.Worktree.{Provisioned, provision}
use lazybones.Engine.Worktree.Footprint.{HasTreeWork, provision-Within}
use lazybones.Engine.Finish.{spawn_resume}
use lazybones.Engine.Tick.{
  Cache, Claiming, read_run, run_of, resolve_reuse, give_up, after_claim, after_spawn,
  after_provision, after_reuse, claim_in, claim_one, mark, actor, head_of, run_for,
}
use lazybones.Engine.Tick.Footprint.{resolve_reuse-Within}
use lazybones.Engine.Tick.Guards.{
  IsActive, IsFree, Progress, fresh, known, unclaimed, after_start, after_move, claims_one,
  IsMarked, Marked,
}

lifecycle_active : (l : Lifecycle) → not (lifecycle_eq l active) ≡ false → l ≡ active
unfolding lifecycle_eq
lifecycle_active active h = refl
lifecycle_active stopped h = ground arith

passed-IsActive : (run : Option Run) → is_skipped run ≡ false → IsActive run
unfolding is_skipped
passed-IsActive none h = tt
passed-IsActive (some r) h = (
  lifecycle_active r.lifecycle (ground arith),
  elim (Option-cases r.started_at) [ inl absent ↦ ground arith | inr started ↦ started ],
)

contains-All :
    (busy : List String) (run_id : String)
    → contains busy run_id ≡ false
    → All (λ other. other ≢ run_id) busy
contains-All [] run_id h = tt
contains-All (b ∷ busy) run_id h =
    (λ same. ground (arith, eq_iff b run_id), contains-All busy run_id (ground arith))

busy-IsFree :
    (busy : List String) (run_id : Option String) → is_busy busy run_id ≡ false → IsFree busy run_id
busy-IsFree busy none h = tt
busy-IsFree busy (some run_id) h = contains-All busy run_id h

not_shared :
    (mode : WorktreeMode) → mode_eq mode WorktreeMode.shared ≡ false → mode ≢ WorktreeMode.shared
unfolding mode_eq
not_shared WorktreeMode.shared h e = ground arith
not_shared _ h e = ground arith

passed-IsFree :
    (eff : EffectiveGit) (task : Task) (busy : List String)
    → is_held_back eff task busy ≡ false
    → (eff.worktree_mode ≢ WorktreeMode.shared) ⊎ IsFree busy task.run_id
unfolding is_held_back
passed-IsFree eff task busy h = elim (Bool-cases (mode_eq eff.worktree_mode WorktreeMode.shared)) [
  | inl shared ↦ inr (busy-IsFree busy task.run_id (ground arith))
  | inr other ↦ inl (not_shared eff.worktree_mode other)
]

module _ (to_lowercase : String → String) (cfg : EngineConfig) (task : Task)
    (busy : List String) where
  abbrev p : Protocol
  p = claims_one cfg task busy

  -- The tasks that are busy, as they stand in what the pass keeps.
  abbrev Ends : Claiming → Progress → Type 0
  Ends st' s = IsMarked busy s.claimed st'.busy_shared_runs

  tree-Quiet : HasTreeWork (Quiet p)
  tree-Quiet = record {
    has_git = λ r a s. (tt, λ x. refl);
    has_is_dir = λ path s. (tt, λ x. refl);
    has_exists = λ path s. (tt, λ x. refl);
    has_create = λ path s. (tt, λ x. refl);
    has_write = λ path c s. (tt, λ x. refl);
    has_trust = λ path s. (tt, λ x. refl);
  }

  blocking-Quiet : (c : Command) → IsBlocking task.id c → Quiet p c
  blocking-Quiet c (inl (entry, e)) = subst (Quiet p) (sym e) (λ s. (tt, λ x. refl))
  blocking-Quiet c (inr (inl (reason, by, e))) =
      subst (Quiet p) (sym e) (λ s. ((refl, tt), λ x. refl))
  blocking-Quiet c (inr (inr (guide, by, e))) = subst (Quiet p) (sym e) (λ s. (refl, λ x. refl))

  give_up-Obeys :
      (reason : String) (st : Claiming) (s : Progress)
      → Ends st s
      → Obeys p (give_up to_lowercase cfg task reason st) s Ends
  unfolding give_up
  give_up-Obeys reason st s h =
      bind-Obeys p (block to_lowercase task reason actor) (λ _. return st) s (λ _ t. t ≡ s) Ends
        (Quiet-Obeys p (block to_lowercase task reason actor) s (
          Within-mono (IsBlocking task.id) (Quiet p) blocking-Quiet
            (block to_lowercase task reason actor) (block-Within to_lowercase task reason actor)))
        (λ _ t e. subst (Ends st) (sym e) h)

  read_run-Obeys :
      (run_id : String) (cache : Cache) (cached : Option (Option Run))
      → some run_id ≡ task.run_id
      → Obeys p (read_run run_id cache cached) (fresh cached) (λ found s. s ≡ fresh (some found.0))
  read_run-Obeys run_id cache (some cached) e = refl
  read_run-Obeys run_id cache none e = (e, λ answer. refl)

  run_of-Obeys :
      (run_id : Option String) (cache : Cache)
      → run_id ≡ task.run_id
      → Obeys p
          (run_of run_id cache)
          (fresh (known run_id cache))
          (λ found s. s ≡ fresh (some found.0))
  run_of-Obeys none cache e = refl
  run_of-Obeys (some run_id) cache e = read_run-Obeys run_id cache (cache run_id) e

  -- An agent was started, and then the task was claimed for it.
  abbrev started : Option Run → (session : String) → Progress
  started run session = record { run = some run; session = some session; claimed = none }

  abbrev taken : Option Run → (session : String) → Task → Progress
  taken run session t = record { run = some run; session = some session; claimed = some t }

  drive-Obeys :
      (eff : EffectiveGit) (run : Option Run) (session : String) (t : Task)
      → Obeys p (spawn_resume eff t) (taken run session t) (λ _ s. s ≡ taken run session t)
  unfolding spawn_resume
  drive-Obeys eff run session t = (
    (t, refl, refl),
    λ inserted.
        by_test
          (λ (m : Program (Unit {0})).
            Obeys p m (taken run session t) (λ _ s. s ≡ taken run session t))
          inserted (λ _. (refl, λ x. refl)) (λ _. refl),
  )

  after_claim-Obeys :
      (eff : EffectiveGit) (st : Claiming) (run : Option Run) (session worktree branch : String)
      (base : Option String) (answer : Outcome StoreError Task)
      → st.busy_shared_runs ≡ busy
      → Obeys p
          (after_claim to_lowercase cfg eff st answer)
          (after_move (started run session) (Intent.claim session worktree branch base) answer)
          Ends
  unfolding after_claim
  after_claim-Obeys eff st run session worktree branch base (err e) h = h
  after_claim-Obeys eff st run session worktree branch base (ok t) h =
      bind-Obeys p (spawn_resume eff t) _ (taken run session t) (λ _ s. s ≡ taken run session t)
        Ends (drive-Obeys eff run session t)
        (λ _ s e.
          subst (Ends (record st { busy_shared_runs = mark t.run_id st.busy_shared_runs })) (sym e)
            (ap (mark t.run_id) h))

  after_spawn-Obeys :
      (eff : EffectiveGit) (tree : Provisioned) (st : Claiming) (run : Option Run)
      (session : Outcome String String)
      → st.busy_shared_runs ≡ busy
      → Obeys p
          (after_spawn to_lowercase cfg eff task tree st session)
          (after_start (fresh (some run)) session)
          Ends
  unfolding after_spawn
  after_spawn-Obeys eff tree st run (err e) h = give_up-Obeys _ st (fresh (some run)) h
  after_spawn-Obeys eff tree st run (ok session) h = (
    tt,
    λ head. (
      (refl, refl),
      λ answer.
          after_claim-Obeys eff st run session tree.worktree tree.branch
            (resolve_base_commit tree.reused task.base_commit (head_of head)) answer h,
    ),
  )

  -- The guards have let the task pass.
  module _ (run : Option Run) (goes : is_skipped run ≡ false)
      (free : is_held_back (resolve task run cfg) task busy ≡ false) where
    abbrev eff : EffectiveGit
    eff = resolve task run cfg

    after_provision-Obeys :
        (st : Claiming) (tree : Outcome String Provisioned)
        → st.busy_shared_runs ≡ busy
        → Obeys p (after_provision to_lowercase cfg eff task st tree) (fresh (some run)) Ends
    unfolding after_provision
    after_provision-Obeys st (err e) h = give_up-Obeys _ st (fresh (some run)) h
    after_provision-Obeys st (ok tree) h = (
      tt,
      λ history. (
        (refl, refl, (passed-IsActive run goes, passed-IsFree eff task busy free, refl)),
        λ session. after_spawn-Obeys eff tree st run session h,
      ),
    )

    after_reuse-Obeys :
        (st : Claiming) (reuse : Outcome String (Option String))
        → st.busy_shared_runs ≡ busy
        → Obeys p (after_reuse to_lowercase cfg eff task st reuse) (fresh (some run)) Ends
    unfolding after_reuse
    after_reuse-Obeys st (err reason) h = give_up-Obeys _ st (fresh (some run)) h
    after_reuse-Obeys st (ok reuse_path) h =
        bind-Obeys p (provision task eff cfg reuse_path) _ (fresh (some run))
          (λ _ t. t ≡ fresh (some run)) Ends
          (Quiet-Obeys p (provision task eff cfg reuse_path) (fresh (some run))
            (provision-Within (Quiet p) tree-Quiet task eff cfg reuse_path))
          (λ tree t e.
            subst (λ t'. Obeys p (after_provision to_lowercase cfg eff task st tree) t' Ends)
              (sym e) (after_provision-Obeys st tree h))

    passed-Obeys :
        (st : Claiming)
        → st.busy_shared_runs ≡ busy
        → Obeys p
            (resolve_reuse task eff >>= after_reuse to_lowercase cfg eff task st)
            (fresh (some run))
            Ends
    passed-Obeys st h =
        bind-Obeys p (resolve_reuse task eff) _ (fresh (some run)) (λ _ t. t ≡ fresh (some run))
          Ends
          (Quiet-Obeys p (resolve_reuse task eff) (fresh (some run))
            (resolve_reuse-Within (Quiet p) task eff (λ i s. (tt, λ x. refl))))
          (λ reuse t e.
            subst (λ t'. Obeys p (after_reuse to_lowercase cfg eff task st reuse) t' Ends) (sym e)
              (after_reuse-Obeys st reuse h))

  claim_in-Obeys :
      (st : Claiming) (run : Option Run)
      → st.busy_shared_runs ≡ busy
      → Obeys p (claim_in to_lowercase cfg task st run) (fresh (some run)) Ends
  unfolding claim_in
  claim_in-Obeys st run h =
      by_test (λ m. Obeys p m (fresh (some run)) Ends) (is_skipped run) (λ _. h)
        (λ goes.
          by_test (λ m. Obeys p m (fresh (some run)) Ends)
            (is_held_back (resolve task run cfg) task st.busy_shared_runs) (λ _. h)
            (λ free.
              passed-Obeys run goes
                (subst (λ b. is_held_back (resolve task run cfg) task b ≡ false) h free) st h))

abbrev kept : Cache → Claiming → Claiming
kept cache st = record st { runs = cache }

pub claim_one-Obeys :
    (to_lowercase : String → String) (cfg : EngineConfig) (task : Task) (st : Claiming)
    → Obeys
        (claims_one cfg task st.busy_shared_runs)
        (claim_one to_lowercase cfg st task)
        (unclaimed task st)
        (λ st' s. Marked st st' s)
unfolding claim_one run_for
claim_one-Obeys to_lowercase cfg task st =
    let q = claims_one cfg task st.busy_shared_runs in
    bind-Obeys q (run_of task.run_id st.runs) _ (unclaimed task st)
      (λ found s. s ≡ fresh (some found.0)) (λ st' s. Marked st st' s)
      (run_of-Obeys to_lowercase cfg task st.busy_shared_runs task.run_id st.runs refl)
      (λ found s e.
        subst
          (λ t.
            Obeys q (claim_in to_lowercase cfg task (kept found.1 st) found.0) t
              (λ st' s'. Marked st st' s'))
          (sym e)
          (claim_in-Obeys to_lowercase cfg task st.busy_shared_runs (kept found.1 st) found.0 refl))
