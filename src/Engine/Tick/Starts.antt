-- ===== src/Engine/Tick/Starts.antt =====
-- A pass of claims starts no more agents than the running and gating tasks leave room for.
use lazybones.Prelude.{
  ℕ, suc, ◌+◌, ◌≤◌, String, ◌≡◌, refl, sym, subst, false, Option, none, some, List, [], ◌∷◌,
  Outcome, ok, err, by_test, arith, take, length, length-take_le, nat_eq,
}
use lazybones.Store.Error.{StoreError}
use lazybones.Store.Task.Status.{Status}
use lazybones.Store.Task.Model.{Task}
use lazybones.Store.Run.Model.{Run}
use lazybones.Engine.Config.{EngineConfig}
use lazybones.Engine.Effective.{EffectiveGit, resolve}
use lazybones.Engine.Fair.{fair_order}
use lazybones.Engine.Claims.{budget, busy_of, is_skipped, is_held_back}
use lazybones.Engine.Program.{Program, stop, fold, ◌>>=◌, ◌>>◌}
use lazybones.Engine.Program.Obeys.{Protocol, Obeys, bind-Obeys}
use lazybones.Engine.Program.Within.{Within}
use lazybones.Engine.Worktree.{Provisioned, provision}
use lazybones.Engine.Worktree.Footprint.{provision-Within}
use lazybones.Engine.Tick.{
  Claiming, run_of, run_for, resolve_reuse, give_up, after_spawn, after_provision, after_reuse,
  claim_in, claim_one, claim_within, claim_ready, claim_budget, claim_and_spawn, or_empty,
  budget_with, budget_after, query_budget, no_runs,
}
use lazybones.Engine.Tick.Footprint.{
  give_up-Within, run_of-Within, resolve_reuse-Within, after_claim-Within,
}
use lazybones.Engine.Tick.Room.{
  Slots, nothing_known, HasRoom, starts_within, IsQuiet, counted, quiet-Obeys, tree-IsQuiet,
  blocking-IsQuiet, fewer, room_for_one, one_less, slots_within,
}

module _ (cfg : EngineConfig) where
  abbrev p : Protocol
  p = starts_within cfg

  module _ (to_lowercase : String → String) where
    -- The room after one task: one agent fewer at the most.
    abbrev Leaves : ℕ → Claiming → Slots → Type 0
    Leaves n st s = HasRoom cfg n s

    give_up-IsQuiet :
        (task : Task) (reason : String) (st : Claiming)
        → Within (IsQuiet cfg) (give_up to_lowercase cfg task reason st)
    give_up-IsQuiet task reason st =
        give_up-Within (IsQuiet cfg) to_lowercase cfg task reason st (blocking-IsQuiet cfg task.id)

    after_spawn-IsQuiet :
        (eff : EffectiveGit) (task : Task) (tree : Provisioned) (st : Claiming)
        (session : Outcome String String)
        → Within (IsQuiet cfg) (after_spawn to_lowercase cfg eff task tree st session)
    unfolding after_spawn
    after_spawn-IsQuiet eff task tree st (err e) = give_up-IsQuiet task _ st
    after_spawn-IsQuiet eff task tree st (ok session) = (
      (λ s. (tt, λ x. refl)),
      λ head. (
        (λ s. (tt, λ x. refl)),
        λ answer.
            after_claim-Within (IsQuiet cfg) to_lowercase cfg eff st answer
              (λ claimed e. ((λ s. (tt, λ x. refl)), (λ s. (tt, λ x. refl)))),
      ),
    )

    after_provision-Obeys :
        (eff : EffectiveGit) (task : Task) (st : Claiming) (tree : Outcome String Provisioned)
        (n : ℕ) (s : Slots)
        → HasRoom cfg (suc n) s
        → Obeys p (after_provision to_lowercase cfg eff task st tree) s (Leaves n)
    unfolding after_provision
    after_provision-Obeys eff task st (err e) n s h =
        quiet-Obeys cfg n (give_up to_lowercase cfg task _ st) s (fewer cfg n s h)
          (give_up-IsQuiet task _ st)
    after_provision-Obeys eff task st (ok tree) n s h = (
      tt,
      λ history. (
        room_for_one cfg n s h,
        λ session.
            quiet-Obeys cfg n (after_spawn to_lowercase cfg eff task tree st session) _
              (one_less cfg n s h) (after_spawn-IsQuiet eff task tree st session),
      ),
    )

    after_reuse-Obeys :
        (eff : EffectiveGit) (task : Task) (st : Claiming) (reuse : Outcome String (Option String))
        (n : ℕ) (s : Slots)
        → HasRoom cfg (suc n) s
        → Obeys p (after_reuse to_lowercase cfg eff task st reuse) s (Leaves n)
    unfolding after_reuse
    after_reuse-Obeys eff task st (err reason) n s h =
        quiet-Obeys cfg n (give_up to_lowercase cfg task reason st) s (fewer cfg n s h)
          (give_up-IsQuiet task reason st)
    after_reuse-Obeys eff task st (ok reuse_path) n s h =
        bind-Obeys p (provision task eff cfg reuse_path) _ s (λ _ t. HasRoom cfg (suc n) t)
          (Leaves n)
          (quiet-Obeys cfg (suc n) (provision task eff cfg reuse_path) s h
            (provision-Within (IsQuiet cfg) (tree-IsQuiet cfg) task eff cfg reuse_path))
          (λ tree t room. after_provision-Obeys eff task st tree n t room)

    claim_in-Obeys :
        (task : Task) (st : Claiming) (run : Option Run) (n : ℕ) (s : Slots)
        → HasRoom cfg (suc n) s
        → Obeys p (claim_in to_lowercase cfg task st run) s (Leaves n)
    unfolding claim_in
    claim_in-Obeys task st run n s h =
        by_test (λ m. Obeys p m s (Leaves n)) (is_skipped run) (λ _. fewer cfg n s h)
          (λ _.
            by_test (λ m. Obeys p m s (Leaves n))
              (is_held_back (resolve task run cfg) task st.busy_shared_runs) (λ _. fewer cfg n s h)
              (λ _.
                bind-Obeys p (resolve_reuse task (resolve task run cfg)) _ s
                  (λ _ t. HasRoom cfg (suc n) t) (Leaves n)
                  (quiet-Obeys cfg (suc n) (resolve_reuse task (resolve task run cfg)) s h (
                    resolve_reuse-Within (IsQuiet cfg) task (resolve task run cfg)
                      (λ i s. (tt, λ x. refl))))
                  (λ reuse t room.
                    after_reuse-Obeys (resolve task run cfg) task st reuse n t room)))

    claim_one-Obeys :
        (st : Claiming) (task : Task) (n : ℕ) (s : Slots)
        → HasRoom cfg (suc n) s
        → Obeys p (claim_one to_lowercase cfg st task) s (Leaves n)
    unfolding claim_one run_for
    claim_one-Obeys st task n s h =
        bind-Obeys p (run_of task.run_id st.runs) _ s (λ _ t. HasRoom cfg (suc n) t) (Leaves n)
          (quiet-Obeys cfg (suc n) (run_of task.run_id st.runs) s h
            (run_of-Within (IsQuiet cfg) task.run_id st.runs (λ i s. (tt, λ x. refl))))
          (λ found t room. claim_in-Obeys task _ found.0 n t room)

    claims-Obeys :
        (tasks : List Task) (st : Claiming) (s : Slots)
        → HasRoom cfg (length tasks) s
        → Obeys p (fold (claim_one to_lowercase cfg) st tasks) s (Leaves 0)
    claims-Obeys [] st s h = h
    claims-Obeys (task ∷ tasks) st s h =
        bind-Obeys p (claim_one to_lowercase cfg st task) _ s (Leaves (length tasks)) (Leaves 0)
          (claim_one-Obeys st task (length tasks) s h) (λ st' t room. claims-Obeys tasks st' t room)

    -- The numbers as they were answered, before an agent is started.
    abbrev known : ℕ → ℕ → Slots
    known running gating = record { running = some running; gating = some gating; started = 0 }

    counted_again :
        (r g : ℕ) (answer : Outcome StoreError (List Task))
        → counted (known r g) Status.running answer ≡ known r g
    counted_again r g (ok tasks) = refl
    counted_again r g (err e) = refl

    less_room : (m n : ℕ) (s : Slots) → m ≤ n → HasRoom cfg n s → HasRoom cfg m s
    less_room m n s le (r, g, er, eg, h) = (r, g, er, eg, omega arith)

    -- The pass over the tasks, from the answer on the running ones.
    abbrev claim_within_rest : ℕ → List Task → Outcome StoreError (List Task) → Program (Unit {0})
    claim_within_rest slots ordered running =
        fold (claim_one to_lowercase cfg)
          (record { runs = no_runs; busy_shared_runs = busy_of (or_empty running) })
          (take slots ordered)
        >> stop

    within-Obeys :
        (r g slots : ℕ) (ordered : Option (List Task))
        → HasRoom cfg slots (known r g)
        → Obeys p (claim_within to_lowercase cfg slots ordered) (known r g) (λ _ _. Unit)
    unfolding claim_within
    within-Obeys r g slots none h = tt
    within-Obeys r g slots (some ordered) h = (
      tt,
      λ running.
          subst (λ t. Obeys p (claim_within_rest slots ordered running) t (λ _ _. Unit))
            (sym (counted_again r g running))
            (bind-Obeys p (fold (claim_one to_lowercase cfg) _ (take slots ordered)) _ (known r g)
              (Leaves 0) (λ _ _. Unit)
              (claims-Obeys (take slots ordered) _ (known r g) (
                less_room (length (take slots ordered)) slots (known r g)
                  (length-take_le slots ordered) h))
              (λ _ _ _. tt)),
    )

    ready-Obeys :
        (r g slots : ℕ) (ready : Outcome StoreError (List Task))
        → HasRoom cfg slots (known r g)
        → Obeys p (claim_ready to_lowercase cfg slots ready) (known r g) (λ _ _. Unit)
    unfolding claim_ready
    ready-Obeys r g slots (err e) h = tt
    ready-Obeys r g slots (ok ready) h = within-Obeys r g slots (fair_order ready) h

    free_slots :
        (running gating : List Task)
        → nat_eq (budget cfg running gating) 0 ≡ false
        → length running + length gating + 0 + budget cfg running gating ≤ cfg.concurrency
    unfolding budget
    free_slots running gating h = slots_within cfg.concurrency (length running) (length gating) h

    spend-Obeys :
        (running gating : List Task)
        → Obeys p
            (claim_budget to_lowercase cfg (ok (budget cfg running gating)))
            (known (length running) (length gating))
            (λ _ _. Unit)
    spend-Obeys running gating =
        by_test (λ m. Obeys p m (known (length running) (length gating)) (λ _ _. Unit))
          (nat_eq (budget cfg running gating) 0) (λ _. tt)
          (λ some_left. (
            tt,
            λ ready.
                ready-Obeys (length running) (length gating) (budget cfg running gating) ready
                  (length running, length gating, refl, refl, free_slots running gating some_left),
          ))

    gating-Obeys :
        (running : List Task) (gating : Outcome StoreError (List Task))
        → Obeys p
            (claim_budget to_lowercase cfg (budget_with cfg running gating))
            (counted
              (record { running = some (length running); gating = none; started = 0 })
              Status.gating
              gating)
            (λ _ _. Unit)
    unfolding budget_with
    gating-Obeys running (err e) = tt
    gating-Obeys running (ok gating) = spend-Obeys running gating

    running-Obeys :
        (running : Outcome StoreError (List Task))
        → Obeys p
            (budget_after cfg running >>= claim_budget to_lowercase cfg)
            (counted nothing_known Status.running running)
            (λ _ _. Unit)
    running-Obeys (err e) = tt
    running-Obeys (ok running) = (tt, gating-Obeys running)

-- Whatever the world answers, a pass of claims asks for the start of an agent only while the
-- running tasks, the gating tasks and the agents that it asked for before are fewer than the
-- concurrency, by the first answers of the store on the two; without these answers it asks for none.
pub claim_and_spawn-Obeys :
    (to_lowercase : String → String) (cfg : EngineConfig)
    → Obeys (starts_within cfg) (claim_and_spawn to_lowercase cfg) nothing_known (λ _ _. Unit)
unfolding claim_and_spawn query_budget
claim_and_spawn-Obeys to_lowercase cfg = (tt, running-Obeys cfg to_lowercase)
