-- ===== src/Engine/Reconcile/Justified/Passes.antt =====
-- crates/lazybones-engine/src/scheduler/reclaim.rs: which agents the pass ends and which tasks it
-- moves.
use Prim.Native.String.{◌++◌ as ◌<>◌}
use mathlib.Core.List.{Mem, mem-cons_self, mem-cons_of_mem}
use lazybones.Prelude.{
  String, Bool, true, false, Option, none, some, any, ◌≢◌, Bool-cases, Option-cases, eq_iff, ◌≡◌,
  refl, sym, subst, inl, inr, not, List, [], ◌∷◌, Outcome, ok, err, by_test, arith,
}
use lazybones.Store.Error.{StoreError}
use lazybones.Store.Task.Status.{Status}
use lazybones.Store.Task.Model.{Task}
use lazybones.Store.Run.Model.{Run}
use lazybones.Engine.Config.{EngineConfig}
use lazybones.Engine.Commands.{Command, Answer}
use lazybones.Engine.Program.{Program, for_each}
use lazybones.Engine.Program.Obeys.{Protocol, Obeys, Obeys_mono, bind-Obeys, for_members-Obeys}
use lazybones.Engine.Program.Within.{Within, Within-mono, Within-Obeys}
use lazybones.Engine.Block.{block}
use lazybones.Engine.Block.Footprint.{IsBlocking, block-Within}
use lazybones.Engine.Reclaim.{
  HcomAgent, Clock, Decision, blocks, reclaims, leaves, decide, is_live, has_live_agent,
}
use lazybones.Engine.Reclaim.Stuck.{is_text_iff}
use lazybones.Engine.Reclaim.Verdict.{decide_iff, decide-blocks}
use lazybones.Store.Run.Lifecycle.{Lifecycle, lifecycle_eq, active, stopped}
use lazybones.Engine.Tick.{or_empty}
use lazybones.Engine.Reconcile.{
  actor, is_off, is_illegitimate, reap_summarizer, reap_task, for_answer, for_tasks, reap_live,
  reap_finished_agents, act_on, reconcile_task, reconcile_with, reconcile,
}
use lazybones.Engine.Reconcile.Justified.{
  Seen, nothing_seen, InFlight, IsOver, or_nobody, IsStuck, Lives, IsPast, is_justified,
}

-- Some agent with the tag is not dead.
any_live :
    (tag : String) (live : List HcomAgent)
    → any (is_live tag) live ≡ true
    → (a : HcomAgent) × Mem a live × (a.tag ≡ some tag) × (a.status ≢ "dead")
any_live tag [] h = ground arith
any_live tag (b ∷ live) h = elim (Bool-cases (is_live tag b)) [
  | inl lives ↦ (
    b,
    mem-cons_self,
    (is_text_iff b.tag tag).0 (ground arith),
    λ dead. ground (arith, eq_iff b.status "dead"),
  )
  | inr other ↦
      let (a, m, tagged, lives) = any_live tag live (ground arith) in
      (a, mem-cons_of_mem b m, tagged, lives)
]

auto_pr_off : (o : Option Bool) → is_off o ≡ true → o ≢ some true
auto_pr_off none h e = ground arith
auto_pr_off (some b) h e = ground arith

lifecycle_stopped : (l : Lifecycle) → lifecycle_eq l stopped ≡ true → l ≡ stopped
unfolding lifecycle_eq
lifecycle_stopped active h = ground arith
lifecycle_stopped stopped h = refl

illegitimate-IsPast :
    (to_lowercase : String → String) (clock : Clock) (cfg : EngineConfig) (r : Run)
    → is_illegitimate r ≡ true
    → IsPast to_lowercase clock cfg r
unfolding is_illegitimate
illegitimate-IsPast to_lowercase clock cfg r h =
    elim (Bool-cases (lifecycle_eq r.lifecycle stopped)) [
      | inl off ↦ inl (lifecycle_stopped r.lifecycle off)
      | inr on ↦ elim (Option-cases r.pr_url) [
        | inr (url, held) ↦ inr (inl (url, held))
        | inl absent ↦ inr (inr (auto_pr_off r.workspace.auto_pr (ground arith)))
      ]
    ]

module _ (to_lowercase : String → String) (clock : Clock) (cfg : EngineConfig) where
  abbrev p : Protocol
  p = is_justified to_lowercase clock cfg

  -- A command that is justified, and that shows nothing new.
  abbrev Still : Seen → Command → Type 0
  Still s c = p.Allows s c × ((x : Answer c) → p.after s c x ≡ s)

  Still-Obeys :
      (m : Program (Unit {0})) (s : Seen) → Within (Still s) m → Obeys p m s (λ _ t. t ≡ s)
  Still-Obeys m s w =
      Within-Obeys (Still s) p (λ t. t ≡ s)
        (λ t c e still. (
          subst (λ u. p.Allows u c) (sym e) still.0,
          λ x. subst (λ u. p.after u c x ≡ s) (sym e) (still.1 x),
        ))
        m s refl w

  -- A loop over the answer of a query.
  answer-Obeys :
      {A : Type 0} (body : A → Program (Unit {0})) (s : Seen) (x : Outcome StoreError (List A))
      → ((a : A) → Mem a (or_empty x) → Within (Still s) (body a))
      → Obeys p (for_answer body x) s (λ _ t. t ≡ s)
  answer-Obeys body s (err e) step = refl
  answer-Obeys body s (ok xs) step =
      for_members-Obeys p body (λ t. t ≡ s) xs
        (λ a t m e.
          subst (λ u. Obeys p (body a) u (λ _ u'. u' ≡ s)) (sym e)
            (Still-Obeys (body a) s (step a m)))
        s refl

  blocking-Still :
      (s : Seen) (id : String)
      → IsStuck to_lowercase clock cfg s id
      → (c : Command) → IsBlocking id c
      → Still s c
  blocking-Still s id h c (inl (entry, e)) = subst (Still s) (sym e) (tt, λ x. refl)
  blocking-Still s id h c (inr (inl (why, by, e))) = subst (Still s) (sym e) (h, λ x. refl)
  blocking-Still s id h c (inr (inr (guide, by, e))) = subst (Still s) (sym e) (h, λ x. refl)

  act_on-Within :
      (s : Seen) (t : Task) (d : Decision)
      → Mem t s.tasks
      → InFlight s.asked
      → decide to_lowercase clock s.live cfg.stale_after_secs t ≡ d
      → Within (Still s) (act_on to_lowercase clock t d)
  unfolding act_on
  act_on-Within s t leaves m flying h = tt
  act_on-Within s t reclaims m flying h =
      let (free, gone, old) = (decide_iff to_lowercase clock s.live cfg.stale_after_secs t).0 h in
      (((t, (m, flying, refl), free, gone, old), λ x. refl), λ x. tt)
  act_on-Within s t (blocks reason) m flying h =
      let (a, first, stuck, tells) =
        (decide-blocks to_lowercase clock s.live cfg.stale_after_secs t reason).0 h in
      let justified : IsStuck to_lowercase clock cfg s t.id =
        (t, (m, flying, refl), (a, first, stuck)) in
      (
        (inl justified, λ x. refl),
        λ x.
            Within-mono (IsBlocking t.id) (Still s) (blocking-Still s t.id justified)
              (block to_lowercase t reason actor) (block-Within to_lowercase t reason actor),
      )

  live-Lives :
      (s : Seen) (tag : String)
      → not (has_live_agent tag s.live) ≡ false
      → Lives to_lowercase clock cfg s tag
  unfolding has_live_agent
  live-Lives s tag h = any_live tag s.live (ground arith)

  reap_task-Within :
      (s : Seen) (t : Task) → IsOver s.asked → Mem t s.tasks → Within (Still s) (reap_task s.live t)
  unfolding reap_task
  reap_task-Within s t over m =
      by_test (Within (Still s)) (not (has_live_agent t.id s.live)) (λ _. tt)
        (λ lives. ((inr (inl (t, m, over, refl, live-Lives s t.id lives)), λ x. refl), λ x. tt))

  reap_summarizer-Within :
      (s : Seen) (r : Run) → Mem r s.runs → Within (Still s) (reap_summarizer s.live r)
  unfolding reap_summarizer
  reap_summarizer-Within s r m =
      by_test (Within (Still s)) (not (has_live_agent (r.id <> "-autopr") s.live)) (λ _. tt)
        (λ lives.
          by_test (Within (Still s)) (is_illegitimate r)
            (λ illegitimate. (
              (
                inr (
                    inr (
                      r,
                      m,
                      refl,
                      illegitimate-IsPast to_lowercase clock cfg r illegitimate,
                      live-Lives s (r.id <> "-autopr") lives,
                    )),
                λ x. refl,
              ),
              λ x. tt,
            ))
            (λ _. tt))

  -- A loop over the tasks of a status, in a pass that has listed the agents.
  for_tasks-Obeys :
      (body : Task → Program (Unit {0})) (status : Status) (live : List HcomAgent) (s : Seen)
      → s.live ≡ live
      → ((u : Seen) (t : Task)
          → u.live ≡ live
          → u.asked ≡ status
          → Mem t u.tasks
          → Within (Still u) (body t))
      → Obeys p (for_tasks body status) s (λ _ u. u.live ≡ live)
  for_tasks-Obeys body status live s h step = (
    tt,
    λ x.
        let u = record s { asked = status; tasks = or_empty x } in
        Obeys_mono p (for_answer body x) u (λ _ v. v ≡ u) (λ _ v. v.live ≡ live)
          (answer-Obeys body u x (λ t m. step u t h refl m))
          (λ _ v e. subst (λ w. w.live ≡ live) (sym e) h),
  )

  InFlight-Obeys :
      (live : List HcomAgent) (status : Status) (s : Seen)
      → InFlight status
      → s.live ≡ live
      → Obeys p
          (for_tasks (reconcile_task to_lowercase clock cfg live) status)
          s
          (λ _ u. u.live ≡ live)
  unfolding reconcile_task act_on
  InFlight-Obeys live status s flying h =
      for_tasks-Obeys (reconcile_task to_lowercase clock cfg live) status live s h (λ u t e asked m.
        subst (λ l. Within (Still u) (reconcile_task to_lowercase clock cfg l t)) e
          (act_on-Within u t (decide to_lowercase clock u.live cfg.stale_after_secs t) m
            (subst InFlight (sym asked) flying) refl))

  IsOver-Obeys :
      (live : List HcomAgent) (status : Status) (s : Seen)
      → IsOver status
      → s.live ≡ live
      → Obeys p (for_tasks (reap_task live) status) s (λ _ u. u.live ≡ live)
  IsOver-Obeys live status s over h =
      for_tasks-Obeys (reap_task live) status live s h (λ u t e asked m.
        subst (λ l. Within (Still u) (reap_task l t)) e
          (reap_task-Within u t (subst IsOver (sym asked) over) m))

  summarizers-Obeys :
      (live : List HcomAgent) (s : Seen) (x : Outcome StoreError (List Run))
      → s.live ≡ live
      → Obeys p
          (for_answer (reap_summarizer live) x)
          (record s { runs = or_empty x })
          (λ _ u. u.live ≡ live)
  summarizers-Obeys live s x h =
      let u = record s { runs = or_empty x } in
      Obeys_mono p (for_answer (reap_summarizer live) x) u (λ _ v. v ≡ u) (λ _ v. v.live ≡ live)
        (answer-Obeys (reap_summarizer live) u x (λ r m.
          subst (λ l. Within (Still u) (reap_summarizer l r)) h (reap_summarizer-Within u r m)))
        (λ _ v e. subst (λ w. w.live ≡ live) (sym e) h)

  reap_live-Obeys :
      (live : List HcomAgent) (s : Seen)
      → s.live ≡ live
      → Obeys p (reap_live live) s (λ _ u. u.live ≡ live)
  reap_live-Obeys [] s h = h
  reap_live-Obeys (a ∷ live) s h = (
    tt,
    λ x.
        bind-Obeys p (for_answer (reap_summarizer (a ∷ live)) x) _ _ (λ _ u. u.live ≡ a ∷ live)
          (λ _ u. u.live ≡ a ∷ live) (summarizers-Obeys (a ∷ live) s x h)
          (λ _ u e.
            for_members-Obeys p (for_tasks (reap_task (a ∷ live))) (λ v. v.live ≡ a ∷ live)
              (Status.done ∷ Status.blocked ∷ [])
              (λ status v over e'. IsOver-Obeys (a ∷ live) status v over e') u e),
  )

  reconcile_with-Obeys :
      (x : Outcome String (List HcomAgent))
      → Obeys p
          (reconcile_with to_lowercase clock cfg x)
          (record nothing_seen { live = or_nobody x })
          (λ _ u. u.live ≡ or_nobody x)
  unfolding reconcile_with reap_finished_agents
  reconcile_with-Obeys (err e) = refl
  reconcile_with-Obeys (ok live) =
      bind-Obeys p
        (for_each (Status.running ∷ Status.gating ∷ [])
          (for_tasks (reconcile_task to_lowercase clock cfg live)))
        _ (record nothing_seen { live = live }) (λ _ u. u.live ≡ live) (λ _ u. u.live ≡ live)
        (for_members-Obeys p (for_tasks (reconcile_task to_lowercase clock cfg live))
          (λ v. v.live ≡ live) (Status.running ∷ Status.gating ∷ [])
          (λ status v flying e. InFlight-Obeys live status v flying e)
          (record nothing_seen { live = live }) refl)
        (λ _ u e. reap_live-Obeys live u e)

-- Whatever the world answers, a pass of reclaiming ends an agent only if it has the tag of a task that
-- is listed as running or gating and whose first listed agent is stuck at its start, or if an agent
-- with the tag is not dead and the tag is that of a task listed as done or blocked, or that of the
-- summarizer of a listed run that is stopped, has a pull request or does not ask for one. Only a task
-- in flight whose first agent is stuck is blocked or revived, and only one with no stuck first agent,
-- no agent that is not dead and a stale heartbeat is reclaimed; no agent is started, and no task is
-- moved otherwise.
pub reconcile-Obeys :
    (to_lowercase : String → String) (clock : Clock) (cfg : EngineConfig)
    → Obeys
        (is_justified to_lowercase clock cfg)
        (reconcile to_lowercase clock cfg)
        nothing_seen
        (λ _ _. Unit)
unfolding reconcile
reconcile-Obeys to_lowercase clock cfg = (
  tt,
  λ x.
      Obeys_mono (is_justified to_lowercase clock cfg) (reconcile_with to_lowercase clock cfg x)
        (record nothing_seen { live = or_nobody x }) (λ _ u. u.live ≡ or_nobody x) (λ _ _. Unit)
        (reconcile_with-Obeys to_lowercase clock cfg x) (λ _ u e. tt),
)
