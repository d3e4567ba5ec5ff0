-- ===== src/Engine/Claims/Bounds.antt =====
-- How many tasks a pass can claim, of which runs, and from which baseline.
use lazybones.Prelude.{
  ◌+◌, ◌-◌, ◌≤◌, ◌≡◌, refl, ◌⊎◌, inl, inr, ◌&&◌, String, some, List, [], ◌∷◌, arith, length,
  contains, take, length-take_le, ◌==◌, any,
}
use lazybones.Store.Task.Model.{Task}
use lazybones.Store.Run.Lifecycle.{Lifecycle, lifecycle_eq}
use lazybones.Store.Run.Model.{Run}
use lazybones.Engine.Config.{EngineConfig}
use lazybones.Engine.Claims.{budget, is_skipped, unpromotable_run_ids}

-- A pass looks at no more tasks than the concurrency leaves: those in flight with those looked at
-- are at most the concurrency, or else no task is looked at.
pub budget_bounds :
    (cfg : EngineConfig) (running gating ordered : List Task)
    → let seen = take (budget cfg running gating) ordered in
      (length running + length gating + length seen ≤ cfg.concurrency) ⊎ (length seen ≡ 0)
unfolding budget
budget_bounds cfg running gating ordered =
    ground (arith, length-take_le (cfg.concurrency - (length running + length gating)) ordered)

lifecycle_cases : (l : Lifecycle) → (l ≡ Lifecycle.active) ⊎ (l ≡ Lifecycle.stopped)
lifecycle_cases Lifecycle.active = inl refl
lifecycle_cases Lifecycle.stopped = inr refl

-- The two passes agree on the runs that rest: a run id is excluded from promotion exactly if some run
-- of that id is one whose tasks the claims skip.
pub unpromotable-is_skipped :
    (runs : List Run) (id : String)
    → contains (unpromotable_run_ids runs) id ≡ any (λ r. r.id == id && is_skipped (some r)) runs
unfolding is_skipped unpromotable_run_ids lifecycle_eq
unpromotable-is_skipped [] id = refl
unpromotable-is_skipped (r ∷ runs) id = elim (lifecycle_cases r.lifecycle) [
  | inl on ↦ ground (arith, unpromotable-is_skipped runs id)
  | inr off ↦ ground (arith, unpromotable-is_skipped runs id)
]
