-- ===== src/Ext/Cycle/Chains.antt =====
-- Causal chains: an extension reacts to an admitted event, and emits the next event of the chain.
use lazybones.Prelude.{
  ℕ, zero, suc, ◌≤◌, ◌<◌, ◌≡◌, refl, ◌↔◌, ◌⊎◌, true, false, String, arith, is_text, text_eq_self,
  u32_max,
}
use lazybones.Ext.Cycle.{CycleGuard, EventOrigin, host, descend, admitted, is_admitted, admit}

-- The origin of an event after a chain of reactions, with the number of its emissions.
pub data Chain (g : CycleGuard) : EventOrigin → ℕ → Type 0 where
  root : Chain g host zero
  react :
      {o : EventOrigin} {n : ℕ} (ext_id : String)
      → Chain g o n
      → admit g ext_id o ≡ admitted
      → Chain g (descend o ext_id) (suc n)

admit-depth :
    (g : CycleGuard) (ext_id : String) (o : EventOrigin)
    → admit g ext_id o ≡ admitted
    → o.depth < g.cfg.max_depth
unfolding admit
admit-depth g ext_id o h = ground arith

Chain-depth :
    {g : CycleGuard} {o : EventOrigin} {n : ℕ}
    → g.cfg.max_depth ≤ u32_max
    → Chain g o n
    → (o.depth ≡ n) × (n ≤ g.cfg.max_depth)
unfolding host descend
Chain-depth b root = (refl, omega arith)
Chain-depth {g} b (react {o = o} ext_id c h) =
    let (same, le) = Chain-depth b c in ground (arith, admit-depth g ext_id o h)

-- A chain of events holds at most `max_depth` emissions: no chain of reactions goes on for ever,
-- whichever extensions react.
pub Chain-bounded :
    (g : CycleGuard) (o : EventOrigin) (n : ℕ)
    → g.cfg.max_depth ≤ u32_max
    → Chain g o n
    → n ≤ g.cfg.max_depth
Chain-bounded g o n b c = (Chain-depth b c).1

-- An event is admitted exactly if its depth is below the limit, and it was not emitted by the
-- extension itself or its depth is below the bound on reentry.
admit_iff :
    (g : CycleGuard) (ext_id : String) (o : EventOrigin)
    → (is_admitted (admit g ext_id o) ≡ true) ↔ (
        (o.depth < g.cfg.max_depth)
        × ((is_text o.origin ext_id ≡ false) ⊎ (o.depth < g.cfg.max_self_reentry)))
unfolding admit is_admitted
admit_iff g ext_id o = (λ h. ground arith, λ h. ground arith)

-- With the reentry bound of the default, 1, no extension reacts to an event that it emitted.
pub descend-not_admitted :
    (g : CycleGuard) (ext_id : String) (o : EventOrigin)
    → g.cfg.max_self_reentry ≤ 1
    → is_admitted (admit g ext_id (descend o ext_id)) ≡ false
unfolding admit is_admitted descend
descend-not_admitted g ext_id o h = ground (arith, text_eq_self ext_id)
