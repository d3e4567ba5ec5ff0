-- ===== src/Ext/Cycle/Rate.antt =====
-- The limit on the emissions of one extension.
use lazybones.Prelude.{
  ℕ, zero, suc, ◌+◌, ◌-◌, ◌≤◌, ◌<◌, ◌≡◌, refl, ap, ◌∙◌, ◌⊎◌, String, List, [], ◌∷◌, arith,
  if◌then◌else◌, All, eq_iff, replicate, ◌++◌,
}
use lazybones.Ext.Cycle.{CycleConfig, CycleGuard, RateState, charge, rolled, allow_emit_at}

-- The emissions that are allowed at the given times, and the state after them.
unfoldable pub allowed : CycleConfig → RateState → List ℕ → ℕ
unfolding charge
allowed cfg st [] = 0
allowed cfg st (now ∷ times) =
    let rest = allowed cfg (charge cfg now st).1 times in
    if (charge cfg now st).0 then suc rest else rest

-- Times within one window of its start.
abbrev pub Within : CycleConfig → ℕ → List ℕ → Type 0
Within cfg start times = All (λ t. t - start < cfg.window) times

allowed-Within :
    (cfg : CycleConfig) (st : RateState) (times : List ℕ)
    → Within cfg st.window_start times
    → st.count ≤ cfg.emits_per_window
    → st.count + allowed cfg st times ≤ cfg.emits_per_window
unfolding allowed charge rolled
allowed-Within cfg st [] h b = ground arith
allowed-Within cfg st (now ∷ times) h b = ground (
  arith,
  allowed-Within cfg (record st { count = st.count + 1 }) times (h.1),
  allowed-Within cfg st times (h.1),
)

-- Of the emissions that an extension tries within the window that its first one opens, at most
-- `emits_per_window` are allowed, however many it tries.
pub allowed-le-emits :
    (cfg : CycleConfig) (start : ℕ) (times : List ℕ)
    → Within cfg start times
    → allowed cfg (record { window_start = start; count = 0 }) times ≤ cfg.emits_per_window
allowed-le-emits cfg start times h =
    let st : RateState = record { window_start = start; count = 0 } in
    omega (arith, allowed-Within cfg st times h (omega arith))

allowed-replicate :
    (cfg : CycleConfig) (st : RateState) (n t : ℕ) (rest : List ℕ)
    → t - st.window_start < cfg.window
    → st.count + n ≤ cfg.emits_per_window
    → allowed cfg st (replicate n t ++ rest)
      ≡ n + allowed cfg (record st { count = st.count + n }) rest
unfolding allowed charge rolled
allowed-replicate cfg st zero t rest h b = ground arith
allowed-replicate cfg st (suc n) t rest h b =
    ground (arith, allowed-replicate cfg (record st { count = st.count + 1 }) n t rest h)

allowed-replicate_last :
    (cfg : CycleConfig) (st : RateState) (n t : ℕ)
    → t - st.window_start < cfg.window
    → st.count + n ≤ cfg.emits_per_window
    → allowed cfg st (replicate n t) ≡ n
unfolding allowed charge rolled
allowed-replicate_last cfg st zero t h b = refl
allowed-replicate_last cfg st (suc n) t h b =
    ground (arith, allowed-replicate_last cfg (record st { count = st.count + 1 }) n t h)

allowed-replicate_rolled :
    (cfg : CycleConfig) (st : RateState) (n t : ℕ)
    → 1 ≤ cfg.window
    → cfg.window ≤ t - st.window_start
    → n ≤ cfg.emits_per_window
    → allowed cfg st (replicate n t) ≡ n
unfolding allowed charge rolled
allowed-replicate_rolled cfg st zero t w h b = refl
allowed-replicate_rolled cfg st (suc n) t w h b =
    ground (arith, allowed-replicate_last cfg (record { window_start = t; count = 0 + 1 }) n t)

-- The window does not slide: at the last instant of one window and the first of the next the limit
-- is granted twice, so that in two successive instants twice the limit is allowed.
pub allowed-two_windows :
    (cfg : CycleConfig) (start : ℕ)
    → 1 ≤ cfg.window
    → let n = cfg.emits_per_window in
      let last = start + cfg.window - 1 in
      allowed cfg
        (record { window_start = start; count = 0 })
        (replicate n last ++ replicate n (last + 1))
      ≡ n + n
allowed-two_windows cfg start w =
    let n = cfg.emits_per_window in
    let last = start + cfg.window - 1 in
    let st : RateState = record { window_start = start; count = 0 } in
    let full : RateState = record { window_start = start; count = 0 + n } in
    allowed-replicate cfg st n last (replicate n (last + 1)) (omega arith) (omega arith)
    ∙ ap (λ k. n + k) (allowed-replicate_rolled cfg full n (last + 1) w (omega arith) (omega arith))

-- The emissions of one extension leave the budget of every other one.
pub allow_emit_at-other :
    (g : CycleGuard) (ext_id other : String) (now : ℕ)
    → ext_id ≡ other ⊎ ((allow_emit_at g ext_id now).1.rate other ≡ g.rate other)
unfolding allow_emit_at
allow_emit_at-other g ext_id other now = ground (arith, eq_iff ext_id other)
