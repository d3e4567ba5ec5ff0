-- ===== src/Ext/Cycle.antt =====
-- crates/lazybones-ext/src/cycle.rs: the guard against cycles of events. A time is a number of
-- units since a common start, and a difference of times stops at zero as `duration_since` does.
pub mod Chains
pub mod Rate
use lazybones.Prelude.{
  ℕ, ◌+◌, ◌-◌, Bool, true, false, ◌&&◌, String, Option, none, some, Map, empty_map, insert,
  if◌then◌else◌, leb, saturating_succ, unwrap_or, is_text,
}

pub record CycleConfig : Type 0 where
  pub max_depth : ℕ  -- u32
  pub max_self_reentry : ℕ  -- u32
  pub emits_per_window : ℕ  -- u32
  pub window : ℕ  -- Duration

-- The default bounds, with the window in seconds.
abbrev pub default_config : CycleConfig
default_config = record { max_depth = 4; max_self_reentry = 1; emits_per_window = 20; window = 10 }

pub record EventOrigin : Type 0 where
  pub origin : Option String
  pub depth : ℕ  -- u32

unfoldable pub host : EventOrigin
host = record { origin = none; depth = 0 }

-- The origin of an event that `ext_id` emits in reaction.
unfoldable pub descend : EventOrigin → String → EventOrigin
descend o ext_id = record { origin = some ext_id; depth = saturating_succ o.depth }

pub data Admission : Type 0 where
  admitted : Admission
  drop_depth : (depth : ℕ) → Admission
  drop_reentry : (ext_id : String) (depth : ℕ) → Admission

unfoldable pub is_admitted : Admission → Bool
is_admitted admitted = true
is_admitted _ = false

pub record RateState : Type 0 where
  pub window_start : ℕ
  pub count : ℕ  -- u32

pub record CycleGuard : Type 0 where
  pub cfg : CycleConfig
  pub rate : Map RateState

unfoldable pub new : CycleConfig → CycleGuard
new cfg = record { cfg = cfg; rate = empty_map }

unfoldable pub admit : CycleGuard → (target_ext : String) → EventOrigin → Admission
admit g target_ext o =
    if leb g.cfg.max_depth o.depth
    then drop_depth o.depth
    else if is_text o.origin target_ext && leb g.cfg.max_self_reentry o.depth
    then drop_reentry target_ext o.depth
    else admitted

-- The window rolls forward once it has fully elapsed.
unfoldable pub rolled : CycleConfig → ℕ → RateState → RateState
rolled cfg now st =
    if leb cfg.window (now - st.window_start) then record { window_start = now; count = 0 } else st

-- Whether one more emission is within the limit, and the state that it leaves.
unfoldable pub charge : CycleConfig → ℕ → RateState → Bool × RateState
unfolding rolled
charge cfg now st =
    let st' = rolled cfg now st in
    if leb cfg.emits_per_window st'.count
    then (false, st')
    else (true, record st' { count = st'.count + 1 })

unfoldable pub allow_emit_at : CycleGuard → String → (now : ℕ) → Bool × CycleGuard
unfolding charge
allow_emit_at g ext_id now =
    let (allowed, st) =
      charge g.cfg now (unwrap_or (g.rate ext_id) (record { window_start = now; count = 0 })) in
    (allowed, record g { rate = insert ext_id st g.rate })
