-- ===== src/Engine/Reclaim/Verdict.antt =====
-- When the pass reclaims, blocks or leaves a task in flight.
use Prim.Native.Nat.{◌/◌}
use lazybones.Prelude.{
  ℕ, ◌*◌, ◌-◌, ◌≤◌, ◌≡◌, ◌≢◌, refl, ◌↔◌, ◌⊎◌, Bool, true, false, String, Option, none, some, List,
  [], ◌∷◌, arith, any, All, eq_iff, option_map,
}
use lazybones.Store.Task.Model.{Task}
use lazybones.Engine.Reclaim.Stuck.{
  First, IsStuck, Tells, is_text-≢, agent_for-First, reason_of-none, reason_of-some,
}
use lazybones.Engine.Reclaim.{
  HcomAgent, agent_for, is_live, Clock, age_of, heartbeat_age_secs, none_or_from, is_reclaimable,
  blocks, reclaims, reason_of, decide_from, decide,
}

-- The agent has another tag, or is dead.
abbrev pub IsGone : String → HcomAgent → Type 0
IsGone tag a = (a.tag ≢ some tag) ⊎ (a.status ≡ "dead")

-- The bound in nanoseconds has passed since the instant; one that cannot be read counts as old.
abbrev OldBy : Clock → (stale : ℕ) → Option ℕ → Type 0
OldBy clock stale none = Unit
OldBy clock stale (some at) = stale * 1000000000 ≤ clock.utc_now - at

abbrev pub IsStale : Clock → (stale : ℕ) → (heartbeat : Option String) → Type 0
IsStale clock stale none = Unit
IsStale clock stale (some heartbeat) = OldBy clock stale (clock.parse_from_rfc3339 heartbeat)

old_iff :
    (clock : Clock) (stale : ℕ) (at : Option ℕ)
    → (none_or_from (option_map (λ then_. (clock.utc_now - then_) / 1000000000) at) stale ≡ true)
      ↔ OldBy clock stale at
old_iff clock stale none = (λ h. tt, λ h. refl)
old_iff clock stale (some at) = (λ h. ground arith, λ h. ground arith)

-- The age of a heartbeat, in whole seconds, is the bound at least.
IsStale-iff :
    (clock : Clock) (stale : ℕ) (heartbeat : Option String)
    → (none_or_from (age_of clock heartbeat) stale ≡ true) ↔ IsStale clock stale heartbeat
IsStale-iff clock stale none = (λ h. tt, λ h. refl)
IsStale-iff clock stale (some heartbeat) = old_iff clock stale (clock.parse_from_rfc3339 heartbeat)

any_live-All :
    (tag : String) (live : List HcomAgent)
    → (any (is_live tag) live ≡ false) ↔ All (IsGone tag) live
any_live-All tag [] = (λ h. tt, λ h. refl)
any_live-All tag (a ∷ live) = (
  λ h. (
    ground (arith, (is_text-≢ a.tag tag).0, eq_iff a.status "dead"),
    (any_live-All tag live).0 (ground arith),
  ),
  λ h. ground (
    arith,
    h.0,
    (any_live-All tag live).1 (h.1),
    (is_text-≢ a.tag tag).1,
    eq_iff a.status "dead",
  ),
)

decided-reclaims :
    (reason : Option String) (reclaimable : Bool)
    → (decide_from reason reclaimable ≡ reclaims) ↔ ((reason ≡ none) × (reclaimable ≡ true))
decided-reclaims none true = (λ h. (refl, refl), λ h. refl)
decided-reclaims none false = (λ h. ground arith, λ h. ground arith)
decided-reclaims (some r) b = (λ h. ground arith, λ h. ground arith)

decided-blocks :
    (found : Option String) (reclaimable : Bool) (reason : String)
    → (decide_from found reclaimable ≡ blocks reason) ↔ (found ≡ some reason)
decided-blocks none true reason = (λ h. ground arith, λ h. ground arith)
decided-blocks none false reason = (λ h. ground arith, λ h. ground arith)
decided-blocks (some r) b reason = (λ h. ground arith, λ h. ground arith)

reclaimable_iff :
    (clock : Clock) (task : Task) (live : List HcomAgent) (stale : ℕ)
    → (is_reclaimable clock task live stale ≡ true)
      ↔ (All (IsGone task.id) live × IsStale clock stale task.heartbeat)
unfolding is_reclaimable heartbeat_age_secs
reclaimable_iff clock task live stale =
    let gone = any_live-All task.id live in
    let old = IsStale-iff clock stale task.heartbeat in
    (
      λ h. (gone.0 (ground arith), old.0 (ground arith)),
      λ h. ground (arith, gone.1 (h.0), old.1 (h.1)),
    )

-- A task in flight is reclaimed exactly if the first agent with its tag, if there is one, is not
-- stuck at its start (it is not `blocked`, and its detail has none of the six marks of that), all
-- agents with its tag are dead, and its heartbeat is missing, unreadable or as old as the bound.
pub decide_iff :
    (to_lowercase : String → String) (clock : Clock) (live : List HcomAgent) (stale : ℕ)
    (task : Task)
    → (decide to_lowercase clock live stale task ≡ reclaims) ↔ (
        ((a : HcomAgent) → First task.id live a → ¬ IsStuck to_lowercase a)
        × All (IsGone task.id) live
        × IsStale clock stale task.heartbeat)
unfolding decide
decide_iff to_lowercase clock live stale task =
    let decided =
      decided-reclaims (reason_of to_lowercase (agent_for task.id live))
        (is_reclaimable clock task live stale) in
    let spared = reason_of-none to_lowercase (agent_for task.id live) in
    let reclaimable = reclaimable_iff clock task live stale in
    (
      λ h.
          let (free, old) = decided.0 h in
          let (gone, stale_since) = reclaimable.0 old in
          (
            λ a first. spared.0 free a ((agent_for-First task.id live a).1 first),
            gone,
            stale_since,
          ),
      λ (free, gone, old). decided.1 (
        spared.1 (λ a held. free a ((agent_for-First task.id live a).0 held)),
        reclaimable.1 (gone, old),
      ),
    )

-- A task in flight is blocked for a reason exactly if the first agent with its tag is stuck at its
-- start and the reason tells its detail, or its status where the detail is blank: also where another
-- agent with the tag is live and at work, and whether or not the first one is itself dead.
pub decide-blocks :
    (to_lowercase : String → String) (clock : Clock) (live : List HcomAgent) (stale : ℕ)
    (task : Task) (reason : String)
    → (decide to_lowercase clock live stale task ≡ blocks reason)
      ↔ ((a : HcomAgent) × First task.id live a × IsStuck to_lowercase a × Tells a reason)
unfolding decide
decide-blocks to_lowercase clock live stale task reason =
    let decided =
      decided-blocks (reason_of to_lowercase (agent_for task.id live))
        (is_reclaimable clock task live stale) reason in
    let told = reason_of-some to_lowercase (agent_for task.id live) reason in
    (
      λ h.
          let (a, held, stuck, tells) = told.0 (decided.0 h) in
          (a, (agent_for-First task.id live a).0 held, stuck, tells),
      λ (a, first, stuck, tells).
          decided.1 (told.1 (a, (agent_for-First task.id live a).1 first, stuck, tells)),
    )
