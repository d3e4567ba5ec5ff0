-- ===== src/Engine/Reclaim.antt =====
-- crates/lazybones-engine/src/scheduler/reclaim.rs: what the pass over the tasks in flight decides
-- of each one. The clock and the parser of RFC3339 (crate `chrono`) are arguments, and so is the
-- Unicode table behind `str::to_lowercase`. An instant is its nanoseconds since the earliest one.
pub mod Stuck
pub mod Verdict
use Prim.Native.Nat.{◌/◌}
use Prim.Native.String.{◌++◌ as ◌<>◌}
use lazybones.Prelude.{
  ℕ, ◌-◌, Bool, true, false, not, ◌&&◌, ◌||◌, String, Option, none, some, List, [], ◌∷◌,
  if◌then◌else◌, is_some, is_none, is_text, any, leb, nat_eq, codes, is_blank, ◌==◌, option_map,
  has_part,
}
use lazybones.Store.Task.Model.{Task}

-- crates/lazybones-engine/src/hcom/control.rs
pub record HcomAgent : Type 0 where
  pub name : String
  pub base_name : String
  pub status : String
  pub detail : String
  pub tag : Option String

-- The first agent with a tag.
unfoldable pub agent_for : String → List HcomAgent → Option HcomAgent
agent_for tag [] = none
agent_for tag (a ∷ live) =
    let rest = agent_for tag live in if is_text a.tag tag then some a else rest

unfoldable pub is_wedged : (to_lowercase : String → String) → HcomAgent → Bool
is_wedged to_lowercase agent =
    let detail = to_lowercase agent.detail in
    to_lowercase agent.status == "blocked"
    || has_part detail "launch_blocked"
    || has_part detail "launch blocked"
    || has_part detail "launch_failed"
    || has_part detail "screen settled"
    || has_part detail "settled before readiness"
    || has_part detail "exited before startup"

-- The reason to block the task of an agent that does not get past its start.
unfoldable pub launch_block_reason : (to_lowercase : String → String) → HcomAgent → Option String
unfolding is_wedged
launch_block_reason to_lowercase agent =
    if not (is_wedged to_lowercase agent)
    then none
    else some ("launch_blocked: " <> (if is_blank agent.detail then agent.status else agent.detail))

abbrev pub is_live : String → HcomAgent → Bool
is_live tag a = is_text a.tag tag && not (a.status == "dead")

unfoldable pub has_live_agent : String → List HcomAgent → Bool
has_live_agent tag live = any (is_live tag) live

-- The clock, and the instant that a text names, if it is one.
pub record Clock : Type 0 where
  pub utc_now : ℕ
  pub parse_from_rfc3339 : String → Option ℕ

-- The seconds since the instant that a text names; an instant to come counts as now.
abbrev pub age_of : Clock → Option String → Option ℕ
age_of clock none = none
age_of clock (some hb) =
    option_map (λ then_. (clock.utc_now - then_) / 1000000000) (clock.parse_from_rfc3339 hb)

unfoldable pub heartbeat_age_secs : Clock → Task → Option ℕ
heartbeat_age_secs clock task = age_of clock task.heartbeat

abbrev pub none_or_from : Option ℕ → ℕ → Bool
none_or_from none bound = true
none_or_from (some age) bound = leb bound age

unfoldable pub is_reclaimable : Clock → Task → List HcomAgent → (stale_after_secs : ℕ) → Bool
unfolding heartbeat_age_secs
is_reclaimable clock task live stale_after_secs =
    if any (is_live task.id) live
    then false
    else none_or_from (heartbeat_age_secs clock task) stale_after_secs

-- What the pass does with a task: it blocks it for a reason, reclaims it, or leaves it.
pub data Decision : Type 0 where
  blocks : (reason : String) → Decision
  reclaims leaves : Decision

abbrev pub reason_of : (to_lowercase : String → String) → Option HcomAgent → Option String
reason_of to_lowercase none = none
reason_of to_lowercase (some agent) = launch_block_reason to_lowercase agent

abbrev pub decide_from : Option String → Bool → Decision
decide_from (some reason) reclaimable = blocks reason
decide_from none reclaimable = if not reclaimable then leaves else reclaims

-- The body of the loop over the tasks in flight.
unfoldable pub decide :
    (to_lowercase : String → String)
    → Clock
    → List HcomAgent
    → (stale_after_secs : ℕ) → Task
    → Decision
unfolding agent_for is_reclaimable
decide to_lowercase clock live stale_after_secs task =
    decide_from (reason_of to_lowercase (agent_for task.id live))
      (is_reclaimable clock task live stale_after_secs)
