-- ===== src/Engine/Await.antt =====
-- crates/lazybones-engine/src/scheduler/finish.rs: the wait for the signal of an agent.
pub mod Polls
use Prim.Native.String.{◌++◌ as ◌<>◌}
use lazybones.Prelude.{
  ℕ, zero, suc, ◌+◌, ◌-◌, String, Bool, true, false, not, Option, none, some, List, [], ◌∷◌,
  Outcome, ok, err, if◌then◌else◌, unwrap_or, leb, ltb, nat_eq, codes, contains, has_part,
  after_first, trim_start_matches, trim, ◌||◌, ◌==◌,
}
use lazybones.Engine.Commands.{hcom_list, hcom_wait, HcomEvent}
use lazybones.Engine.Reclaim.{HcomAgent, agent_for}
use lazybones.Engine.Program.{Program, perform, return, ◌>>=◌}

-- What the agent signalled.
pub data Signal : Type 0 where
  done : Signal
  blocked : (reason : String) → Signal
  agent_done timeout : Signal

pub data Liveness : Type 0 where
  working idle gone unknown : Liveness

abbrev pub await_secs : ℕ
await_secs = 3600

abbrev pub poll_slice_secs : ℕ
poll_slice_secs = 20

abbrev pub idle_done_secs : ℕ
idle_done_secs = 60

unfoldable pub is_working : (status : String) → Bool
is_working status = not (contains ("listening" ∷ "idle" ∷ "dead" ∷ "stopped" ∷ "" ∷ []) status)

abbrev pub liveness_of : Option HcomAgent → Liveness
unfolding is_working
liveness_of none = gone
liveness_of (some a) = if is_working a.status then working else idle

-- An `hcom list` that fails says nothing.
abbrev pub classify_agents : (id : String) → Outcome String (List HcomAgent) → Liveness
unfolding agent_for
classify_agents id (err e) = unknown
classify_agents id (ok agents) = liveness_of (agent_for id agents)

unfoldable pub agent_liveness : (id : String) → Program Liveness
agent_liveness id = do agents ← perform hcom_list; return (classify_agents id agents)

abbrev is_colon_or_space : ℕ → Bool
is_colon_or_space c = nat_eq c 0x3a || nat_eq c 0x20

abbrev pub no_reason : String
no_reason = "agent reported BLOCKED"

-- The reason, or a text that says that there was none.
abbrev reason_or : Option String → String
reason_or none = no_reason
reason_or (some rest) =
    let reason = trim (trim_start_matches is_colon_or_space rest) in
    if reason == "" then no_reason else reason

unfoldable pub blocked_reason : (text : String) → String
blocked_reason text = reason_or (after_first (codes "BLOCKED") text)

unfoldable pub signal_of : HcomEvent → Signal
unfolding blocked_reason
signal_of event =
    let text = unwrap_or event.text "" in
    if has_part text "BLOCKED" then blocked (blocked_reason text) else done

abbrev pub sql_for : (id : String) → String
sql_for id =
    "type = 'message' AND json_extract(data, '$.thread') = '" <> id <> "' "
    <> "AND (json_extract(data, '$.text') LIKE '%DONE%' "
    <> "OR json_extract(data, '$.text') LIKE '%BLOCKED%')"

-- One round after the next: `none` is for a loop that the fuel stopped. The state is what `waited`,
-- `idle` and `seen` hold.
abbrev pub Loop : Type 0
Loop = (waited idle : ℕ) → (seen : Bool) → Program (Option (Outcome String Signal))

abbrev pub answer : Outcome String Signal → Program (Option (Outcome String Signal))
answer signal = return (some signal)

abbrev pub look :
    Loop
    → (waited slice idle : ℕ) → (seen : Bool) → Liveness
    → Program (Option (Outcome String Signal))
look again waited slice idle_secs seen working = again waited 0 true
look again waited slice idle_secs seen idle =
    if leb idle_done_secs (idle_secs + slice)
    then answer (ok agent_done)
    else again waited (idle_secs + slice) true
look again waited slice idle_secs seen gone =
    if seen then answer (ok agent_done) else again waited idle_secs seen
look again waited slice idle_secs seen unknown = again waited idle_secs seen

abbrev pub after_wait :
    (id : String)
    → Loop
    → (waited slice idle : ℕ) → (seen : Bool) → Outcome String (List HcomEvent)
    → Program (Option (Outcome String Signal))
unfolding signal_of agent_liveness
after_wait id again waited slice idle_secs seen (err e) = answer (err e)
after_wait id again waited slice idle_secs seen (ok (event ∷ events)) =
    answer (ok (signal_of event))
after_wait id again waited slice idle_secs seen (ok []) = do
  liveness ← agent_liveness id
  look again waited slice idle_secs seen liveness

-- The seconds of the next poll.
abbrev pub slice_at : (waited : ℕ) → ℕ
slice_at waited =
    if leb poll_slice_secs (await_secs - waited) then poll_slice_secs else await_secs - waited

unfoldable pub await_from : (fuel : ℕ) → (id : String) → Loop
await_from zero id waited idle_secs seen = return none
await_from (suc fuel) id waited idle_secs seen =
    if ltb waited await_secs
    then perform (hcom_wait (sql_for id) (slice_at waited))
      >>= after_wait id (await_from fuel id) (waited + slice_at waited) (slice_at waited) idle_secs
          seen
    else answer (ok timeout)

-- The polls of 20 seconds in an hour, and the test after the last one.
abbrev pub await_fuel : ℕ
await_fuel = 181

unfoldable pub await_signal : (id : String) → Program (Option (Outcome String Signal))
unfolding await_from
await_signal id = await_from await_fuel id 0 0 false
