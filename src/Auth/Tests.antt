-- ===== src/Auth/Tests.antt =====
-- The theorems on sessions at concrete inputs.
use lazybones.Prelude.{refl}
use lazybones.Auth.Capability.{heartbeat, holds, cap_eq, agent_grant}
use lazybones.Auth.Session.{for_agent, require, Scope, of_agent, can, may_act_on, require-Scope}

require-Scope_example : Scope (of_agent "agent" "fix") heartbeat "fix"
unfolding require can may_act_on holds cap_eq agent_grant for_agent
require-Scope_example = require-Scope (of_agent "agent" "fix") heartbeat "heartbeat" "fix" refl
