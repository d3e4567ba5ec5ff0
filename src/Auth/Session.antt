-- ===== src/Auth/Session.antt =====
-- crates/lazybones-auth/src/session.rs, and `require` of crates/lazybones-api/src/extract.rs.
use lazybones.Prelude.{
  ◌≡◌, ◌≢◌, ◌⊎◌, Bool, true, not, String, Option, none, some, List, Outcome, ok, err, if◌then◌else◌,
  arith, ◌==◌, eq_iff,
}
use lazybones.Auth.Capability.{
  Capability, ManagementProfile, holds, loop_grant, management_grant, agent_grant, cap_eq, sync,
  author, document, block, memorize, read, heartbeat,
}

pub data AuthError : Type 0 where
  missing_capability wrong_task : String → AuthError

pub record ScopedSession : Type 0 where
  pub actor : String
  pub task : Option String
  pub grants : List Capability

unfoldable pub for_loop : String → ScopedSession
unfolding loop_grant
for_loop a = record { actor = a; task = none; grants = loop_grant }

unfoldable pub for_management : String → ManagementProfile → ScopedSession
unfolding management_grant
for_management a profile = record { actor = a; task = none; grants = management_grant profile }

unfoldable pub for_agent : (actor task : String) → ScopedSession
unfolding agent_grant
for_agent a t = record { actor = a; task = some t; grants = agent_grant }

unfoldable pub can : ScopedSession → Capability → Bool
unfolding holds
can s cap = holds s.grants cap

unfoldable pub may_act_on : ScopedSession → String → Bool
may_act_on s id = elim s.task [ none ↦ true | some bound ↦ bound == id ]

-- The capability is tested first, then the task.
unfoldable pub require :
    ScopedSession → Capability → (name id : String) → Outcome AuthError (Unit {0})
unfolding can may_act_on
require s cap name id =
    if not (can s cap)
    then err (missing_capability name)
    else if not (may_act_on s id)
    then err (wrong_task id)
    else ok tt

-- The ways in which a session comes about.
pub data Session : Type 0 where
  of_loop : (actor : String) → Session
  of_manager : (actor : String) → ManagementProfile → Session
  of_agent : (actor task : String) → Session

abbrev pub opened : Session → ScopedSession
opened (of_loop a) = for_loop a
opened (of_manager a profile) = for_management a profile
opened (of_agent a t) = for_agent a t

-- What a session that is not the loop's may at most do, and on which task.
abbrev pub Scope : Session → Capability → String → Type 0
Scope (of_loop a) cap id = Unit
Scope (of_manager a profile) cap id =
    (cap ≡ read) ⊎ ((cap ≡ author) ⊎ ((cap ≡ document) ⊎ (cap ≡ block)))
Scope (of_agent a t) cap id =
    (t ≡ id)
    × ((cap ≡ heartbeat)
        ⊎ ((cap ≡ Capability.done) ⊎ ((cap ≡ block) ⊎ ((cap ≡ memorize) ⊎ (cap ≡ read)))))

-- A request that passes is within the scope of its session: that of a manager only reads, authors,
-- publishes documents and blocks; that of an agent only drives its own task, blocks, memorizes and
-- reads, and never touches another task. So syncs, claims, secrets and extensions are the loop's.
pub require-Scope :
    (s : Session) (cap : Capability) (name id : String)
    → require (opened s) cap name id ≡ ok tt
    → Scope s cap id
unfolding require can may_act_on holds cap_eq management_grant agent_grant for_loop for_management
    for_agent
require-Scope (of_loop a) cap name id h = tt
require-Scope (of_manager a ManagementProfile.read_only) cap name id h = ground arith
require-Scope (of_manager a ManagementProfile.author_only) cap name id h = ground arith
require-Scope (of_manager a ManagementProfile.author_and_manage) cap name id h = ground arith
require-Scope (of_agent a t) cap name id h = ground (arith, eq_iff t id)

-- The loop passes for every capability and task, and a missing capability is reported before a
-- wrong task.
pub require-for_loop :
    (a : String) (cap : Capability) (name id : String) (s : ScopedSession)
    → (require (for_loop a) cap name id ≡ ok tt)
      × ((can s cap ≡ true) ⊎ (require s cap name id ≡ err (missing_capability name)))
      × ((may_act_on s id ≡ true) ⊎ (require s cap name id ≢ ok tt))
unfolding require can may_act_on holds cap_eq loop_grant for_loop
require-for_loop a sync name id s = ground arith
require-for_loop a cap name id s = ground arith
