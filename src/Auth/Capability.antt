-- ===== src/Auth/Capability.antt =====
-- crates/lazybones-auth/src/capability.rs: what a session may do, by its kind.
use lazybones.Prelude.{Bool, true, false, ◌||◌, List, [], ◌∷◌}

pub data ManagementProfile : Type 0 where
  read_only author_only author_and_manage : ManagementProfile

pub data Capability : Type 0 where
  sync claim heartbeat done block memorize read secret author document extension : Capability

-- `==` of the derived `PartialEq`.
unfoldable pub cap_eq : Capability → Capability → Bool
cap_eq sync sync = true
cap_eq claim claim = true
cap_eq heartbeat heartbeat = true
cap_eq done done = true
cap_eq block block = true
cap_eq memorize memorize = true
cap_eq read read = true
cap_eq secret secret = true
cap_eq author author = true
cap_eq document document = true
cap_eq extension extension = true
cap_eq _ _ = false

-- `HashSet::contains`
unfoldable pub holds : List Capability → Capability → Bool
unfolding cap_eq
holds [] cap = false
holds (c ∷ cs) cap = cap_eq c cap || holds cs cap

unfoldable pub loop_grant : List Capability
loop_grant =
    sync ∷ claim ∷ heartbeat ∷ done ∷ block ∷ memorize ∷ read ∷ secret ∷ author ∷ document
    ∷ extension ∷ []

unfoldable pub management_grant : ManagementProfile → List Capability
management_grant read_only = read ∷ []
management_grant author_only = read ∷ author ∷ document ∷ []
management_grant author_and_manage = read ∷ author ∷ document ∷ block ∷ []

unfoldable pub agent_grant : List Capability
agent_grant = heartbeat ∷ done ∷ block ∷ memorize ∷ read ∷ []
