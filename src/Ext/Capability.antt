-- ===== src/Ext/Capability.antt =====
-- crates/lazybones-ext/src/capability.rs: the host capabilities and the policy of their grants.
use lazybones.Prelude.{
  ◌≡◌, refl, ◌⊎◌, ◌↔◌, inl, Bool, true, false, not, ◌||◌, String, List, [], ◌∷◌, Outcome, ok, err,
  if◌then◌else◌, ◌==◌, All, arith,
}

pub data Capability : Type 0 where
  log store_read http_fetch store_write secrets_read kv emit_event : Capability

pub Capability-discrete : Discrete Capability
Capability-discrete = hlevel

pub data CapabilityError : Type 0 where
  unknown : String → CapabilityError

pub data GrantError : Type 0 where
  not_requested deferred : Capability → GrantError

unfoldable pub as_str : Capability → String
as_str log = "log"
as_str store_read = "store-read"
as_str http_fetch = "http-fetch"
as_str store_write = "store-write"
as_str secrets_read = "secrets-read"
as_str kv = "kv"
as_str emit_event = "emit-event"

unfoldable pub parse : String → Outcome CapabilityError Capability
parse s =
    if s == "log"
    then ok log
    else if s == "store-read"
    then ok store_read
    else if s == "http-fetch"
    then ok http_fetch
    else if s == "store-write"
    then ok store_write
    else if s == "secrets-read"
    then ok secrets_read
    else if s == "kv"
    then ok kv
    else if s == "emit-event"
    then ok emit_event
    else err (unknown s)

-- Whether the capability is wired, so that it may be requested and granted.
unfoldable pub is_available : Capability → Bool
is_available log = true
is_available store_read = true
is_available http_fetch = true
is_available _ = false

unfoldable pub is_always_granted : Capability → Bool
is_always_granted log = true
is_always_granted _ = false

-- `==` of the derived `PartialEq`.
unfoldable pub cap_eq : Capability → Capability → Bool
cap_eq log log = true
cap_eq store_read store_read = true
cap_eq http_fetch http_fetch = true
cap_eq store_write store_write = true
cap_eq secrets_read secrets_read = true
cap_eq kv kv = true
cap_eq emit_event emit_event = true
cap_eq _ _ = false

-- `slice::contains`
abbrev pub has_cap : List Capability → Capability → Bool
has_cap [] c = false
has_cap (x ∷ xs) c = cap_eq x c || has_cap xs c

-- The first granted capability that breaks the policy is the error.
unfoldable pub validate_grant :
    (requested granted : List Capability) → Outcome GrantError (Unit {0})
unfolding is_always_granted is_available
validate_grant requested [] = ok tt
validate_grant requested (cap ∷ granted) =
    let rest = validate_grant requested granted in
    if is_always_granted cap
    then rest
    else if not (is_available cap)
    then err (deferred cap)
    else if not (has_cap requested cap)
    then err (not_requested cap)
    else rest

-- A wire string that parses is that of the capability, and every capability has one.
pub parse-as_str : (c : Capability) → parse (as_str c) ≡ ok c
unfolding parse as_str
parse-as_str log = refl
parse-as_str _ = refl

-- What the policy asks of one granted capability.
abbrev pub IsGrantable : List Capability → Capability → Type 0
IsGrantable requested c =
    (c ≡ log) ⊎ (((c ≡ store_read) ⊎ (c ≡ http_fetch)) × (has_cap requested c ≡ true))

IsGrantable-head :
    (requested granted : List Capability) (c : Capability)
    → (validate_grant requested (c ∷ granted) ≡ ok tt)
      ↔ (IsGrantable requested c × (validate_grant requested granted ≡ ok tt))
unfolding validate_grant
IsGrantable-head requested granted log = (λ h. (inl refl, h), λ h. h.1)
IsGrantable-head requested granted c = (λ h. ground arith, λ h. ground arith)

-- A grant is accepted exactly if each granted capability is `log`, or is one of the two that are
-- wired and was requested.
pub validate_grant_iff :
    (requested granted : List Capability)
    → (validate_grant requested granted ≡ ok tt) ↔ All (IsGrantable requested) granted
unfolding validate_grant
validate_grant_iff requested [] = (λ h. tt, λ h. refl)
validate_grant_iff requested (c ∷ granted) =
    let head = IsGrantable-head requested granted c in
    let tail = validate_grant_iff requested granted in
    (λ h. ((head.0 h).0, tail.0 ((head.0 h).1)), λ h. head.1 (h.0, tail.1 (h.1)))
