-- ===== src/Ext/Tests/Guards.antt =====
-- The breaker, the cycle guard and the policy of grants.
use lazybones.Prelude.{
  ◌≡◌, ◌≤◌, ◌↔◌, ◌⊎◌, refl, true, String, none, List, [], ◌∷◌, ◌++◌, arith, All, if◌then◌else◌, ok,
  replicate,
}
use lazybones.Ext.Breaker.{is_tripped, consecutive}
use lazybones.Ext.Breaker.History.{
  Call, fault, rejection, success, re_enable, after, streak, has_tripped, raised, after-streak,
  raised-has_tripped,
}
use lazybones.Ext.Cycle.{
  CycleConfig, CycleGuard, host, descend, admit, default_config, allow_emit_at,
}
use lazybones.Ext.Cycle.Chains.{Chain, root, react, Chain-bounded}
use lazybones.Ext.Cycle.Rate.{allowed, allowed-le-emits, allowed-two_windows, allow_emit_at-other}
use lazybones.Ext.Capability
use lazybones.Ext.Capability.{Capability, validate_grant, validate_grant_iff, IsGrantable}

abbrev calls : List Call
calls =
    fault "a" "trap"
    ∷ fault "b" "trap"
    ∷ rejection "a" "signature"
    ∷ success "a"
    ∷ re_enable "a"
    ∷ fault "a" "trap"
    ∷ fault "a" "trap"
    ∷ []

after-streak_example :
    (consecutive (after 2 calls) "a" ≡ streak "a" calls)
    × (is_tripped (after 2 calls) "a" ≡ has_tripped 2 "a" calls)
after-streak_example = after-streak 2 "a" calls (omega arith)

-- Two failures since the success, and a trip since the re-enabling.
streak_of_calls : (streak "a" calls ≡ 2) × (has_tripped 2 "a" calls ≡ true)
unfolding streak has_tripped
streak_of_calls = (refl, refl)

raised-has_tripped_example : raised 2 "a" calls ≡ (if has_tripped 2 "a" calls then 1 else 0)
raised-has_tripped_example = raised-has_tripped 2 "a" calls (omega arith)

abbrev default_guard : CycleGuard
default_guard = record { cfg = default_config; rate = λ id. none }

two_steps : Chain default_guard (descend (descend host "a") "b") 2
unfolding host descend admit
two_steps = react "b" (react "a" root refl) refl

Chain-bounded_example : 2 ≤ 4
Chain-bounded_example =
    Chain-bounded default_guard (descend (descend host "a") "b") 2 (omega arith) two_steps

abbrev small : CycleConfig
small = record { max_depth = 4; max_self_reentry = 1; emits_per_window = 2; window = 10 }

allowed-le-emits_example :
    allowed small (record { window_start = 100; count = 0 }) (100 ∷ 103 ∷ 104 ∷ 109 ∷ []) ≤ 2
allowed-le-emits_example =
    allowed-le-emits small 100 (100 ∷ 103 ∷ 104 ∷ 109 ∷ [])
      (omega arith, (omega arith, (omega arith, (omega arith, tt))))

allowed-two_windows_example :
    allowed small (record { window_start = 100; count = 0 }) (replicate 2 109 ++ replicate 2 110)
    ≡ 4
allowed-two_windows_example = allowed-two_windows small 100 (omega arith)

abbrev notes_id : String
notes_id = "a"

allow_emit_at-other_example :
    notes_id ≡ "b" ⊎ ((allow_emit_at default_guard "a" 100).1.rate "b" ≡ default_guard.rate "b")
allow_emit_at-other_example = allow_emit_at-other default_guard notes_id "b" 100

abbrev asked : List Capability
asked = Capability.store_read ∷ Capability.http_fetch ∷ []

validate_grant_iff_example :
    (validate_grant asked (Capability.log ∷ Capability.kv ∷ []) ≡ ok tt)
    ↔ All (IsGrantable asked) (Capability.log ∷ Capability.kv ∷ [])
validate_grant_iff_example = validate_grant_iff asked (Capability.log ∷ Capability.kv ∷ [])

parse-as_str_example : Capability.parse (Capability.as_str Capability.kv) ≡ ok Capability.kv
parse-as_str_example = Capability.parse-as_str Capability.kv
