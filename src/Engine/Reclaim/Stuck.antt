-- ===== src/Engine/Reclaim/Stuck.antt =====
-- crates/lazybones-engine/src/scheduler/reclaim.rs: which agent of a task is looked at, and when it is
-- stuck at its start.
use Prim.Native.String.{◌++◌ as ◌<>◌}
use lazybones.Prelude.{
  ◌≡◌, ◌≢◌, refl, sym, ap, subst, not, ◌∙◌, ◌↔◌, ◌⊎◌, inl, inr, Bool, true, false, String, Option,
  none, some, List, [], ◌∷◌, arith, any, is_text, is_blank, has_part, eq_iff, Bool-cases,
  if◌then◌else◌,
}
use lazybones.Engine.Reclaim.{HcomAgent, agent_for, is_wedged, launch_block_reason, reason_of}

-- The agent is the first with the tag.
abbrev pub First : String → List HcomAgent → HcomAgent → Type 0
First tag [] a = ⊥
First tag (b ∷ live) a = ((b.tag ≡ some tag) × (b ≡ a)) ⊎ ((b.tag ≢ some tag) × First tag live a)

-- What hcom says of an agent that does not get past its start.
abbrev launch_marks : List String
launch_marks =
    "launch_blocked" ∷ "launch blocked" ∷ "launch_failed" ∷ "screen settled"
    ∷ "settled before readiness" ∷ "exited before startup" ∷ []

abbrev pub IsStuck : (to_lowercase : String → String) → HcomAgent → Type 0
IsStuck to_lowercase a =
    (to_lowercase a.status ≡ "blocked")
    ⊎ (any (has_part (to_lowercase a.detail)) launch_marks ≡ true)

-- The reason names the detail of the agent, or its status where the detail is blank.
abbrev pub Tells : HcomAgent → (reason : String) → Type 0
Tells a reason =
    ((is_blank a.detail ≡ true) × (reason ≡ "launch_blocked: " <> a.status))
    ⊎ ((is_blank a.detail ≡ false) × (reason ≡ "launch_blocked: " <> a.detail))

pub is_text_iff : (t : Option String) (tag : String) → (is_text t tag ≡ true) ↔ (t ≡ some tag)
is_text_iff none tag = (λ h. ground arith, λ h. ground arith)
is_text_iff (some t) tag = (λ h. ground (arith, eq_iff t tag), λ h. ground (arith, eq_iff t tag))

pub is_text-≢ : (t : Option String) (tag : String) → (is_text t tag ≡ false) ↔ (t ≢ some tag)
is_text-≢ t tag = (
  λ h e. ground (arith, (is_text_iff t tag).1 e),
  λ h. elim (Bool-cases (is_text t tag)) [
    | inl same ↦ absurd (h ((is_text_iff t tag).0 same))
    | inr other ↦ other
  ],
)

wedged_iff :
    (to_lowercase : String → String) (a : HcomAgent)
    → (is_wedged to_lowercase a ≡ true) ↔ IsStuck to_lowercase a
unfolding is_wedged
wedged_iff to_lowercase a = (
  λ h. ground (arith, eq_iff (to_lowercase a.status) "blocked"),
  λ h. ground (arith, eq_iff (to_lowercase a.status) "blocked"),
)

-- The search finds the first agent with the tag.
pub agent_for-First :
    (tag : String) (live : List HcomAgent) (a : HcomAgent)
    → (agent_for tag live ≡ some a) ↔ First tag live a
unfolding agent_for
agent_for-First tag [] a = (λ h. ground arith, λ h. absurd h)
agent_for-First tag (b ∷ live) a = elim (Bool-cases (is_text b.tag tag)) [
  | inl same ↦ (
    λ h. inl ((is_text_iff b.tag tag).0 same, ground arith),
    λ h. elim h [
      | inl (tagged, first) ↦ rw same (ap some first)
      | inr (other, later) ↦ absurd (other ((is_text_iff b.tag tag).0 same))
    ],
  )
  | inr other ↦ (
    λ h. inr ((is_text-≢ b.tag tag).0 other, (agent_for-First tag live a).0 (ground arith)),
    λ h. elim h [
      | inl (tagged, first) ↦ absurd ((is_text-≢ b.tag tag).0 other tagged)
      | inr (skipped, later) ↦ rw other ((agent_for-First tag live a).1 later)
    ],
  )
]

-- The text of the reason.
abbrev text_of : HcomAgent → String
text_of a = "launch_blocked: " <> (if is_blank a.detail then a.status else a.detail)

Tells-iff : (a : HcomAgent) (reason : String) → (text_of a ≡ reason) ↔ Tells a reason
Tells-iff a reason = elim (Bool-cases (is_blank a.detail)) [
  | inl blank ↦ (
    λ h. inl (blank, sym h ∙ rw blank refl),
    λ h. elim h [ inl (same, told) ↦ rw blank (sym told) | inr (other, told) ↦ absurd (cc) ],
  )
  | inr said ↦ (
    λ h. inr (said, sym h ∙ rw said refl),
    λ h. elim h [ inl (other, told) ↦ absurd (cc) | inr (same, told) ↦ rw said (sym told) ],
  )
]

-- The reason by the test of a stuck start.
tested_iff :
    (wedged : Bool) (text reason : String)
    → ((if not wedged then none else some text) ≡ some reason) ↔ ((wedged ≡ true) × (text ≡ reason))
tested_iff true text reason = (λ h. (refl, ground arith), λ h. ap some (h.1))
tested_iff false text reason = (λ h. ground arith, λ h. ground arith)

untested_iff :
    (wedged : Bool) (text : String)
    → ((if not wedged then none else some text) ≡ none) ↔ (wedged ≡ false)
untested_iff true text = (λ h. ground arith, λ h. ground arith)
untested_iff false text = (λ h. refl, λ h. refl)

launch_block_reason_iff :
    (to_lowercase : String → String) (a : HcomAgent) (reason : String)
    → (launch_block_reason to_lowercase a ≡ some reason) ↔ (IsStuck to_lowercase a × Tells a reason)
unfolding launch_block_reason
launch_block_reason_iff to_lowercase a reason =
    let tested = tested_iff (is_wedged to_lowercase a) (text_of a) reason in
    let wedged = wedged_iff to_lowercase a in
    let tells = Tells-iff a reason in
    (
      λ h. let both = tested.0 h in (wedged.0 (both.0), tells.0 (both.1)),
      λ h. tested.1 (wedged.1 (h.0), tells.1 (h.1)),
    )

not-IsStuck_iff :
    (to_lowercase : String → String) (a : HcomAgent)
    → (launch_block_reason to_lowercase a ≡ none) ↔ ¬ IsStuck to_lowercase a
unfolding launch_block_reason
not-IsStuck_iff to_lowercase a =
    let untested = untested_iff (is_wedged to_lowercase a) (text_of a) in
    (
      λ h stuck.
          let wedged = (wedged_iff to_lowercase a).1 stuck in
          let starts = untested.0 h in absurd (cc),
      λ h. elim (Bool-cases (is_wedged to_lowercase a)) [
        | inl wedged ↦ absurd (h ((wedged_iff to_lowercase a).0 wedged))
        | inr starts ↦ untested.1 starts
      ],
    )

pub reason_of-none :
    (to_lowercase : String → String) (o : Option HcomAgent)
    → (reason_of to_lowercase o ≡ none) ↔ ((a : HcomAgent) → o ≡ some a → ¬ IsStuck to_lowercase a)
reason_of-none to_lowercase none = (λ h a e. ground arith, λ h. refl)
reason_of-none to_lowercase (some b) = (
  λ h a e.
      let same : b ≡ a = ground arith in
      subst (λ x. ¬ IsStuck to_lowercase x) same ((not-IsStuck_iff to_lowercase b).0 h),
  λ h. (not-IsStuck_iff to_lowercase b).1 (h b refl),
)

pub reason_of-some :
    (to_lowercase : String → String) (o : Option HcomAgent) (reason : String)
    → (reason_of to_lowercase o ≡ some reason)
      ↔ ((a : HcomAgent) × (o ≡ some a) × IsStuck to_lowercase a × Tells a reason)
reason_of-some to_lowercase none reason = (λ h. ground arith, λ (a, e, stuck, tells). ground arith)
reason_of-some to_lowercase (some b) reason = (
  λ h.
      let (stuck, tells) = (launch_block_reason_iff to_lowercase b reason).0 h in
      (b, refl, stuck, tells),
  λ (a, e, stuck, tells).
      let same : b ≡ a = ground arith in
      subst (λ x. launch_block_reason to_lowercase x ≡ some reason) (sym same)
        ((launch_block_reason_iff to_lowercase a reason).1 (stuck, tells)),
)
