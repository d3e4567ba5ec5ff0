-- ===== src/Ext/Breaker/History.antt =====
-- The breaker against the history of its calls: what it counts, when it trips, and how often it
-- raises an alert.
use lazybones.Prelude.{
  ℕ, ◌+◌, ◌≤◌, ◌≡◌, refl, Bool, false, ◌&&◌, ◌||◌, String, Option, none, some, List, [], ◌∷◌, arith,
  if◌then◌else◌, leb, saturating_succ, ◌==◌, eq_iff,
}
use lazybones.Ext.Breaker.{
  BreakerAlert, CircuitBreaker, new, record_failure, record_fault, record_rejection, record_success,
  is_tripped, consecutive, reset,
}

-- A call that changes the breaker, for the extension of the given id.
pub data Call : Type 0 where
  fault rejection : (ext_id reason : String) → Call
  success re_enable : (ext_id : String) → Call

-- The alert of a call, if it raises one, and the breaker after it.
unfoldable pub apply : CircuitBreaker → Call → Option BreakerAlert × CircuitBreaker
unfolding record_fault record_rejection record_success reset
apply b (fault id reason) = record_fault b id reason
apply b (rejection id reason) = record_rejection b id reason
apply b (success id) = (none, record_success b id)
apply b (re_enable id) = (none, reset b id)

-- The breaker after a history, whose newest call stands first.
unfoldable pub after : ℕ → List Call → CircuitBreaker
unfolding apply
after threshold [] = new threshold
after threshold (c ∷ history) = (apply (after threshold history) c).1

-- The failures of an extension since its last success or re-enabling.
unfoldable pub streak : String → List Call → ℕ
streak id [] = 0
streak id (fault j r ∷ history) =
    if j == id then saturating_succ (streak id history) else streak id history
streak id (rejection j r ∷ history) =
    if j == id then saturating_succ (streak id history) else streak id history
streak id (success j ∷ history) = let rest = streak id history in if j == id then 0 else rest
streak id (re_enable j ∷ history) = let rest = streak id history in if j == id then 0 else rest

-- Some streak since the last re-enabling reached the threshold.
unfoldable pub has_tripped : ℕ → String → List Call → Bool
unfolding streak
has_tripped n id [] = false
has_tripped n id (fault j r ∷ history) =
    has_tripped n id history || (j == id && leb n (streak id (fault j r ∷ history)))
has_tripped n id (rejection j r ∷ history) =
    has_tripped n id history || (j == id && leb n (streak id (rejection j r ∷ history)))
has_tripped n id (success j ∷ history) = has_tripped n id history
has_tripped n id (re_enable j ∷ history) =
    let rest = has_tripped n id history in if j == id then false else rest

threshold-after : (n : ℕ) (history : List Call) → 1 ≤ n → (after n history).threshold ≡ n
unfolding after new record_failure
threshold-after n [] h = ground arith
threshold-after n (fault j r ∷ history) h = threshold-after n history h
threshold-after n (rejection j r ∷ history) h = threshold-after n history h
threshold-after n (success j ∷ history) h = ground (arith, threshold-after n history h)
threshold-after n (re_enable j ∷ history) h = threshold-after n history h

-- After any history of calls the breaker counts the failures of each extension since its last
-- success or re-enabling, and has tripped exactly those with a streak that reached the threshold
-- since their last re-enabling; the calls for one extension do not touch another.
pub after-streak :
    (n : ℕ) (id : String) (history : List Call)
    → 1 ≤ n
    → (consecutive (after n history) id ≡ streak id history)
      × (is_tripped (after n history) id ≡ has_tripped n id history)
unfolding after new record_failure streak has_tripped consecutive is_tripped
after-streak n id [] h = (refl, refl)
after-streak n id (fault j r ∷ history) h =
    ground (arith, after-streak n id history h, threshold-after n history h, eq_iff j id)
after-streak n id (rejection j r ∷ history) h =
    ground (arith, after-streak n id history h, threshold-after n history h, eq_iff j id)
after-streak n id (success j ∷ history) h = ground (arith, after-streak n id history h, eq_iff j id)
after-streak n id (re_enable j ∷ history) h =
    ground (arith, after-streak n id history h, eq_iff j id)

-- One if the call is for the extension and raises an alert.
abbrev pub alert_of : String → Option BreakerAlert → ℕ
alert_of id none = 0
alert_of id (some a) = if a.ext_id == id then 1 else 0

abbrev pub re_enables : String → Call → Bool
re_enables id (re_enable j) = j == id
re_enables id _ = false

-- The alerts for an extension since its last re-enabling.
unfoldable pub raised : ℕ → String → List Call → ℕ
unfolding after
raised n id [] = 0
raised n id (c ∷ history) =
    let rest = raised n id history in
    if re_enables id c then 0 else rest + alert_of id (apply (after n history) c).0

raised-cons :
    (n : ℕ) (id : String) (c : Call) (history : List Call)
    → 1 ≤ n
    → raised n id history ≡ (if has_tripped n id history then 1 else 0)
    → raised n id (c ∷ history) ≡ (if has_tripped n id (c ∷ history) then 1 else 0)
unfolding raised has_tripped apply record_failure streak is_tripped consecutive
raised-cons n id (fault j r) history h e = ground (
  arith,
  after-streak n j history h,
  after-streak n id history h,
  threshold-after n history h,
  eq_iff j id,
)
raised-cons n id (rejection j r) history h e = ground (
  arith,
  after-streak n j history h,
  after-streak n id history h,
  threshold-after n history h,
  eq_iff j id,
)
raised-cons n id (success j) history h e = ground arith
raised-cons n id (re_enable j) history h e = ground (arith, eq_iff j id)

-- Since its last re-enabling an extension raised one alert if it has tripped, and else none.
pub raised-has_tripped :
    (n : ℕ) (id : String) (history : List Call)
    → 1 ≤ n
    → raised n id history ≡ (if has_tripped n id history then 1 else 0)
unfolding raised has_tripped
raised-has_tripped n id [] h = refl
raised-has_tripped n id (c ∷ history) h =
    raised-cons n id c history h (raised-has_tripped n id history h)
