-- ===== src/Ext/Breaker.antt =====
-- crates/lazybones-ext/src/breaker.rs: the circuit breaker of each extension. The mutex serialises
-- the calls, so each one is a step on the map.
pub mod History
use lazybones.Prelude.{
  ℕ, ◌+◌, Bool, true, false, not, ◌&&◌, String, Option, none, some, Map, empty_map, insert, remove,
  if◌then◌else◌, leb, ltb, saturating_succ, unwrap_or,
}

abbrev pub default_threshold : ℕ
default_threshold = 5

pub record BreakerAlert : Type 0 where
  pub ext_id : String
  pub consecutive : ℕ  -- u32
  pub threshold : ℕ  -- u32
  pub last_reason : String

pub record State : Type 0 where
  pub consecutive : ℕ  -- u32
  pub tripped : Bool

-- `State::default()`
abbrev pub fresh : State
fresh = record { consecutive = 0; tripped = false }

pub record CircuitBreaker : Type 0 where
  pub threshold : ℕ  -- u32
  pub state : Map State

-- A threshold of 0 is clamped to 1.
unfoldable pub new : ℕ → CircuitBreaker
new threshold = record { threshold = if leb 1 threshold then threshold else 1; state = empty_map }

-- The state of an extension after one more failure, and whether this one trips it.
unfoldable pub fail : ℕ → State → State × Bool
fail threshold st =
    let consecutive = saturating_succ st.consecutive in
    if not st.tripped && leb threshold consecutive
    then (record { consecutive = consecutive; tripped = true }, true)
    else (record { consecutive = consecutive; tripped = st.tripped }, false)

unfoldable pub record_failure :
    CircuitBreaker → (ext_id reason : String) → Option BreakerAlert × CircuitBreaker
unfolding fail
record_failure b ext_id reason =
    let (st, trips) = fail b.threshold (unwrap_or (b.state ext_id) fresh) in
    (
      if trips
          then some (record {
            ext_id = ext_id;
            consecutive = st.consecutive;
            threshold = b.threshold;
            last_reason = reason;
          })
          else none,
      record b { state = insert ext_id st b.state },
    )

unfoldable pub record_fault :
    CircuitBreaker → (ext_id reason : String) → Option BreakerAlert × CircuitBreaker
unfolding record_failure
record_fault = record_failure

unfoldable pub record_rejection :
    CircuitBreaker → (ext_id reason : String) → Option BreakerAlert × CircuitBreaker
unfolding record_failure
record_rejection = record_failure

-- A success ends the run of failures, and does not take back a trip.
unfoldable pub record_success : CircuitBreaker → String → CircuitBreaker
record_success b ext_id = elim (b.state ext_id) [
  | none ↦ b
  | some st ↦ record b {
    state = insert ext_id (record { consecutive = 0; tripped = st.tripped }) b.state;
  }
]

unfoldable pub is_tripped : CircuitBreaker → String → Bool
is_tripped b ext_id = elim (b.state ext_id) [ none ↦ false | some st ↦ st.tripped ]

unfoldable pub consecutive : CircuitBreaker → String → ℕ
consecutive b ext_id = elim (b.state ext_id) [ none ↦ 0 | some st ↦ st.consecutive ]

unfoldable pub reset : CircuitBreaker → String → CircuitBreaker
reset b ext_id = record b { state = remove ext_id b.state }
