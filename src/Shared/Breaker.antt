-- ===== src/Shared/Breaker.antt =====
-- `CircuitBreaker` of shared/infrastructure/circuit_breaker.py, over its four keys in Redis. The clock
-- counts seconds and is read at each step; the call that is guarded is given by its outcome.
pub mod Trips
use cadencia_platform.Base.{
  ℕ, ◌+◌, ◌≡◌, ◌<◌, ◌≤◌, Bool, true, false, Option, none, some, leb, ltb, if◌then◌else◌, arith, ok,
  err, circuit_open, internal_error, Action, ◌>>=◌, ◌>>◌, raise,
}

-- OPEN is `tripped`.
pub data CircuitState : Type 0 where
  closed tripped half_open : CircuitState

-- The values of the keys; a counter without a value counts from 0.
pub record Keys : Type 0 where
  pub state : Option CircuitState
  pub failures : ℕ
  pub last_failure : Option ℕ
  pub successes : ℕ

pub record Config : Type 0 where
  pub failure_threshold : ℕ
  pub recovery_timeout : ℕ
  pub success_threshold : ℕ

-- `elapsed > recovery_timeout`, of the reading `now` and the last failure.
has_recovered : Config → ℕ → Option ℕ → Bool
has_recovered c now none = false
has_recovered c now (some t) = ltb (t + c.recovery_timeout) now

unfoldable pub get_state : Config → ℕ → Action Keys CircuitState
unfolding has_recovered
get_state c now k = elim k.state [
  | none ↦ (ok CircuitState.closed, k)
  | some CircuitState.closed ↦ (ok CircuitState.closed, k)
  | some CircuitState.half_open ↦ (ok CircuitState.half_open, k)
  | some CircuitState.tripped ↦
      if has_recovered c now k.last_failure
      then (ok CircuitState.half_open, record k { state = some CircuitState.half_open })
      else (ok CircuitState.tripped, k)
]

unfoldable pub on_failure : Config → ℕ → Action Keys (Unit {0})
on_failure c now k =
    let k' = record k { failures = k.failures + 1; last_failure = some now } in
    (
      ok tt,
      if leb c.failure_threshold (k.failures + 1)
          then record k' { state = some CircuitState.tripped }
          else k',
    )

unfoldable pub succeed : Config → CircuitState → Action Keys (Unit {0})
succeed c CircuitState.tripped k = (ok tt, k)
succeed c CircuitState.closed k = (ok tt, record k { failures = 0 })
succeed c CircuitState.half_open k = (
  ok tt,
  if leb c.success_threshold (k.successes + 1)
      then record k { state = some CircuitState.closed; failures = 0; successes = 0 }
      else record k { successes = k.successes + 1 },
)

unfoldable pub on_success : Config → ℕ → Action Keys (Unit {0})
unfolding get_state succeed
on_success c now = get_state c now >>= succeed c

unfoldable pub attempt : Config → (now : ℕ) → Bool → CircuitState → Action Keys (Unit {0})
unfolding on_success on_failure
attempt c now works CircuitState.tripped = raise circuit_open
attempt c now true CircuitState.closed = on_success c now
attempt c now true CircuitState.half_open = on_success c now
attempt c now false CircuitState.closed = on_failure c now >> raise internal_error
attempt c now false CircuitState.half_open = on_failure c now >> raise internal_error

-- `call` of a coroutine that returns, or raises.
unfoldable pub call : Config → (now : ℕ) → (works : Bool) → Action Keys (Unit {0})
unfolding attempt get_state
call c now works = get_state c now >>= attempt c now works

unfoldable pub reset : Action Keys (Unit {0})
reset k = (ok tt, record { state = none; failures = 0; last_failure = none; successes = 0 })

-- While the circuit is open and the recovery time has not passed since the last failure, a call is
-- refused, whatever the service would answer, and the keys stay.
pub call_open :
    (c : Config) (now t : ℕ) (works : Bool) (k : Keys)
    → k.state ≡ some CircuitState.tripped
    → k.last_failure ≡ some t
    → now ≤ t + c.recovery_timeout
    → call c now works k ≡ (err circuit_open, k)
unfolding call get_state attempt has_recovered
call_open c now t works k h l late = ground arith

-- A failing call on a closed circuit raises the service's exception, counts, notes the time, and trips
-- the circuit exactly when the failures reach the threshold.
call_failed :
    (c : Config) (now : ℕ) (k : Keys)
    → k.state ≡ some CircuitState.closed
    → let (r, k') = call c now false k in
      (r ≡ err internal_error)
      × (k'.failures ≡ k.failures + 1)
      × (k'.last_failure ≡ some now)
      × (k'.state ≡ (
          if leb c.failure_threshold (k.failures + 1)
          then some CircuitState.tripped
          else some CircuitState.closed))
unfolding call get_state attempt on_failure
call_failed c now k h = ground arith

-- The successes of a trial survive its failure. Take a trial two successes short of the threshold, with
-- the failures at theirs: a success, a failure that trips the circuit and, after the recovery time, one
-- success alone close it.
successes_survive :
    (c : Config) (t now later : ℕ) (k : Keys)
    → k.state ≡ some CircuitState.half_open
    → k.successes + 2 ≡ c.success_threshold
    → c.failure_threshold ≤ k.failures
    → now + c.recovery_timeout < later
    → let first = (call c t true k).1 in
      let failed = (call c now false first).1 in
      let (r, last) = call c later true failed in
      (failed.state ≡ some CircuitState.tripped)
      × (r ≡ ok tt)
      × (last.state ≡ some CircuitState.closed)
unfolding call get_state attempt on_failure on_success succeed has_recovered
successes_survive c t now later k h successes failures late = ground arith
