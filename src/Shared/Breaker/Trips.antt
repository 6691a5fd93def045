-- ===== src/Shared/Breaker/Trips.antt =====
-- The failures after a `reset` in shared/infrastructure/circuit_breaker.py: when they trip the circuit, and
-- what is refused then.
use cadencia_platform.Base.{
  ℕ, ◌+◌, ◌≡◌, ◌<◌, ◌≤◌, Bool, false, none, some, List, [], ◌∷◌, length, arith, ok, err,
  circuit_open, refl,
}
use cadencia_platform.Shared.Breaker.{
  CircuitState, Keys, Config, get_state, attempt, on_failure, call, call_open, reset,
}

-- The keys after calls that all fail, at the readings of the clock.
unfoldable pub fail_at : Config → List ℕ → Keys → Keys
unfolding call
fail_at c [] k = k
fail_at c (t ∷ ts) k = fail_at c ts (call c t false k).1

-- A failure below the threshold is counted, and the circuit has no state yet.
failure_counted :
    (c : Config) (t : ℕ) (k : Keys)
    → k.state ≡ none
    → k.failures + 1 < c.failure_threshold
    → let k' = (call c t false k).1 in (k'.state ≡ none) × (k'.failures ≡ k.failures + 1)
unfolding call get_state attempt on_failure
failure_counted c t k h below = ground arith

failures_counted :
    (c : Config) (ts : List ℕ) (k : Keys)
    → k.state ≡ none
    → k.failures + length ts < c.failure_threshold
    → let k' = fail_at c ts k in (k'.state ≡ none) × (k'.failures ≡ k.failures + length ts)
unfolding fail_at
failures_counted c [] k h below = (h, omega arith)
failures_counted c (t ∷ ts) k h below =
    let (s, f) = failure_counted c t k h (omega arith) in
    let (s', f') = failures_counted c ts (call c t false k).1 s (omega (arith, f)) in
    (s', omega (arith, f, f'))

-- The failure that reaches the threshold trips the circuit.
failure_trips :
    (c : Config) (t : ℕ) (k : Keys)
    → k.state ≡ none
    → k.failures + 1 ≡ c.failure_threshold
    → let k' = (call c t false k).1 in
      (k'.state ≡ some CircuitState.tripped) × (k'.last_failure ≡ some t)
unfolding call get_state attempt on_failure
failure_trips c t k h last = ground arith

-- After a reset, the circuit stays closed for as many failures as are below the threshold, and the one
-- that reaches it trips it: until the recovery time after that one has passed every call is refused,
-- whatever the service would answer, and the keys stay.
fail_at-reset :
    (c : Config) (ts : List ℕ) (t now : ℕ) (works : Bool) (k : Keys)
    → length ts < c.failure_threshold
    → now ≤ t + c.recovery_timeout
    → let k' = fail_at c ts (reset k).1 in
      let tripped = (call c t false k').1 in
      (get_state c now k' ≡ (ok CircuitState.closed, k'))
      × (length ts + 1 ≡ c.failure_threshold
          → call c now works tripped ≡ (err circuit_open, tripped))
unfolding reset get_state
fail_at-reset c ts t now works k below soon =
    let (s, f) = failures_counted c ts (reset k).1 refl (omega arith) in
    (
      ground (arith, s),
      λ last.
          let (trip, at) = failure_trips c t _ s (omega (arith, f)) in
          call_open c now t works _ trip at soon,
    )
