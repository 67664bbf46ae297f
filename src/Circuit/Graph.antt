-- ===== src/Circuit/Graph.antt =====
-- The state diagram of the breaker, and what holds of every breaker that calls can reach.
use shadowmesh.Base.{
  ℕ, ◌+◌, ◌%◌, ◌^◌, ◌≤◌, ◌<◌, ◌≡◌, ◌≢◌, refl, ◌⊎◌, inr, true, none, some, List, [], ◌∷◌, arith, Str,
}
use shadowmesh.Base.Map.{is_some}
use shadowmesh.Circuit.{
  CircuitState, closed, opened, half_open, CircuitBreaker, new, current, allow_request,
  record_success, Call, allows, succeeds, fails, forces, step, run,
}

-- Why a call moved the state: the guards of the diagram, with the time of the call.
pub data Edge (b : CircuitBreaker) (now : ℕ) : CircuitState → CircuitState → Call → Type 0 where
  stay : {s : CircuitState} {c : Call} → Edge b now s s c
  trip : b.failure_threshold ≤ (b.failure_count + 1) % 2 ^ 32 → Edge b now closed opened fails
  probe :
      (last : ℕ)
      → b.last_failure_time ≡ some last
      → last + b.reset_timeout ≤ now ⊎ (b.reset_timeout ≡ 0)
      → Edge b now opened half_open allows
  recover : Edge b now half_open closed succeeds
  relapse : Edge b now half_open opened fails
  force : {s : CircuitState} → Edge b now s closed forces

ruleset edges = (stay, trip, probe, recover, relapse, force)

-- Every call, in every state, follows an edge of the diagram.
pub step-Edge :
    (b : CircuitBreaker) (now : ℕ) (c : Call) → Edge b now (current b) (current (step b (now, c))) c
unfolding step
step-Edge b now allows = grind (arith, edges)
step-Edge b now succeeds = grind (arith, edges)
step-Edge b now fails = grind (arith, edges)
step-Edge b now forces = grind (arith, edges)

-- What holds of a breaker between two calls.
pub record Inv (b : CircuitBreaker) : Type 0 where
  pub counted : current b ≡ closed → (b.failure_count < b.failure_threshold) ⊎ (b.failure_count ≡ 0)
  pub stamped : current b ≢ closed → is_some b.last_failure_time ≡ true
  pub small : b.failure_threshold < 2 ^ 32

new-Inv :
    (name : Str) (threshold timeout : ℕ) → threshold < 2 ^ 32 → Inv (new name threshold timeout)
unfolding new current
new-Inv name threshold timeout h = record {
  counted = λ e. inr refl;
  stamped = λ e. absurd (e refl);
  small = h;
}

step-Inv : (b : CircuitBreaker) (now : ℕ) (c : Call) → Inv b → Inv (step b (now, c))
unfolding step
step-Inv b now allows v = ground (arith, v.counted, v.stamped)
step-Inv b now succeeds v = ground (arith, v.counted, v.stamped)
step-Inv b now fails v = ground (arith, v.counted, v.stamped)
step-Inv b now forces v = ground (arith, v.counted, v.stamped)

run-Inv : (b : CircuitBreaker) (cs : List (ℕ × Call)) → Inv b → Inv (run b cs)
unfolding run
run-Inv b [] v = v
run-Inv b ((now, c) ∷ cs) v = run-Inv (step b (now, c)) cs (step-Inv b now c v)

-- From when on an open breaker lets a request through: the time of its last failure and the timeout.
abbrev pub deadline : CircuitBreaker → ℕ
deadline b = elim b.last_failure_time [ none ↦ 0 | some t ↦ t + b.reset_timeout ]

-- Past its deadline a breaker lets a request through, and a success then closes it.
allow-deadline :
    (b : CircuitBreaker) (now : ℕ)
    → Inv b
    → deadline b ≤ now
    → ((allow_request now b).1 ≡ true) × (current (record_success (allow_request now b).0) ≡ closed)
unfolding allow_request record_success
allow-deadline b now v h = ground (arith, v.stamped)

-- After any calls on a new breaker whose threshold is a `u32`: while it is closed the failures that
-- are counted stay below the threshold (or there are none), and once it is not closed it has the
-- time of a failure, without which `allow_request` would never leave the open state.
pub run-new-Inv :
    (name : Str) (threshold timeout : ℕ) (cs : List (ℕ × Call))
    → threshold < 2 ^ 32
    → Inv (run (new name threshold timeout) cs)
run-new-Inv name threshold timeout cs h = run-Inv _ cs (new-Inv name threshold timeout h)

-- Recovery: any breaker that calls can reach lets a request through once its timeout has passed
-- since its last failure, whatever state it is in, and a success reported then closes it.
pub recovers :
    (name : Str) (threshold timeout : ℕ) (cs : List (ℕ × Call)) (now : ℕ)
    → threshold < 2 ^ 32
    → deadline (run (new name threshold timeout) cs) ≤ now
    → let b = run (new name threshold timeout) cs in
      ((allow_request now b).1 ≡ true) × (current (record_success (allow_request now b).0) ≡ closed)
recovers name threshold timeout cs now h late =
    allow-deadline _ now (run-new-Inv name threshold timeout cs h) late
