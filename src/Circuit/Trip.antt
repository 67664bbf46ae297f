-- ===== src/Circuit/Trip.antt =====
-- When the breaker opens, and that it fails fast until its timeout.
use shadowmesh.Base.{
  ◌%◌, if◌then◌else◌, ℕ, ◌+◌, ◌^◌, ◌≤◌, ◌<◌, ◌≡◌, refl, true, false, some, List, [], ◌∷◌, arith,
  All, all, length, Bool, not, Bool-cases, inl, inr, ltb, ltb→lt,
}
use shadowmesh.Circuit.{
  closed, opened, CircuitBreaker, current, allow_request, record_failure, Call, allows, succeeds,
  fails, forces, step, run,
}

-- One failure at each of the times.
unfoldable pub failures : List ℕ → CircuitBreaker → CircuitBreaker
failures [] b = b
failures (t ∷ ts) b = failures ts (record_failure t b)

-- What `allow_request` answered to each call of `allows` in a history.
unfoldable pub answers : CircuitBreaker → List (ℕ × Call) → List Bool
answers b [] = []
answers b ((now, allows) ∷ cs) = (allow_request now b).1 ∷ answers (step b (now, allows)) cs
answers b ((now, succeeds) ∷ cs) = answers (step b (now, succeeds)) cs
answers b ((now, fails) ∷ cs) = answers (step b (now, fails)) cs
answers b ((now, forces) ∷ cs) = answers (step b (now, forces)) cs

-- Reports and requests in a span of time, without `force_close`.
abbrev pub Within : ℕ → ℕ → ℕ × Call → Type 0
Within lo hi (now, forces) = ⊥
Within lo hi (now, c) = (lo ≤ now) × (now < hi)

-- Open, with its last failure at or after `lo`, and `hi` before that failure's timeout.
record IsShut (lo hi : ℕ) (b : CircuitBreaker) : Type 0 where
  opened_now : current b ≡ opened
  last : ℕ
  stamp : b.last_failure_time ≡ some last
  after : lo ≤ last
  timeout : hi ≤ lo + b.reset_timeout

IsShut-step :
    (lo hi : ℕ) (b : CircuitBreaker) (now : ℕ) (c : Call)
    → Within lo hi (now, c)
    → IsShut lo hi b
    → IsShut lo hi (step b (now, c))
unfolding step
IsShut-step lo hi b now allows w h = record {
  opened_now = ground arith;
  last = h.last;
  stamp = ground arith;
  after = h.after;
  timeout = ground arith;
}
IsShut-step lo hi b now succeeds w h = record {
  opened_now = ground arith;
  last = h.last;
  stamp = ground arith;
  after = h.after;
  timeout = ground arith;
}
IsShut-step lo hi b now fails w h = record {
  opened_now = ground arith;
  last = now;
  stamp = ground arith;
  after = w.0;
  timeout = ground arith;
}
IsShut-step lo hi b now forces w h = absurd w

IsShut-refuses :
    (lo hi : ℕ) (b : CircuitBreaker) (now : ℕ)
    → lo ≤ now
    → now < hi
    → IsShut lo hi b
    → (allow_request now b).1 ≡ false
unfolding allow_request
IsShut-refuses lo hi b now w w' h = ground arith

answers-IsShut :
    (lo hi : ℕ) (b : CircuitBreaker) (cs : List (ℕ × Call))
    → All (Within lo hi) cs
    → IsShut lo hi b
    → (all not (answers b cs) ≡ true) × (current (run b cs) ≡ opened)
unfolding answers run
answers-IsShut lo hi b [] w h = (refl, h.opened_now)
answers-IsShut lo hi b ((now, allows) ∷ cs) w h = ground (
  arith,
  IsShut-refuses lo hi b now,
  answers-IsShut lo hi (step b (now, allows)) cs w.1 (IsShut-step lo hi b now allows w.0 h),
)
answers-IsShut lo hi b ((now, succeeds) ∷ cs) w h =
    answers-IsShut lo hi (step b (now, succeeds)) cs w.1 (IsShut-step lo hi b now succeeds w.0 h)
answers-IsShut lo hi b ((now, fails) ∷ cs) w h =
    answers-IsShut lo hi (step b (now, fails)) cs w.1 (IsShut-step lo hi b now fails w.0 h)
answers-IsShut lo hi b ((now, forces) ∷ cs) w h = absurd w.0

-- An open breaker fails fast: from its last failure until the timeout has passed, whatever is
-- requested or reported meanwhile, and in whatever order, no request is let through and the
-- breaker stays open. (Only `force_close` is left out.)
pub open_fails_fast :
    (b : CircuitBreaker) (last : ℕ) (cs : List (ℕ × Call))
    → current b ≡ opened
    → b.last_failure_time ≡ some last
    → All (Within last (last + b.reset_timeout)) cs
    → (all not (answers b cs) ≡ true) × (current (run b cs) ≡ opened)
open_fails_fast b last cs o e w =
    answers-IsShut last (last + b.reset_timeout) b cs w (record {
      opened_now = o;
      last = last;
      stamp = e;
      after = omega arith;
      timeout = omega arith;
    })

failures-opened :
    (b : CircuitBreaker) (ts : List ℕ) → current b ≡ opened → current (failures ts b) ≡ opened
unfolding failures
failures-opened b [] o = o
failures-opened b (t ∷ ts) o =
    failures-opened (record_failure t b) ts (unfold record_failure in ground arith)

module _ (b : CircuitBreaker) (t : ℕ) (c : current b ≡ closed)
    (s : b.failure_threshold < 2 ^ 32) where
  record_failure_below :
      b.failure_count + 1 < b.failure_threshold
      → (current (record_failure t b) ≡ closed)
        × ((record_failure t b).failure_count ≡ b.failure_count + 1)
        × ((record_failure t b).failure_threshold ≡ b.failure_threshold)
  unfolding record_failure
  record_failure_below h = ground arith

  record_failure_at :
      b.failure_count + 1 ≡ b.failure_threshold → current (record_failure t b) ≡ opened
  unfolding record_failure
  record_failure_at h = ground arith

-- The two phases of a run of failures.
failures_cases :
    (b : CircuitBreaker) (ts : List ℕ)
    → current b ≡ closed
    → b.failure_threshold < 2 ^ 32
    → b.failure_count < b.failure_threshold
    → (b.failure_count + length ts < b.failure_threshold
        → (current (failures ts b) ≡ closed)
          × ((failures ts b).failure_count ≡ b.failure_count + length ts))
      × (b.failure_threshold ≤ b.failure_count + length ts → current (failures ts b) ≡ opened)
unfolding failures
failures_cases b [] c s h = ground arith
failures_cases b (t ∷ ts) c s h =
    elim (Bool-cases (ltb (b.failure_count + 1) b.failure_threshold)) [
      | inl below ↦
          let kept = record_failure_below b t c s (ltb→lt _ _ below) in
          ground (arith, failures_cases (record_failure t b) ts kept.0)
      | inr at ↦ ground (arith, record_failure_at b t c s, failures-opened (record_failure t b) ts)
    ]

failure_count-record_failure :
    (t : ℕ) (b : CircuitBreaker)
    → (record_failure t b).failure_count ≡ (b.failure_count + 1) % 2 ^ 32
unfolding record_failure
failure_count-record_failure t b = ground arith

failures-failure_count :
    (b : CircuitBreaker) (ts : List ℕ)
    → b.failure_count < 2 ^ 32
    → (failures ts b).failure_count ≡ (b.failure_count + length ts) % 2 ^ 32
unfolding failures
failures-failure_count b [] h = omega arith
failures-failure_count b (t ∷ ts) h = omega (
  arith,
  failure_count-record_failure t b,
  failures-failure_count (record_failure t b) ts (omega (arith, failure_count-record_failure t b)),
)

-- A closed breaker that has counted fewer failures than its threshold stays closed while the
-- failures reported in a row keep below the threshold, and the failure that reaches it opens the
-- breaker; the count goes on all the while, modulo 2^32.
pub failures-trip :
    (b : CircuitBreaker) (ts : List ℕ)
    → current b ≡ closed
    → b.failure_threshold < 2 ^ 32
    → b.failure_count < b.failure_threshold
    → (current (failures ts b)
        ≡ (if ltb (b.failure_count + length ts) b.failure_threshold then closed else opened))
      × ((failures ts b).failure_count ≡ (b.failure_count + length ts) % 2 ^ 32)
failures-trip b ts c s h =
    let (below, at) = failures_cases b ts c s h in
    (ground (arith, below, at), failures-failure_count b ts (omega arith))
