-- ===== src/Circuit/Examples.antt =====
-- The breaker at concrete calls.
use shadowmesh.Base.{ℕ, ◌≡◌, refl, true, List, [], ◌∷◌, arith, bytes, all, not}
use shadowmesh.Circuit.{
  CircuitBreaker, closed, opened, half_open, new, current, allow_request, record_success, Call,
  allows, fails, run,
}
use shadowmesh.Circuit.Graph.{recovers}
use shadowmesh.Circuit.Trip.{failures, failures-trip, answers, open_fails_fast}

abbrev fresh : CircuitBreaker
fresh = new (bytes "ipfs") 3 10

abbrev tripping : List (ℕ × Call)
tripping = (1, fails) ∷ (2, fails) ∷ (3, fails) ∷ []

abbrev tripped : CircuitBreaker
tripped = run fresh tripping

tripped_opens : current tripped ≡ opened
unfolding run new current
tripped_opens = refl

recovery_run : current (run tripped ((12, allows) ∷ (13, allows) ∷ [])) ≡ half_open
unfolding run new current
recovery_run = refl

recovers_example :
    ((allow_request 20 tripped).1 ≡ true)
    × (current (record_success (allow_request 20 tripped).0) ≡ closed)
unfolding run new
recovers_example = recovers (bytes "ipfs") 3 10 tripping 20 (omega arith) (omega arith)

failures-trip_example : current (failures (1 ∷ 2 ∷ 3 ∷ []) fresh) ≡ opened
unfolding new current
failures-trip_example = (failures-trip fresh (1 ∷ 2 ∷ 3 ∷ []) refl (omega arith) (omega arith)).0

open_fails_fast_example :
    all not (answers tripped ((4, allows) ∷ (5, fails) ∷ (12, allows) ∷ [])) ≡ true
unfolding run new current
open_fails_fast_example =
    (open_fails_fast tripped 3 ((4, allows) ∷ (5, fails) ∷ (12, allows) ∷ []) refl refl
      (omega arith)).0
