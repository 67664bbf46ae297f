-- ===== src/RateLimit/Examples.antt =====
-- The limiter at concrete requests.
use shadowmesh.Base.{
  str_beq, str_beq_iff, false, ℕ, ◌*◌, ◌≤◌, ◌≡◌, ◌≢◌, refl, List, [], ◌∷◌, arith, Str, str_eq,
}
use shadowmesh.RateLimit.{ClientLimit, new_client, replenish, reset_window, admit, check_client}
use shadowmesh.RateLimit.Client.{requests, allowance, requests_bound, requests_starve}

abbrev client : ClientLimit
client = new_client 0 1

abbrev times : List ℕ
times = 1_000 ∷ 2_000 ∷ 3_000 ∷ 4_000 ∷ []

-- Two requests a second and one in a burst: the fourth is refused.
three_pass : (requests 2 1 1_000_000_000 times client).1 ≡ 3
unfolding requests check_client replenish reset_window admit
three_pass = refl

requests_bound_example :
    1_000_000_000 * (requests 2 1 1_000_000_000 times client).1 ≤ allowance 2 1 1_000_000_000 client
requests_bound_example = requests_bound 2 1 1_000_000_000 times client (omega arith) (omega arith)

requests_starve_example :
    (requests 2 1 1_000_000_000 times client).0.burst_tokens ≤ client.burst_tokens
requests_starve_example = requests_starve 2 1 1_000_000_000 times client (omega arith)

ne : (j k : Str) → str_beq j k ≡ false → j ≢ k
ne j k h e = cc (h, (str_beq_iff j k).1 e)
