-- ===== src/RateLimit/Client.antt =====
-- One client under a run of requests.
use shadowmesh.Base.{
  ℕ, ◌+◌, ◌-◌, ◌*◌, ◌%◌, ◌^◌, ◌≤◌, ◌<◌, ◌≡◌, refl, ap, Option, List, [], ◌∷◌, arith, if◌then◌else◌,
  length,
}
use shadowmesh.Base.Map.{is_some}
use shadowmesh.RateLimit.{
  as_millis, ClientLimit, tokens_to_add, replenish, reset_window, admit, check_client,
}

-- The client after requests at these times, and how many of them were let through.
unfoldable pub requests : ℕ → ℕ → ℕ → List ℕ → ClientLimit → ClientLimit × ℕ
requests max_requests burst_size window [] c = (c, 0)
requests max_requests burst_size window (now ∷ ts) c =
    let (c', wait) = check_client now max_requests burst_size window c in
    let (c'', n) = requests max_requests burst_size window ts c' in
    (c'', if is_some wait then n else n + 1)

mul_mono : (a b c : ℕ) → a ≤ b → a * c ≤ b * c
mul_mono a b c h = grind (arith, h)

add_split : (x y z b : ℕ) → x ≡ y + z → x * b ≡ y * b + z * b
add_split x y z b e = omega (arith, ap (λ (t : ℕ). t * b) e)

module _ (e b : ℕ) where
  millis_mono : as_millis e % 2 ^ 32 * b ≤ as_millis e * b
  millis_mono = mul_mono (as_millis e % 2 ^ 32) (as_millis e) b (omega arith)

  nanos_mono : 1_000_000 * (as_millis e * b) ≤ e * b
  nanos_mono = omega (arith, mul_mono (1_000_000 * as_millis e) e b (omega arith))

  -- What is replenished is at most `burst_size` tokens a second, wrapped products included.
  tokens_bound : 1_000_000_000 * tokens_to_add e b ≤ e * b
  tokens_bound = omega (arith, millis_mono, nanos_mono)

-- Times that go on from `last` and stay in the window that began at `start`.
abbrev pub InWindow : ℕ → ℕ → ℕ → List ℕ → Type 0
InWindow start window last [] = Unit
InWindow start window last (t ∷ ts) = (last ≤ t) × (t ≤ start + window) × InWindow start window t ts

-- What the client may still use in its window, in billionths of a request.
abbrev pub allowance : ℕ → ℕ → ℕ → ClientLimit → ℕ
allowance max_requests burst_size window c =
    1_000_000_000 * (max_requests - c.count + c.burst_tokens)
    + (c.window_start + window - c.last_request) * burst_size

module _ (max_requests burst_size window : ℕ) where
  abbrev checked : ℕ → ClientLimit → ClientLimit × Option ℕ
  checked now c = check_client now max_requests burst_size window c

  replenish_lem :
      (now : ℕ) (c : ClientLimit)
      → c.last_request ≤ now
      → now ≤ c.window_start + window
      → (allowance max_requests burst_size window (replenish now burst_size c)
          ≤ allowance max_requests burst_size window c)
        × ((replenish now burst_size c).window_start ≡ c.window_start)
        × ((replenish now burst_size c).last_request ≡ now)
        × ((replenish now burst_size c).count ≡ c.count)
  unfolding replenish
  replenish_lem now c before within =
      let gain = tokens_bound (now - c.last_request) burst_size in
      let split =
        add_split (c.window_start + window - c.last_request) (c.window_start + window - now)
          (now - c.last_request) burst_size (omega arith) in
      (ground (arith, gain, split), refl, refl, refl)

  admit_lem :
      (now : ℕ) (c : ClientLimit)
      → c.count + 1 < 2 ^ 64
      → let (c', wait) = admit now max_requests window c in
        (allowance max_requests burst_size window c' + (if is_some wait then 0 else 1_000_000_000)
          ≤ allowance max_requests burst_size window c)
        × (c'.window_start ≡ c.window_start)
        × (c'.last_request ≡ c.last_request)
        × (c'.count ≤ c.count + 1)
  unfolding admit
  admit_lem now c small = ground arith

  -- Within a window a request that is let through uses up one request of the allowance.
  checked_lem :
      (now : ℕ) (c : ClientLimit)
      → c.last_request ≤ now
      → now ≤ c.window_start + window
      → c.count + 1 < 2 ^ 64
      → let (c', wait) = checked now c in
        (allowance max_requests burst_size window c' + (if is_some wait then 0 else 1_000_000_000)
          ≤ allowance max_requests burst_size window c)
        × (c'.window_start ≡ c.window_start)
        × (c'.last_request ≡ now)
        × (c'.count ≤ c.count + 1)
  unfolding check_client reset_window
  checked_lem now c before within small =
      let (lower, start, last, count) = replenish_lem now c before within in
      ground (arith, lower, start, last, count, admit_lem now (replenish now burst_size c))

  -- Within one window, at most so many requests are let through: what the limit leaves, the burst
  -- tokens at hand, and `burst_size` tokens a second for the time from the last request to the end
  -- of the window. (Times do not go back, and the `u64` count does not wrap.)
  pub requests_bound :
      (ts : List ℕ) (c : ClientLimit)
      → InWindow c.window_start window c.last_request ts
      → c.count + length ts < 2 ^ 64
      → 1_000_000_000 * (requests max_requests burst_size window ts c).1
        ≤ allowance max_requests burst_size window c
  unfolding requests
  requests_bound [] c w small = omega arith
  requests_bound (t ∷ ts) c w small =
      let c' = (checked t c).0 in
      let (used, start, last, count) = checked_lem t c w.0 w.1 (omega arith) in
      let later : InWindow c'.window_start window c'.last_request ts = rw (start, last) w.2 in
      let rest = requests_bound ts c' later (omega arith) in ground (arith, used, rest)

-- Each request comes so soon after the one before that no whole token is earned in between.
abbrev pub IsHasty : ℕ → ℕ → List ℕ → Type 0
IsHasty burst_size last [] = Unit
IsHasty burst_size last (t ∷ ts) =
    (as_millis (t - last) * burst_size < 1000) × IsHasty burst_size t ts

module _ (max_requests burst_size window : ℕ) where
  hasty_tokens : (e : ℕ) → as_millis e * burst_size < 1000 → tokens_to_add e burst_size ≡ 0
  hasty_tokens e h = omega (arith, millis_mono e burst_size)

  hasty_lem :
      (now : ℕ) (c : ClientLimit)
      → as_millis (now - c.last_request) * burst_size < 1000
      → let c' = (check_client now max_requests burst_size window c).0 in
        (c'.burst_tokens ≤ c.burst_tokens) × (c'.last_request ≡ now)
  unfolding check_client replenish reset_window admit
  hasty_lem now c h = ground (arith, hasty_tokens (now - c.last_request) h)

  -- A client whose requests each come within a token's time of the one before never earns a token
  -- back, however long this goes on: the fraction earned in between is dropped at each request.
  pub requests_starve :
      (ts : List ℕ) (c : ClientLimit)
      → IsHasty burst_size c.last_request ts
      → (requests max_requests burst_size window ts c).0.burst_tokens ≤ c.burst_tokens
  unfolding requests
  requests_starve [] c h = omega arith
  requests_starve (t ∷ ts) c h =
      let c' = (check_client t max_requests burst_size window c).0 in
      let (fewer, last) = hasty_lem t c h.0 in
      let later : IsHasty burst_size c'.last_request ts = rw last h.1 in
      omega (arith, fewer, requests_starve ts c' later)
