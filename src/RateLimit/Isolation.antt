-- ===== src/RateLimit/Isolation.antt =====
-- One request against the table of clients.
use shadowmesh.Base.{
  ℕ, ◌≤◌, ◌≡◌, ◌≢◌, refl, Option, none, some, ◌++◌, arith, Str, bytes, str_eq, str_beq_iff, max_ℕ,
}
use shadowmesh.Base.Map
use shadowmesh.Base.Map.{Map, get-insert, get-insert_self}
use shadowmesh.RateLimit.{
  as_secs, ClientLimit, RateLimiter, replenish, reset_window, admit, check_client, entry_or,
  refusal, check_limit, check_rate_limit,
}

-- What a refusal says: the client has used up its requests and its burst tokens, and is asked to
-- wait for at least a second, and no longer than the window.
abbrev pub Refused : ℕ → ℕ → ClientLimit → Option ℕ → Type 0
Refused max_requests window c none = Unit
Refused max_requests window c (some s) =
    (max_requests ≤ c.count) × (c.burst_tokens ≡ 0) × (1 ≤ s) × (s ≤ max_ℕ (as_secs window) 1)

check_client-Refused :
    (now max_requests burst_size window : ℕ) (c : ClientLimit)
    → let (c', wait) = check_client now max_requests burst_size window c in
      (c'.burst_tokens ≤ burst_size) × Refused max_requests window c' wait
unfolding check_client replenish reset_window admit
check_client-Refused now max_requests burst_size window c = ground arith

-- The answer names the client, when it is a refusal.
abbrev pub Answers : ℕ → ℕ → Str → ClientLimit → Option (ℕ × Str) → Type 0
Answers max_requests window id c none = Unit
Answers max_requests window id c (some (s, j)) = (j ≡ id) × Refused max_requests window c (some s)

refusal-Answers :
    (max_requests window : ℕ) (id : Str) (c : ClientLimit) (w : Option ℕ)
    → Refused max_requests window c w
    → Answers max_requests window id c (refusal id w)
unfolding refusal
refusal-Answers max_requests window id c none h = tt
refusal-Answers max_requests window id c (some s) h = (refl, h)

-- A request counts for its own client alone: the entry under its identifier is there afterwards and
-- has no more burst tokens than the limit, and every other client is as before. A refused request
-- names its identifier, and is refused only when the client has used up its requests and its burst
-- tokens; it is asked to wait for at least a second, and no longer than the window.
pub check_limit_lem :
    (now : ℕ) (limits : Map Str ClientLimit) (id : Str) (max_requests burst_size window : ℕ)
    (j : Str)
    → j ≢ id
    → let (limits', answer) = check_limit now limits id max_requests burst_size window in
      (Map.get j limits' ≡ Map.get j limits)
      × ((c : ClientLimit) × (Map.get id limits' ≡ some c)
          × (c.burst_tokens ≤ burst_size)
          × Answers max_requests window id c answer)
unfolding check_limit
check_limit_lem now limits id max_requests burst_size window j n =
    let c = entry_or now burst_size (Map.get id limits) in
    let after = check_client now max_requests burst_size window c in
    let (capped, refused) = check_client-Refused now max_requests burst_size window c in
    (
      ground (arith, get-insert id j after.0 limits, str_beq_iff id j),
      (
        after.0,
        get-insert_self id after.0 limits,
        capped,
        refusal-Answers max_requests window id after.0 after.1 refused,
      ),
    )

-- A request with an API key leaves the limits of the addresses alone, one without leaves those of
-- the keys alone, and either leaves every client alone whose identifier it does not have.
pub check_rate_limit_isolated :
    (hash_key : Str → Str) (now : ℕ) (client_ip key : Str) (l : RateLimiter) (i j : Str)
    → i ≢ bytes "ip:" ++ client_ip
    → j ≢ bytes "key:" ++ hash_key key
    → let keyed = (check_rate_limit hash_key now (some key) client_ip l).0 in
      let plain = (check_rate_limit hash_key now none client_ip l).0 in
      (keyed.ip_limits ≡ l.ip_limits)
      × (Map.get j keyed.key_limits ≡ Map.get j l.key_limits)
      × (plain.key_limits ≡ l.key_limits)
      × (Map.get i plain.ip_limits ≡ Map.get i l.ip_limits)
unfolding check_rate_limit
check_rate_limit_isolated hash_key now client_ip key l i j ni nj = (
  refl,
  (check_limit_lem now l.key_limits _ _ _ _ j nj).0,
  refl,
  (check_limit_lem now l.ip_limits _ _ _ _ i ni).0,
)
