-- ===== src/RateLimit.antt =====
-- gateway/src/rate_limit.rs: the limits for clients known by address and for those with a key.
-- Times and durations are in nanoseconds, the clock of a call is an argument, and `u32` and `u64`
-- sums wrap as in a release build. `duration_since` saturates at 0, as `-` does here.
pub mod Client
pub mod Isolation
mod Examples
use shadowmesh.Base.{
  ℕ, ◌+◌, ◌-◌, ◌*◌, ◌/◌, ◌%◌, ◌^◌, Bool, true, false, Option, none, some, List, [], ◌∷◌, ◌++◌, leb,
  ltb, Str, bytes, str_eq, if◌then◌else◌, min_ℕ, max_ℕ,
}
use shadowmesh.Base.Map
use shadowmesh.Base.Map.{Map}

abbrev pub as_millis : ℕ → ℕ
as_millis ns = ns / 1_000_000

abbrev pub as_secs : ℕ → ℕ
as_secs ns = ns / 1_000_000_000

pub record RateLimitConfig : Type 0 where
  pub ip_requests_per_second : ℕ
  pub key_requests_per_second : ℕ
  pub burst_size : ℕ
  pub window : ℕ

pub record ClientLimit : Type 0 where
  pub count : ℕ
  pub window_start : ℕ
  pub burst_tokens : ℕ
  pub last_request : ℕ

abbrev pub new_client : ℕ → ℕ → ClientLimit
new_client now burst_size = record {
  count = 0;
  window_start = now;
  burst_tokens = burst_size;
  last_request = now;
}

pub record RateLimiter : Type 0 where
  pub ip_limits : Map Str ClientLimit
  pub key_limits : Map Str ClientLimit
  pub config : RateLimitConfig

abbrev pub with_config : RateLimitConfig → RateLimiter
with_config config = record { ip_limits = []; key_limits = []; config = config }

abbrev pub new : ℕ → RateLimiter
new requests_per_second = with_config (record {
  ip_requests_per_second = requests_per_second;
  key_requests_per_second = requests_per_second * 10 % 2 ^ 64;
  burst_size = 50;
  window = 1_000_000_000;
})

-- `elapsed.as_millis() as u32 * burst_size / 1000`
abbrev pub tokens_to_add : ℕ → ℕ → ℕ
tokens_to_add elapsed burst_size = as_millis elapsed % 2 ^ 32 * burst_size % 2 ^ 32 / 1000

unfoldable pub replenish : ℕ → ℕ → ClientLimit → ClientLimit
replenish now burst_size c = record c {
  burst_tokens =
      min_ℕ ((c.burst_tokens + tokens_to_add (now - c.last_request) burst_size) % 2 ^ 32)
        burst_size;
  last_request = now;
}

unfoldable pub reset_window : ℕ → ℕ → ClientLimit → ClientLimit
reset_window now window c =
    if ltb window (now - c.window_start) then record c { count = 0; window_start = now } else c

-- The check proper: `none` lets the request through, `some` is the time to wait, in seconds.
unfoldable pub admit : ℕ → ℕ → ℕ → ClientLimit → ClientLimit × Option ℕ
admit now max_requests window c =
    if leb max_requests c.count
    then (if ltb 0 c.burst_tokens
        then (record c { burst_tokens = c.burst_tokens - 1; count = (c.count + 1) % 2 ^ 64 }, none)
        else (c, some (max_ℕ (as_secs window - as_secs (now - c.window_start)) 1)))
    else (record c { count = (c.count + 1) % 2 ^ 64 }, none)

unfoldable pub check_client : ℕ → ℕ → ℕ → ℕ → ClientLimit → ClientLimit × Option ℕ
check_client now max_requests burst_size window c =
    admit now max_requests window (reset_window now window (replenish now burst_size c))

-- `entry(identifier).or_insert_with(..)`
abbrev pub entry_or : ℕ → ℕ → Option ClientLimit → ClientLimit
entry_or now burst_size none = new_client now burst_size
entry_or now burst_size (some c) = c

-- `Err((retry_after, identifier))`
unfoldable pub refusal : Str → Option ℕ → Option (ℕ × Str)
refusal identifier none = none
refusal identifier (some retry_after) = some (retry_after, identifier)

unfoldable pub check_limit :
    ℕ → Map Str ClientLimit → Str → ℕ → ℕ → ℕ → Map Str ClientLimit × Option (ℕ × Str)
check_limit now limits identifier max_requests burst_size window =
    let c = entry_or now burst_size (Map.get identifier limits) in
    let (c', wait) = check_client now max_requests burst_size window c in
    (Map.insert identifier c' limits, refusal identifier wait)

unfoldable pub cleanup_old_entries : ℕ → Map Str ClientLimit → Map Str ClientLimit
cleanup_old_entries now limits = Map.retain (λ c. ltb (now - c.window_start) 120_000_000_000) limits

-- One tick of the background task.
unfoldable pub cleanup : ℕ → RateLimiter → RateLimiter
unfolding cleanup_old_entries
cleanup now l = record l {
  ip_limits = cleanup_old_entries now l.ip_limits;
  key_limits = cleanup_old_entries now l.key_limits;
}

-- The middleware, up to `next.run`. `hash_key` stands for the hash of the standard library's
-- `DefaultHasher`, printed in hexadecimal. `some` is the answer TOO_MANY_REQUESTS.
module _ (hash_key : Str → Str) where
  unfoldable pub check_rate_limit :
      ℕ → Option Str → Str → RateLimiter → RateLimiter × Option (ℕ × Str)
  check_rate_limit now none client_ip l =
      let (limits, refused) =
        check_limit now l.ip_limits (bytes "ip:" ++ client_ip) l.config.ip_requests_per_second
          l.config.burst_size l.config.window in
      (record l { ip_limits = limits }, refused)
  check_rate_limit now (some key) client_ip l =
      let (limits, refused) =
        check_limit now l.key_limits (bytes "key:" ++ hash_key key) l.config.key_requests_per_second
          l.config.burst_size l.config.window in
      (record l { key_limits = limits }, refused)
