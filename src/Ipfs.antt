-- ===== src/Ipfs.antt =====
-- protocol/src/storage.rs: the client of the IPFS API, with its retries. The server's answers are
-- arguments, one for each attempt, as are the numbers that `rand` draws; delays are in milliseconds.
pub mod Backoff
pub mod Retry
pub mod Directory
mod Examples
use shadowmesh.Base.{
  ℕ, zero, suc, ◌+◌, ◌-◌, ◌*◌, ◌%◌, ◌^◌, ◌⊎◌, inl, inr, Bool, true, false, not, Option, none, some,
  List, [], ◌∷◌, ltb, Str, bytes, if◌then◌else◌, filter, map, min_ℕ, sum_of, is_nil,
}
use shadowmesh.Cid.{CidValidationError, ok, err, validate_cid_path}

pub record StorageConfig : Type 0 where
  pub api_url : Str
  pub timeout : ℕ
  pub retry_attempts : ℕ

abbrev pub default_config : StorageConfig
default_config = record {
  api_url = bytes "http://127.0.0.1:5001";
  timeout = 30_000;
  retry_attempts = 3;
}

-- The error values by where they come from, their texts left out.
pub data IpfsError : Type 0 where
  other : Str → IpfsError
  invalid_cid : CidValidationError → IpfsError
  timed_out unknown : IpfsError

-- What `tokio::time::timeout` makes of an attempt.
pub data Outcome (A : Type 0) : Type 0 where
  answered : A → Outcome A
  failed : IpfsError → Outcome A
  elapsed : Outcome A

-- `u64::saturating_pow` and `u64::saturating_mul`
abbrev pub saturating : ℕ → ℕ
saturating n = min_ℕ n (2 ^ 64 - 1)

unfoldable pub capped_delay : ℕ → ℕ
capped_delay attempt = min_ℕ (saturating (100 * saturating (2 ^ (attempt - 1)))) 10_000

-- `gen_range(0..=capped_delay)`, from a number drawn at will.
unfoldable pub calculate_backoff_delay : ℕ → ℕ → ℕ
unfolding capped_delay
calculate_backoff_delay drawn attempt = drawn % (capped_delay attempt + 1)

-- The answer or the error, and the delays slept through.
pub record Attempted (A : Type 0) : Type 0 where
  pub result : A ⊎ IpfsError
  pub delays : List ℕ

abbrev pub unwrap_or_unknown : Option IpfsError → IpfsError
unwrap_or_unknown none = unknown
unwrap_or_unknown (some error) = error

module _ {A : Type 0} (retry_attempts : ℕ) (drawn : ℕ → ℕ) (outcome : ℕ → Outcome A) where
  abbrev pub slept : ℕ → Attempted A → Attempted A
  slept attempt r =
      if ltb attempt retry_attempts
      then record r { delays = calculate_backoff_delay (drawn attempt) attempt ∷ r.delays }
      else r

  -- The loop from an attempt on, with as many attempts left.
  unfoldable pub attempts : ℕ → ℕ → Option IpfsError → Attempted A
  attempts zero attempt last_error = record {
    result = inr (unwrap_or_unknown last_error);
    delays = [];
  }
  attempts (suc left) attempt last_error = elim (outcome attempt) [
    | answered a ↦ record { result = inl a; delays = [] }
    | failed error ↦ slept attempt (attempts left (attempt + 1) (some error))
    | elapsed ↦ slept attempt (attempts left (attempt + 1) (some timed_out))
  ]

  -- `for attempt in 1..=retry_attempts`
  unfoldable pub with_retries : Attempted A
  unfolding attempts
  with_retries = attempts retry_attempts 1 none

-- `answer attempt` is the response to `add` at that attempt, with the hash it gives.
unfoldable pub store_content : StorageConfig → (ℕ → ℕ) → (ℕ → Outcome Str) → Attempted Str
store_content config drawn answer = with_retries config.retry_attempts drawn answer

-- `cat`: the request is sent only for a valid path.
unfoldable pub cat : Str → Outcome Str → Outcome Str
cat cid answer = elim (validate_cid_path cid) [
  | ok path ↦ answer
  | err error ↦ failed (invalid_cid error)
]

unfoldable pub retrieve_content : StorageConfig → (ℕ → ℕ) → Str → (ℕ → Outcome Str) → Attempted Str
retrieve_content config drawn cid answer =
    with_retries config.retry_attempts drawn (λ attempt. cat cid (answer attempt))
