-- ===== src/Ipfs/Retry.antt =====
-- What the loop of attempts returns and how long it sleeps.
use shadowmesh.Base.{
  ℕ, zero, suc, ◌+◌, ◌-◌, ◌*◌, ◌≤◌, ◌<◌, ◌≡◌, refl, ◌⊎◌, inl, inr, Option, none, some, List, [],
  ◌∷◌, Bool-cases, arith, length, Str, sum_of, ltb, leb, ◌^◌, ◌%◌, if◌then◌else◌, ap, subst,
}
use shadowmesh.Cid.{CidValidationError, err, validate_cid_path}
use shadowmesh.Ipfs.{
  StorageConfig, IpfsError, slept, timed_out, invalid_cid, Outcome, answered, failed, elapsed,
  calculate_backoff_delay, Attempted, unwrap_or_unknown, attempts, with_retries, retrieve_content,
  cat,
}
use shadowmesh.Ipfs.Backoff.{capped_delay_lem, capped_delay-le, calculate_backoff_delay-le}

-- A tenth of a second after the first attempt, doubled with each one, and ten seconds at most.
abbrev pub backoff_cap : ℕ → ℕ
backoff_cap attempt = if leb attempt 7 then 100 * 2 ^ (attempt - 1) else 10_000

-- Each delay is drawn from nothing up to the cap of the attempt before it, and is of ten seconds at
-- most.
abbrev pub Backs : (ℕ → ℕ) → ℕ → List ℕ → Type 0
Backs drawn attempt [] = Unit
Backs drawn attempt (d ∷ ds) =
    (d ≡ drawn attempt % (backoff_cap attempt + 1))
    × (d ≤ backoff_cap attempt)
    × (d ≤ 10_000)
    × Backs drawn (attempt + 1) ds

-- Delays from an attempt on that has so many more attempts behind it.
abbrev pub IsShort : (ℕ → ℕ) → ℕ → ℕ → List ℕ → Type 0
IsShort drawn left attempt ds =
    Backs drawn attempt ds × (length ds ≤ left - 1) × (sum_of (λ d. d) ds ≤ 10_000 * (left - 1))

delay_drawn :
    (drawn : ℕ → ℕ) (attempt : ℕ)
    → let d = calculate_backoff_delay (drawn attempt) attempt in
      (d ≡ drawn attempt % (backoff_cap attempt + 1)) × (d ≤ backoff_cap attempt) × (d ≤ 10_000)
unfolding calculate_backoff_delay
delay_drawn drawn attempt =
    let bounded = calculate_backoff_delay-le (drawn attempt) attempt in
    (
      ap (λ c. drawn attempt % (c + 1)) (capped_delay_lem attempt),
      subst (λ c. calculate_backoff_delay (drawn attempt) attempt ≤ c) (capped_delay_lem attempt)
          bounded,
      omega (arith, bounded, capped_delay-le attempt),
    )

no_delay :
    (drawn : ℕ → ℕ) (left attempt : ℕ) (ds : List ℕ)
    → left ≡ 0
    → IsShort drawn left (attempt + 1) ds
    → IsShort drawn (suc left) attempt ds
no_delay drawn left attempt [] h s = (tt, omega arith, omega arith)
no_delay drawn left attempt (d ∷ ds) h s = absurd (omega (arith, s.1))

module _ {A : Type 0} where
  Outcome-cases :
      (o : Outcome A)
      → ((a : A) × (o ≡ answered a)) ⊎ (((error : IpfsError) × (o ≡ failed error)) ⊎ (o ≡ elapsed))
  Outcome-cases (answered a) = inl (a, refl)
  Outcome-cases (failed error) = inr (inl (error, refl))
  Outcome-cases elapsed = inr (inr refl)

  -- The outcomes of the attempts with so many numbers, from one on.
  abbrev pub outcomes : (ℕ → Outcome A) → ℕ → ℕ → List (Outcome A)
  outcomes outcome zero attempt = []
  outcomes outcome (suc left) attempt = outcome attempt ∷ outcomes outcome left (attempt + 1)

  abbrev pub first_answer : List (Outcome A) → Option A
  first_answer [] = none
  first_answer (answered a ∷ os) = some a
  first_answer (failed error ∷ os) = first_answer os
  first_answer (elapsed ∷ os) = first_answer os

  abbrev pub error_of : Outcome A → Option IpfsError → Option IpfsError
  error_of (answered a) before = before
  error_of (failed error) before = some error
  error_of elapsed before = some timed_out

  abbrev pub last_error : Option IpfsError → List (Outcome A) → Option IpfsError
  last_error before [] = before
  last_error before (o ∷ os) = last_error (error_of o before) os

  abbrev pub answer_or : Option A → Option IpfsError → A ⊎ IpfsError
  answer_or none error = inr (unwrap_or_unknown error)
  answer_or (some a) error = inl a

  module _ (retry_attempts : ℕ) (drawn : ℕ → ℕ) (outcome : ℕ → Outcome A) where
    abbrev from : ℕ → ℕ → Option IpfsError → Attempted A
    from left attempt before = attempts retry_attempts drawn outcome left attempt before

    attempts-result :
        (left attempt : ℕ) (before : Option IpfsError)
        → (from left attempt before).result
          ≡ answer_or
              (first_answer (outcomes outcome left attempt))
              (last_error before (outcomes outcome left attempt))
    unfolding attempts
    attempts-result zero attempt before = refl
    attempts-result (suc left) attempt before =
        ground (arith, attempts-result left (attempt + 1) (error_of (outcome attempt) before))

    -- The first answer among the attempts is the result; if none of them is answered, the result is
    -- the error of the last attempt, or the unknown error if no attempt is to be made.
    pub with_retries-result :
        (with_retries retry_attempts drawn outcome).result
        ≡ answer_or
            (first_answer (outcomes outcome retry_attempts 1))
            (last_error none (outcomes outcome retry_attempts 1))
    unfolding with_retries
    with_retries-result = attempts-result retry_attempts 1 none

    slept-IsShort :
        (left attempt : ℕ) (r : Attempted A)
        → left + attempt ≡ retry_attempts
        → IsShort drawn left (attempt + 1) r.delays
        → IsShort drawn (suc left) attempt (slept retry_attempts drawn outcome attempt r).delays
    slept-IsShort left attempt r h s = elim (Bool-cases (ltb attempt retry_attempts)) [
      | inl more ↦
          let (exact, capped, bounded) = delay_drawn drawn attempt in
          rw more ((exact, capped, bounded, s.0), ground arith, ground (arith, bounded))
      | inr final ↦ rw final (no_delay drawn left attempt r.delays (ground (arith, final)) s)
    ]

    attempts-delays :
        (left attempt : ℕ) (before : Option IpfsError)
        → left + attempt ≡ retry_attempts + 1
        → IsShort drawn left attempt (from left attempt before).delays
    unfolding attempts
    attempts-delays zero attempt before h = (tt, omega arith, omega arith)
    attempts-delays (suc left) attempt before h = elim (Outcome-cases (outcome attempt)) [
      | inl (a, e) ↦ rw (e, attempts) (tt, omega arith, omega arith)
      | inr (inl (error, e)) ↦
          rw (e, attempts)
            (slept-IsShort left attempt _ (omega arith)
              (attempts-delays left (attempt + 1) (some error) (omega arith)))
      | inr (inr e) ↦
          rw (e, attempts)
            (slept-IsShort left attempt _ (omega arith)
              (attempts-delays left (attempt + 1) (some timed_out) (omega arith)))
    ]

    failed-attempts :
        (error : IpfsError) (left attempt : ℕ) (before : Option IpfsError)
        → ((k : ℕ) → outcome k ≡ failed error)
        → left + attempt ≡ retry_attempts
        → ((from (suc left) attempt before).result ≡ inr error)
          × (length (from (suc left) attempt before).delays ≡ left)
    unfolding attempts
    failed-attempts error zero attempt before all h = ground (arith, all attempt)
    failed-attempts error (suc left) attempt before all h = ground (
      arith,
      all attempt,
      failed-attempts error left (attempt + 1) (some error) all (omega arith),
    )

    -- There is at most one delay fewer than attempts. The delay after attempt number n is the drawn
    -- number, taken modulo one more than the cap of n; the cap is 100 ms after the first attempt,
    -- doubles with each attempt, and is 10 000 ms from the eighth on. So no delay is above its cap or
    -- above ten seconds, nor are all of them together above ten seconds for each.
    pub with_retries-IsShort :
        IsShort drawn retry_attempts 1 (with_retries retry_attempts drawn outcome).delays
    unfolding with_retries
    with_retries-IsShort = attempts-delays retry_attempts 1 none refl

failed-with_retries :
    {A : Type 0} (n : ℕ) (drawn : ℕ → ℕ) (outcome : ℕ → Outcome A) (error : IpfsError)
    → ((k : ℕ) → outcome k ≡ failed error)
    → 0 < n
    → ((with_retries n drawn outcome).result ≡ inr error)
      × (length (with_retries n drawn outcome).delays + 1 ≡ n)
unfolding with_retries
failed-with_retries zero drawn outcome error all pos = absurd (omega arith)
failed-with_retries (suc n) drawn outcome error all pos =
    let (r, d) = failed-attempts (suc n) drawn outcome error n 1 none all (omega arith) in
    (r, omega (arith, d))

-- An invalid CID is not sent, yet is tried again with all the delays: after the last attempt the
-- result is what is wrong with it.
pub retrieve_content-invalid :
    (config : StorageConfig) (drawn : ℕ → ℕ) (cid : Str) (answer : ℕ → Outcome Str)
    (error : CidValidationError)
    → validate_cid_path cid ≡ err error
    → 0 < config.retry_attempts
    → ((retrieve_content config drawn cid answer).result ≡ inr (invalid_cid error))
      × (length (retrieve_content config drawn cid answer).delays + 1 ≡ config.retry_attempts)
unfolding retrieve_content cat
retrieve_content-invalid config drawn cid answer error bad pos =
    failed-with_retries config.retry_attempts drawn (λ attempt. cat cid (answer attempt))
      (invalid_cid error) (λ k. rw (cat, bad) refl) pos
