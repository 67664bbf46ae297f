-- ===== src/Ipfs/Backoff.antt =====
-- The delays between attempts.
use shadowmesh.Base.{
  ℕ, zero, suc, ◌+◌, ◌-◌, ◌*◌, ◌^◌, ◌≤◌, ◌≡◌, refl, ap, arith, leb, if◌then◌else◌,
}
use shadowmesh.Ipfs.{capped_delay, calculate_backoff_delay}

pow_suc : (n : ℕ) → 2 ^ suc n ≡ 2 * 2 ^ n
pow_suc n = grind arith

pow_large : (n : ℕ) → 128 ≤ 2 ^ (n + 7)
pow_large zero = omega arith
pow_large (suc n) =
    let e : suc n + 7 ≡ suc (n + 7) = omega arith in
    omega (arith, pow_large n, pow_suc (n + 7), ap (λ k. 2 ^ k) e)

-- The delay doubles from 100 ms on and stops at 10 s from the eighth attempt on, and no attempt
-- number overflows it.
pub capped_delay_lem :
    (attempt : ℕ)
    → capped_delay attempt ≡ (if leb attempt 7 then 100 * 2 ^ (attempt - 1) else 10_000)
unfolding capped_delay
capped_delay_lem zero = refl
capped_delay_lem (suc zero) = refl
capped_delay_lem (suc (suc zero)) = refl
capped_delay_lem (suc (suc (suc zero))) = refl
capped_delay_lem (suc (suc (suc (suc zero)))) = refl
capped_delay_lem (suc (suc (suc (suc (suc zero))))) = refl
capped_delay_lem (suc (suc (suc (suc (suc (suc zero)))))) = refl
capped_delay_lem (suc (suc (suc (suc (suc (suc (suc zero))))))) = refl
capped_delay_lem (suc (suc (suc (suc (suc (suc (suc (suc n)))))))) =
    let e : suc (suc (suc (suc (suc (suc (suc (suc n))))))) - 1 ≡ n + 7 = omega arith in
    ground (arith, pow_large n, ap (λ k. 2 ^ k) e)

pub calculate_backoff_delay-le :
    (drawn attempt : ℕ) → calculate_backoff_delay drawn attempt ≤ capped_delay attempt
unfolding calculate_backoff_delay
calculate_backoff_delay-le drawn attempt = omega arith

pub capped_delay-le : (attempt : ℕ) → capped_delay attempt ≤ 10_000
unfolding capped_delay
capped_delay-le attempt = ground arith
