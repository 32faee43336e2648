-- ===== src/Federation/Queue/Delays.antt =====
-- The delays between attempts.
use native.Mathlib.Nat.{pow-le-pow_right}
use mls_ds.Prelude.{ℕ, zero, suc, ◌*◌, ◌^◌, ◌≤◌, ◌≡◌, refl, if◌then◌else◌, ltb, arith}
use mls_ds.Federation.Queue.{backoff_delay}

pow_high : (n : ℕ) → 6 ≤ n → 64 ≤ 2 ^ n
pow_high n h = pow-le-pow_right (omega arith) h

capped : (n : ℕ) → 6 ≤ n → 64 ≤ 2 ^ n → backoff_delay n ≡ (if ltb n 6 then 5 * 2 ^ n else 300)
unfolding backoff_delay
capped n h big = ground arith

-- The delay doubles from five seconds on for the first six attempts and is five minutes from then on,
-- for every count of retries: the saturating arithmetic never shows.
pub backoff_delay-closed : (n : ℕ) → backoff_delay n ≡ (if ltb n 6 then 5 * 2 ^ n else 300)
unfolding backoff_delay
backoff_delay-closed zero = refl
backoff_delay-closed (suc zero) = refl
backoff_delay-closed (suc (suc zero)) = refl
backoff_delay-closed (suc (suc (suc zero))) = refl
backoff_delay-closed (suc (suc (suc (suc zero)))) = refl
backoff_delay-closed (suc (suc (suc (suc (suc zero))))) = refl
backoff_delay-closed (suc (suc (suc (suc (suc (suc k)))))) =
    let big : 64 ≤ 2 ^ suc (suc (suc (suc (suc (suc k))))) = pow_high _ (omega arith) in
    capped (suc (suc (suc (suc (suc (suc k)))))) (omega arith) big
