-- ===== src/Supabase/Realtime/Reconnect.antt =====
-- How long the agent waits before it connects again.
use proxmoxvue_agent.Base.{
  ℕ, zero, suc, ◌*◌, ◌/◌, ◌^◌, ◌≤◌, ◌<◌, ◌≡◌, refl, ap, arith, ltb, if◌then◌else◌,
}
use proxmoxvue_agent.Commands.Payload.{second}
use proxmoxvue_agent.Supabase.Realtime.{next_backoff, backoff_of, wait_of, first_backoff}

backoff_of-top : (n : ℕ) → backoff_of (suc (suc (suc (suc (suc n))))) ≡ 32 * second
unfolding backoff_of
backoff_of-top zero = refl
backoff_of-top (suc n) = ap next_backoff (backoff_of-top n)

backoff_of-within : (n : ℕ) → (first_backoff ≤ backoff_of n) × (backoff_of n ≤ 32 * second)
unfolding backoff_of
backoff_of-within zero = omega arith
backoff_of-within (suc zero) = omega arith
backoff_of-within (suc (suc zero)) = omega arith
backoff_of-within (suc (suc (suc zero))) = omega arith
backoff_of-within (suc (suc (suc (suc zero)))) = omega arith
backoff_of-within (suc (suc (suc (suc (suc n))))) = omega (arith, backoff_of-top n)

-- From the sixth attempt on the backoff is 32 seconds; before, it doubles from one second.
pub backoff_of-doubles : (n : ℕ) → backoff_of n ≡ (if ltb n 5 then 2 ^ n * second else 32 * second)
unfolding backoff_of
backoff_of-doubles zero = refl
backoff_of-doubles (suc zero) = refl
backoff_of-doubles (suc (suc zero)) = refl
backoff_of-doubles (suc (suc (suc zero))) = refl
backoff_of-doubles (suc (suc (suc (suc zero)))) = refl
backoff_of-doubles (suc (suc (suc (suc (suc n))))) = ground (arith, backoff_of-top n)

-- Whatever random number below half of the backoff is drawn, the wait before the attempt with number n
-- is a quarter of the backoff below or above it at most: between 0.75 and 40 seconds.
pub wait_of-bounds :
    (n random : ℕ)
    → random < backoff_of n / 2
    → let b = backoff_of n in
      (3 * b ≤ 4 * wait_of b random)
      × (4 * wait_of b random ≤ 5 * b)
      × (3 * second ≤ 4 * wait_of b random)
      × (wait_of b random ≤ 40 * second)
unfolding wait_of
wait_of-bounds n random small = omega (arith, backoff_of-within n)
