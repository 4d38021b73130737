-- ===== src/Agent/Pace.antt =====
-- agent/internal/report/reporter.go: how long the sender waits. Durations are in nanoseconds.
use sakura_assistant.Base.{
  ℕ, zero, suc, ◌*◌, ◌^◌, ◌≤◌, ◌<◌, ◌≡◌, refl, arith, ltb, lt→ltb, if◌then◌else◌,
}
use sakura_assistant.Agent.Client.{second}

abbrev pub longest_delay : ℕ
longest_delay = 60 * second

-- `attempt` never falls below 0 in the sender, so the source's clamp of a negative one has no case.
unfoldable pub default_backoff : ℕ → ℕ
default_backoff attempt =
    if ltb 10 attempt
    then longest_delay
    else let d = second * 2 ^ attempt in if ltb longest_delay d then longest_delay else d

-- The interval that the hub asks for, in seconds, held to 10..600.
unfoldable pub interval_of_seconds : ℕ → ℕ
interval_of_seconds s =
    let raised = if ltb s 10 then 10 else s in
    let capped = if ltb 600 raised then 600 else raised in capped * second

late : (k : ℕ) → default_backoff (suc (suc (suc (suc (suc (suc k)))))) ≡ longest_delay
unfolding default_backoff
late zero = refl
late (suc zero) = refl
late (suc (suc zero)) = refl
late (suc (suc (suc zero))) = refl
late (suc (suc (suc (suc zero)))) = refl
late (suc (suc (suc (suc (suc k))))) =
    rw (lt→ltb 10 (suc (suc (suc (suc (suc (suc (suc (suc (suc (suc (suc k))))))))))) (omega arith))

-- The first six delays double from one second, and every later one is a minute.
pub default_backoff_table :
    (attempt : ℕ)
    → (attempt < 6 → default_backoff attempt ≡ second * 2 ^ attempt)
      × (6 ≤ attempt → default_backoff attempt ≡ longest_delay)
unfolding default_backoff
default_backoff_table zero = (λ _. refl, λ h. absurd (omega arith))
default_backoff_table (suc zero) = (λ _. refl, λ h. absurd (omega arith))
default_backoff_table (suc (suc zero)) = (λ _. refl, λ h. absurd (omega arith))
default_backoff_table (suc (suc (suc zero))) = (λ _. refl, λ h. absurd (omega arith))
default_backoff_table (suc (suc (suc (suc zero)))) = (λ _. refl, λ h. absurd (omega arith))
default_backoff_table (suc (suc (suc (suc (suc zero))))) = (λ _. refl, λ h. absurd (omega arith))
default_backoff_table (suc (suc (suc (suc (suc (suc k)))))) =
    (λ h. absurd (omega arith), λ _. late k)

-- The interval lies in 10..600 seconds, is the one asked for when that does, and grows with it.
pub interval_of_seconds_clamps :
    (s t : ℕ)
    → (10 * second ≤ interval_of_seconds s)
      × (interval_of_seconds s ≤ 600 * second)
      × (10 ≤ s → s ≤ 600 → interval_of_seconds s ≡ s * second)
      × (s ≤ t → interval_of_seconds s ≤ interval_of_seconds t)
unfolding interval_of_seconds
interval_of_seconds_clamps s t = ground arith
