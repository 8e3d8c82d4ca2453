-- ===== src/SystemMonitor/Growth.antt =====
-- What a reading of the processor's load is made of.
use device_app.Base.{ℕ, ◌+◌, ◌-◌, ◌%◌, ◌^◌, ◌≤◌, ◌<◌, ◌≡◌, refl, some, nat_eq, if◌then◌else◌, arith}
use device_app.SystemMonitor.{
  Doubles, CpuTimes, Monitor, long_sub, busy_percent, zero_percent, get_cpu_usage_percent,
}

-- The sum of all counters, and of those without work.
abbrev pub total_of : CpuTimes → ℕ
total_of t = t.user + t.nice + t.system + t.idle + t.iowait + t.irq + t.softirq + t.steal

abbrev pub idle_of : CpuTimes → ℕ
idle_of t = t.idle + t.iowait

long_sub-exact : (a b : ℕ) → b ≤ a → a < 2 ^ 64 → long_sub (a % 2 ^ 64) (b % 2 ^ 64) ≡ a - b
long_sub-exact a b h small = omega (arith, h, small)

-- After a first reading, and while the counters grow and their sum stays below 2^63, a second reading
-- is computed from exactly what they grew by.
pub second_reading :
    {F : Type 0} (dbl : Doubles F) (t₁ t₂ : CpuTimes) (m : Monitor)
    → idle_of t₁ ≤ idle_of t₂
    → total_of t₁ ≤ total_of t₂
    → total_of t₂ < 2 ^ 63
    → (get_cpu_usage_percent dbl (some t₂) (get_cpu_usage_percent dbl (some t₁) m).1).0 ≡ (
        if nat_eq (total_of t₂ - total_of t₁) 0
        then zero_percent dbl
        else busy_percent dbl (idle_of t₂ - idle_of t₁) (total_of t₂ - total_of t₁))
unfolding get_cpu_usage_percent
second_reading dbl t₁ t₂ m i t small =
    rw
      (
        long_sub-exact (idle_of t₂) (idle_of t₁) i (omega (arith, small)),
        long_sub-exact (total_of t₂) (total_of t₁) t (omega (arith, small)),
      )
      refl
