-- ===== src/SystemMonitor.antt =====
-- ClientServer/src/SystemMonitor.cpp: the load of the machine, for the administrators. A double is an
-- element of `F`, and a long is its 64 bits.
pub mod Growth
use device_app.Base.{
  ℕ, ◌+◌, ◌-◌, ◌*◌, ◌%◌, ◌^◌, String, [], ◌∷◌, Option, none, some, Bool, true, false, nat_eq,
  if◌then◌else◌,
}
use device_app.Json.{JsonLib}

pub record Doubles (F : Type 0) : Type 0 where
  -- (double) of a long, and of an integral literal
  pub of_long : ℕ → F
  pub sub : F → F → F
  pub mul : F → F → F
  pub div : F → F → F

-- The first eight numbers of /proc/stat.
pub record CpuTimes : Type 0 where
  pub user : ℕ
  pub nice : ℕ
  pub system : ℕ
  pub idle : ℕ
  pub iowait : ℕ
  pub irq : ℕ
  pub softirq : ℕ
  pub steal : ℕ

-- sysinfo(2)
pub record SysInfo : Type 0 where
  pub uptime : ℕ
  pub totalram : ℕ
  pub freeram : ℕ
  pub mem_unit : ℕ

pub record Monitor : Type 0 where
  pub prev_idle : ℕ
  pub prev_total : ℕ

abbrev pub long : ℕ → ℕ
long n = n % 2 ^ 64

-- The difference of two longs.
abbrev pub long_sub : ℕ → ℕ → ℕ
long_sub a b = (a + (2 ^ 64 - b % 2 ^ 64)) % 2 ^ 64

abbrev pub cur_idle : CpuTimes → ℕ
cur_idle t = long (t.idle + t.iowait)

abbrev pub cur_total : CpuTimes → ℕ
cur_total t = long (t.user + t.nice + t.system + t.idle + t.iowait + t.irq + t.softirq + t.steal)

module _ {F : Type 0} (dbl : Doubles F) where
  abbrev pub zero_percent : F
  zero_percent = dbl.of_long 0

  -- (1.0 - (double)diff_idle / diff_total) * 100.0
  abbrev pub busy_percent : ℕ → ℕ → F
  busy_percent diff_idle diff_total =
      dbl.mul (dbl.sub (dbl.of_long 1) (dbl.div (dbl.of_long diff_idle) (dbl.of_long diff_total)))
        (dbl.of_long 100)

  -- `none`: /proc/stat does not open. The line is taken to be readable, since the source
  -- uses variables that nothing has set otherwise.
  unfoldable pub get_cpu_usage_percent : Option CpuTimes → Monitor → F × Monitor
  get_cpu_usage_percent none m = (zero_percent, m)
  get_cpu_usage_percent (some t) m =
      let diff_idle = long_sub (cur_idle t) m.prev_idle in
      let diff_total = long_sub (cur_total t) m.prev_total in
      let percent =
        if nat_eq diff_total 0 then zero_percent else busy_percent diff_idle diff_total in
      (percent, record { prev_idle = cur_idle t; prev_total = cur_total t })

  -- `none`: sysinfo fails.
  get_memory_usage_percent : Option SysInfo → F
  get_memory_usage_percent none = zero_percent
  get_memory_usage_percent (some info) =
      let total = long (info.totalram * info.mem_unit) in
      let used = long_sub total (long (info.freeram * info.mem_unit)) in
      if nat_eq total 0
      then zero_percent
      else dbl.mul (dbl.div (dbl.of_long used) (dbl.of_long total)) (dbl.of_long 100)

  -- `none`: the file does not open, or holds no number.
  get_temperature : Option F → F
  get_temperature none = dbl.div (dbl.of_long 0) (dbl.of_long 1000)
  get_temperature (some temp) = dbl.div temp (dbl.of_long 1000)

  get_uptime_seconds : Option SysInfo → ℕ
  get_uptime_seconds none = 0
  get_uptime_seconds (some info) = info.uptime

  -- SystemMonitor(): the first reading.
  pub system_monitor : Option CpuTimes → Monitor
  system_monitor times = (get_cpu_usage_percent times (record { prev_idle = 0; prev_total = 0 })).1

  -- `number` and `integer` make a JSON value of a double and of a long; sysinfo is called twice.
  pub get_status :
      {J : Type 0} (js : JsonLib J) (number : F → J) (integer : ℕ → J)
      → Option CpuTimes
      → Option SysInfo
      → Option F
      → Option SysInfo
      → Monitor
      → J × Monitor
  unfolding get_memory_usage_percent get_temperature get_uptime_seconds
  get_status js number integer times info temp info' m =
      let (cpu, m') = get_cpu_usage_percent times m in
      (
        js.object_of (
            ("cpu", number cpu)
            ∷ ("memory", number (get_memory_usage_percent info))
            ∷ ("temp", number (get_temperature temp))
            ∷ ("uptime", integer (get_uptime_seconds info'))
            ∷ []),
        m',
      )
