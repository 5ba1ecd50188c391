-- ===== src/Monitor/Cpu.antt =====
-- `cpu_ticks_get` and `cpu_usage_measure`. The kernel's answer is a parameter: `none` is a failure, and
-- otherwise there is one entry for each processor, of `integer_t`. The memory that the kernel maps for
-- its answer, and that is unmapped at once, is not modelled.
pub mod Usage
use devel_mysql_plugin.Common.{
  ℕ, ◌+◌, ◌-◌, ◌*◌, ◌%◌, ◌^◌, ◌<◌, ◌≤◌, ◌≡◌, refl, ap, arith, ℤ, pos, word, Option, none, some,
  List, [], ◌∷◌, ◌==◌, if◌then◌else◌, ◌-ℤ◌,
}

-- What the kernel says of one processor, at CPU_STATE_USER, _SYSTEM, _IDLE and _NICE.
pub record CpuLoad : Type 0 where
  pub state_user : ℤ
  pub state_system : ℤ
  pub state_idle : ℤ
  pub state_nice : ℤ

pub record CpuTick : Type 0 where
  pub user : ℕ
  pub sys : ℕ
  pub idle : ℕ
  pub nice : ℕ

-- uint64_t `a + b` and `a - b`.
abbrev pub add64 : ℕ → ℕ → ℕ
add64 a b = (a + b) % 2 ^ 64

unfoldable pub sub64 : ℕ → ℕ → ℕ
unfolding word ◌-ℤ◌
sub64 a b = word (2 ^ 64) (pos a -ℤ pos b)

-- The loop over the processors.
unfoldable pub sum_loads : List CpuLoad → CpuTick → CpuTick
unfolding word
sum_loads [] out = out
sum_loads (p ∷ loads) out = sum_loads loads (record {
  user = add64 out.user (word (2 ^ 64) p.state_user);
  sys = add64 out.sys (word (2 ^ 64) p.state_system);
  idle = add64 out.idle (word (2 ^ 64) p.state_idle);
  nice = add64 out.nice (word (2 ^ 64) p.state_nice);
})

-- `none` is the result `false`.
unfoldable pub cpu_ticks_get : Option (List CpuLoad) → Option CpuTick
cpu_ticks_get none = none
cpu_ticks_get (some loads) =
    some (sum_loads loads (record { user = 0; sys = 0; idle = 0; nice = 0 }))

-- The `double` that is returned: 0.0, or 100.0 * busy / total.
pub data Percent : Type 0 where
  zero_percent : Percent
  percent : ℕ → ℕ → Percent

-- The end of `cpu_usage_measure`, from the four differences.
unfoldable pub share : ℕ → ℕ → ℕ → ℕ → Percent
share du ds di dn =
    let total = add64 (add64 (add64 du ds) di) dn in
    if total == 0 then zero_percent else percent (add64 (add64 du ds) dn) total

-- What follows the two samples.
unfoldable pub usage : CpuTick → CpuTick → Percent
usage t1 t2 =
    share (sub64 t2.user t1.user) (sub64 t2.sys t1.sys) (sub64 t2.idle t1.idle)
      (sub64 t2.nice t1.nice)

-- The result and the seconds slept, from the two samples.
abbrev pub measure_from : Option CpuTick → Option CpuTick → Percent × ℕ
measure_from none later = (zero_percent, 0)
measure_from (some t1) none = (zero_percent, 1)
measure_from (some t1) (some t2) = (usage t1 t2, 1)

unfoldable pub cpu_usage_measure : Option (List CpuLoad) → Option (List CpuLoad) → Percent × ℕ
cpu_usage_measure first later = measure_from (cpu_ticks_get first) (cpu_ticks_get later)
