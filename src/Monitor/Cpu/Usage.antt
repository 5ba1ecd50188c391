-- ===== src/Monitor/Cpu/Usage.antt =====
-- The share that is reported is that of the ticks between the samples.
use devel_mysql_plugin.Common.{
  ℕ, ◌+◌, ◌^◌, ◌<◌, ◌≤◌, ◌≡◌, refl, arith, word, ◌==◌, if◌then◌else◌, ◌-ℤ◌,
}
use devel_mysql_plugin.Monitor.Cpu.{CpuTick, add64, sub64, zero_percent, percent, share, usage}

sub64-add64 : (a b : ℕ) → a < 2 ^ 64 → b < 2 ^ 64 → sub64 (add64 a b) a ≡ b
unfolding sub64 word ◌-ℤ◌
sub64-add64 a b ha hb = ground arith

-- The ticks of all processors after the given numbers of ticks have gone by.
abbrev elapse : CpuTick → ℕ → ℕ → ℕ → ℕ → CpuTick
elapse t user sys idle nice = record {
  user = add64 t.user user;
  sys = add64 t.sys sys;
  idle = add64 t.idle idle;
  nice = add64 t.nice nice;
}

-- A counter of 64 bits.
pub record IsTick (t : CpuTick) : Type 0 where
  pub user_lt : t.user < 2 ^ 64
  pub sys_lt : t.sys < 2 ^ 64
  pub idle_lt : t.idle < 2 ^ 64
  pub nice_lt : t.nice < 2 ^ 64

share_exact :
    (u s i n : ℕ)
    → u + s + i + n < 2 ^ 64
    → share u s i n
      ≡ (if u + s + i + n == 0 then zero_percent else percent (u + s + n) (u + s + i + n))
unfolding share
share_exact u s i n h =
    let total : add64 (add64 (add64 u s) i) n ≡ u + s + i + n = omega arith in
    let busy : add64 (add64 u s) n ≡ u + s + n = omega arith in rw (total, busy) refl

-- Whatever the counters are at the first sample, and even if they wrap around before the second,
-- the share is that of the user, system and nice ticks in all the ticks between the samples, and
-- at most the whole; with no tick at all it is 0. The condition is that fewer than 2 ^ 64 ticks go by.
usage_exact :
    (t : CpuTick) (u s i n : ℕ)
    → IsTick t
    → u + s + i + n < 2 ^ 64
    → (usage t (elapse t u s i n)
        ≡ (if u + s + i + n == 0 then zero_percent else percent (u + s + n) (u + s + i + n)))
      × (u + s + n ≤ u + s + i + n)
unfolding usage
usage_exact t u s i n v h =
    let du = sub64-add64 t.user u v.user_lt (omega arith) in
    let ds = sub64-add64 t.sys s v.sys_lt (omega arith) in
    let di = sub64-add64 t.idle i v.idle_lt (omega arith) in
    let dn = sub64-add64 t.nice n v.nice_lt (omega arith) in
    (rw (du, ds, di, dn) (share_exact u s i n h), omega arith)
