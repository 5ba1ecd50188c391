-- ===== src/Monitor/Memory.antt =====
-- `mem_usage_get`. What the system answers is a parameter, `none` where a call fails.
pub mod Account
use devel_mysql_plugin.Common.{
  ℕ, ◌+◌, ◌-◌, ◌*◌, ◌/◌, ◌%◌, ◌^◌, ℤ, pos, tdiv, wrap_signed, Bool, true, false, Option, none, some,
  ◌-ℤ◌,
}

-- vm_statistics64, of which two counters of 32 bits are used.
pub record VmStat : Type 0 where
  pub free_count : ℕ
  pub speculative_count : ℕ

-- The result, and `used_mb` and `total_mb`.
pub record MemUsage : Type 0 where
  pub ok : Bool
  pub used_mb : ℤ
  pub total_mb : ℤ

-- `free_mb`.
unfoldable pub free_mb : ℕ → VmStat → ℕ
free_mb page_size vm_stat =
    (vm_stat.free_count + vm_stat.speculative_count) % 2 ^ 32 * page_size % 2 ^ 64 / 1048576

-- What follows the answer of `sysctlbyname`.
unfoldable pub account : ℤ → ℤ → ℕ → Option VmStat → MemUsage
unfolding ◌-ℤ◌ wrap_signed
account used_mb total_mb page_size none = record {
  ok = false;
  used_mb = used_mb;
  total_mb = total_mb;
}
account used_mb total_mb page_size (some vm_stat) = record {
  ok = true;
  used_mb = total_mb -ℤ wrap_signed (2 ^ 64) (pos (free_mb page_size vm_stat));
  total_mb = total_mb;
}

-- `used_mb` and `total_mb` are what the caller's variables held before.
unfoldable pub mem_usage_get : ℤ → ℤ → Option ℤ → ℕ → Option VmStat → MemUsage
unfolding tdiv
mem_usage_get used_mb total_mb none page_size vm_stat = record {
  ok = false;
  used_mb = used_mb;
  total_mb = total_mb;
}
mem_usage_get used_mb total_mb (some total_bytes) page_size vm_stat =
    account used_mb (tdiv total_bytes 1048576) page_size vm_stat
