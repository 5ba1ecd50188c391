-- ===== src/Monitor/Memory/Account.antt =====
-- The memory in use and the memory that is free make up the whole.
use devel_mysql_plugin.Common.{
  ℕ, ◌+◌, ◌-◌, ◌*◌, ◌/◌, ◌^◌, ◌≤◌, ◌<◌, ◌≡◌, refl, arith, ℤ, pos, tdiv, word, signed, wrap_signed,
  true, some, ◌-ℤ◌,
}
use devel_mysql_plugin.Monitor.Memory.{VmStat, free_mb, account, mem_usage_get}

-- On a machine whose free pages are fewer than 2 ^ 32 and fit into its memory, the result is success,
-- the total is the memory in megabytes, rounded down, and the memory in use is a number that with the
-- free memory, rounded down, makes up the total.
mem_usage_get_lem :
    (used total : ℤ) (bytes page_size : ℕ) (v : VmStat)
    → bytes < 2 ^ 63
    → v.free_count + v.speculative_count < 2 ^ 32
    → (v.free_count + v.speculative_count) * page_size ≤ bytes
    → (in_use : ℕ) × ((mem_usage_get used total (some (pos bytes)) page_size (some v)).ok ≡ true)
      × ((mem_usage_get used total (some (pos bytes)) page_size (some v)).total_mb
          ≡ pos (bytes / 1048576))
      × ((mem_usage_get used total (some (pos bytes)) page_size (some v)).used_mb ≡ pos in_use)
      × (in_use + (v.free_count + v.speculative_count) * page_size / 1048576 ≡ bytes / 1048576)
unfolding mem_usage_get account free_mb tdiv ◌-ℤ◌ wrap_signed word signed
mem_usage_get_lem used total bytes page_size v hb hf fits = (
  bytes / 1048576 - (v.free_count + v.speculative_count) * page_size / 1048576,
  refl,
  refl,
  ground arith,
  omega arith,
)
