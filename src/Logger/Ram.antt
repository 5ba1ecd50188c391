-- ===== src/Logger/Ram.antt =====
-- The line that the thread prints. A load is a fixed-point number with 16 bits after the point.
use native.Mathlib.Nat.{mul-le-mul_right}
use devel_mysql_plugin.Common.{
  ℕ, ◌*◌, ◌/◌, ◌%◌, ◌^◌, ◌≤◌, ◌<◌, ◌≡◌, arith, refl, Option, none, some,
}

-- struct sysinfo.
pub record SysInfo : Type 0 where
  pub load : ℕ
  pub totalram : ℕ
  pub freeram : ℕ
  pub mem_unit : ℕ

-- `load`, by its numerator over 65536, `free_ram` and `total_ram`.
pub record Line : Type 0 where
  pub load_65536 : ℕ
  pub free_ram : ℕ
  pub total_ram : ℕ

-- unsigned long `x * mem_unit / 1024 / 1024`.
unfoldable pub megabytes : ℕ → ℕ → ℕ
megabytes x mem_unit = x * mem_unit % 2 ^ 64 / 1024 / 1024

-- The line, if `sysinfo` succeeds.
unfoldable pub sample : Option SysInfo → Option Line
sample none = none
sample (some info) = some (record {
  load_65536 = info.load;
  free_ram = megabytes info.freeram info.mem_unit;
  total_ram = megabytes info.totalram info.mem_unit;
})

-- Where the sizes fit into 64 bits, the line holds the load as it is and the memory in megabytes,
-- rounded down, and no more memory is free than there is.
pub sample_lem :
    (info : SysInfo)
    → info.freeram ≤ info.totalram
    → info.totalram * info.mem_unit < 2 ^ 64
    → (l : Line) × (sample (some info) ≡ some l)
      × (l.load_65536 ≡ info.load)
      × (l.free_ram ≡ info.freeram * info.mem_unit / 1048576)
      × (l.total_ram ≡ info.totalram * info.mem_unit / 1048576)
      × (l.free_ram ≤ l.total_ram)
unfolding sample megabytes
sample_lem info h fits =
    let less : info.freeram * info.mem_unit ≤ info.totalram * info.mem_unit =
      mul-le-mul_right info.mem_unit h in
    (_, refl, refl, omega arith, omega arith, omega arith)
