-- ===== src/Monitor/Disk.antt =====
-- `disk_stat_get`. What IOKit answers is a parameter: `none` if the services cannot be listed, and
-- otherwise an entry for each drive, which may lack its properties, its statistics, or a counter.
pub mod Totals
use devel_mysql_plugin.Common.{
  ℕ, ◌+◌, ◌%◌, ◌^◌, ℤ, word, Bool, true, false, Option, none, some, List, [], ◌∷◌,
}

-- The "Statistics" of a drive: its two counters, as `int64_t`.
pub record Statistics : Type 0 where
  pub read_key : Option ℤ
  pub written_key : Option ℤ

-- The properties of a drive hold its statistics.
pub data Drive : Type 0 where
  no_properties no_statistics : Drive
  drive : Statistics → Drive

pub record DiskStat : Type 0 where
  pub bytes_read : ℕ
  pub bytes_written : ℕ

abbrev pub no_bytes : DiskStat
no_bytes = record { bytes_read = 0; bytes_written = 0 }

-- The lambda `fetch`, by the new value of `val`.
unfoldable pub fetch : Option ℤ → ℕ → ℕ
unfolding word
fetch none val = val
fetch (some v) val = (val + word (2 ^ 64) v) % 2 ^ 64

-- The body of the loop.
unfoldable pub add_drive : Drive → DiskStat → DiskStat
add_drive no_properties out = out
add_drive no_statistics out = out
add_drive (drive s) out = record {
  bytes_read = fetch s.read_key out.bytes_read;
  bytes_written = fetch s.written_key out.bytes_written;
}

unfoldable pub add_drives : List Drive → DiskStat → DiskStat
add_drives [] out = out
add_drives (x ∷ drives) out = add_drives drives (add_drive x out)

-- The result and `out`.
unfoldable pub disk_stat_get : Option (List Drive) → Bool × DiskStat
disk_stat_get none = (false, no_bytes)
disk_stat_get (some drives) = (true, add_drives drives no_bytes)
