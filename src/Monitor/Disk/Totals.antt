-- ===== src/Monitor/Disk/Totals.antt =====
-- The counters of all drives are added up.
use devel_mysql_plugin.Common.{
  ℕ, ◌+◌, ◌^◌, ◌<◌, ◌≡◌, refl, arith, pos, word, true, some, List, [], ◌∷◌,
}
use devel_mysql_plugin.Monitor.Disk.{
  Drive, drive, DiskStat, no_bytes, fetch, add_drive, add_drives, disk_stat_get,
}

-- A drive that has counted `r` bytes read and `w` bytes written.
abbrev pub counting : ℕ × ℕ → Drive
counting (r, w) = drive (record { read_key = some (pos r); written_key = some (pos w) })

unfoldable pub drives_of : List (ℕ × ℕ) → List Drive
drives_of [] = []
drives_of (c ∷ counts) = counting c ∷ drives_of counts

unfoldable pub sum_read : List (ℕ × ℕ) → ℕ
sum_read [] = 0
sum_read (c ∷ counts) = c.0 + sum_read counts

unfoldable pub sum_written : List (ℕ × ℕ) → ℕ
sum_written [] = 0
sum_written (c ∷ counts) = c.1 + sum_written counts

add_drives_lem :
    (counts : List (ℕ × ℕ)) (out : DiskStat)
    → out.bytes_read + sum_read counts < 2 ^ 64
    → out.bytes_written + sum_written counts < 2 ^ 64
    → ((add_drives (drives_of counts) out).bytes_read ≡ out.bytes_read + sum_read counts)
      × ((add_drives (drives_of counts) out).bytes_written ≡ out.bytes_written + sum_written counts)
unfolding add_drives drives_of sum_read sum_written add_drive fetch word
add_drives_lem [] out hr hw = (omega arith, omega arith)
add_drives_lem (c ∷ counts) out hr hw =
    let next = add_drive (counting c) out in
    let read : next.bytes_read ≡ out.bytes_read + c.0 = omega arith in
    let written : next.bytes_written ≡ out.bytes_written + c.1 = omega arith in
    omega (arith, add_drives_lem counts next (omega arith) (omega arith))

-- Over drives that all have their counters, in any number, `disk_stat_get` succeeds and gives the
-- sums, so long as these are below 2 ^ 64.
pub disk_stat_get_lem :
    (counts : List (ℕ × ℕ))
    → sum_read counts < 2 ^ 64
    → sum_written counts < 2 ^ 64
    → ((disk_stat_get (some (drives_of counts))).0 ≡ true)
      × ((disk_stat_get (some (drives_of counts))).1.bytes_read ≡ sum_read counts)
      × ((disk_stat_get (some (drives_of counts))).1.bytes_written ≡ sum_written counts)
unfolding disk_stat_get
disk_stat_get_lem counts hr hw =
    let sums = add_drives_lem counts no_bytes (omega arith) (omega arith) in
    (refl, omega (arith, sums), omega (arith, sums))
