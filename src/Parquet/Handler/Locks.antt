-- ===== src/Parquet/Handler/Locks.antt =====
-- The lock that `store_lock` asks for, and the row count that `info` reports.
use devel_mysql_plugin.Common.{
  ℕ, ◌≤◌, ◌<◌, ◌≡◌, ◌≢◌, ◌⊎◌, inl, inr, Bool-cases, arith, Bool, true, false, not, ◌&&◌, ◌==◌, max,
}
use devel_mysql_plugin.Parquet.HaError.{success}
use devel_mysql_plugin.Parquet.Server.{Server, LockTypes}
use devel_mysql_plugin.Parquet.Handler.{Handler, downgrade, store_lock, info}

-- The order of `enum thr_lock_type`, as far as the engine relies on it.
pub record Ordered (l : LockTypes) : Type 0 where
  pub read_below : l.tl_read < l.tl_read_no_insert
  pub read_below_write : l.tl_read_no_insert < l.tl_write_allow_write
  pub shared_write : l.tl_write_allow_write < l.tl_write_concurrent_insert
  pub write_last : l.tl_write_concurrent_insert ≤ l.tl_write

-- The write locks that shut other statements out.
abbrev pub IsWrite : LockTypes → ℕ → Type 0
IsWrite l t = (l.tl_write_concurrent_insert ≤ t) × (t ≤ l.tl_write)

-- What a request turns into: itself under LOCK TABLES; without it a write lock turns into
-- TL_WRITE_ALLOW_WRITE, TL_READ_NO_INSERT turns into TL_READ, and any other stays; the
-- result is none that shuts other statements out.
abbrev pub Grants : LockTypes → Bool → ℕ → ℕ → Type 0
Grants l true asked got = got ≡ asked
Grants l false asked got =
    ¬ IsWrite l got
    × (got ≢ l.tl_read_no_insert)
    × (IsWrite l asked × (got ≡ l.tl_write_allow_write)
        ⊎ (asked ≡ l.tl_read_no_insert) × (got ≡ l.tl_read)
        ⊎ ¬ IsWrite l asked × (asked ≢ l.tl_read_no_insert) × (got ≡ asked))

module _ (srv : Server) where
  open srv use {locks as l}

  downgrade-Grants :
      (in_lock_tables : Bool) (asked : ℕ)
      → Ordered l
      → Grants l in_lock_tables asked (downgrade srv in_lock_tables asked)
  unfolding downgrade
  downgrade-Grants true asked o = ground arith
  downgrade-Grants false asked o = ground arith

  -- `store_lock` leaves the handler as it was if the request is TL_IGNORE or the handler has a lock
  -- type other than TL_UNLOCK, and otherwise changes its lock type alone: under LOCK TABLES to the one
  -- asked for; without it a write lock from TL_WRITE_CONCURRENT_INSERT to TL_WRITE becomes
  -- TL_WRITE_ALLOW_WRITE, TL_READ_NO_INSERT becomes TL_READ, and any other is the one asked for, so
  -- that it is never TL_READ_NO_INSERT or a write lock in that range. The lock types have the order
  -- of `enum thr_lock_type`.
  pub store_lock_lem :
      (in_lock_tables : Bool) (asked : ℕ) (h : Handler)
      → Ordered l
      → ((asked ≡ l.tl_ignore) ⊎ (h.lock_type ≢ l.tl_unlock))
          × (store_lock srv in_lock_tables asked h ≡ h)
        ⊎ (got : ℕ) × (asked ≢ l.tl_ignore)
          × (h.lock_type ≡ l.tl_unlock)
          × (store_lock srv in_lock_tables asked h ≡ record h { lock_type = got })
          × Grants l in_lock_tables asked got
  unfolding store_lock
  store_lock_lem in_lock_tables asked h o =
      elim (Bool-cases (not (asked == l.tl_ignore) && (h.lock_type == l.tl_unlock))) [
        | inl e ↦ inr (
          downgrade srv in_lock_tables asked,
          ground arith,
          ground arith,
          rw e,
          downgrade-Grants in_lock_tables asked o,
        )
        | inr e ↦ inl (ground arith, rw e)
      ]

  -- `info` reports the rows of the table, but never fewer than two.
  pub info-records :
      (flag : ℕ) (h : Handler)
      → ((info srv flag h).0 ≡ success)
        × ((info srv flag h).1.stats.records ≡ max h.total_rows 2)
        × ((info srv flag h).1.total_rows ≡ h.total_rows)
  unfolding info
  info-records flag h = ground arith
