-- ===== src/Parquet/Sessions/Locking.antt =====
-- `ha_parquet::get_share` line by line, called by any sessions at once. The lock of the table's shared
-- data is the server's: one session at a time has it, and who asks for it while another has it waits.
pub mod Exclusion
pub mod Sharing
pub mod Atomic
pub mod Progress
mod Examples
use devel_mysql_plugin.Common.{
  ℕ, ◌+◌, ◌≡◌, Bool, true, false, Option, none, some, ◌==◌, if◌then◌else◌,
}

-- Where a session is: not in `get_share`; before `lock_shared_ha_data`; before the pointer is read;
-- before `new`; before `set_ha_share_ptr`, with the new share; before `unlock_shared_ha_data`, with
-- `tmp_share`; or after the call, with its result.
pub data Place : Type 0 where
  outside entering locked missing : Place
  making : ℕ → Place
  leaving returned : Option ℕ → Place

-- The session that has the lock, the table's share, the shares that `new` has made, and the places.
pub record System : Type 0 where
  pub owner : Option ℕ
  pub ha_share : Option ℕ
  pub made : ℕ
  pub place : ℕ → Place

unfoldable pub moved : (ℕ → Place) → ℕ → Place → ℕ → Place
moved place i p j = if j == i then p else place j

-- The place after the pointer is read, and after `new`, which gives `fresh`.
abbrev pub after_read : Option ℕ → Place
after_read none = missing
after_read (some s) = leaving (some s)

abbrev pub after_new : Option ℕ → Place
after_new none = leaving none
after_new (some s) = making s

abbrev pub count : Option ℕ → ℕ
count none = 0
count (some s) = 1

-- A step of session `i`.
pub data Step (t : System) (i : ℕ) : System → Type 0 where
  call_step : t.place i ≡ outside → Step t i (record t { place = moved t.place i entering })
  lock_step :
      t.place i ≡ entering
      → t.owner ≡ none
      → Step t i (record t { owner = some i; place = moved t.place i locked })
  read_step :
      t.place i ≡ locked → Step t i (record t { place = moved t.place i (after_read t.ha_share) })
  new_step :
      (fresh : Option ℕ)
      → t.place i ≡ missing
      → Step t i
          (record t { made = t.made + count fresh; place = moved t.place i (after_new fresh) })
  set_step :
      (s : ℕ)
      → t.place i ≡ making s
      → Step t i (record t { ha_share = some s; place = moved t.place i (leaving (some s)) })
  unlock_step :
      (r : Option ℕ)
      → t.place i ≡ leaving r
      → Step t i (record t { owner = none; place = moved t.place i (returned r) })
  again_step :
      (r : Option ℕ)
      → t.place i ≡ returned r
      → Step t i (record t { place = moved t.place i outside })

abbrev pub initial : System
initial = record { owner = none; ha_share = none; made = 0; place = λ i. outside }

pub data Reachable : System → Type 0 where
  at_start : Reachable initial
  by_step : (t u : System) (i : ℕ) → Reachable t → Step t i u → Reachable u
