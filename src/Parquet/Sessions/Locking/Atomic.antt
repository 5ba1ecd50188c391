-- ===== src/Parquet/Sessions/Locking/Atomic.antt =====
-- The lock makes `get_share` one step, as Handler takes it.
use devel_mysql_plugin.Common.{ℕ, ◌≡◌, sym, subst, refl, arith, Option, none, some}
use devel_mysql_plugin.Parquet.Handler.{get_share}
use devel_mysql_plugin.Parquet.Sessions.Locking.{
  Place, outside, entering, locked, missing, making, leaving, returned, System, moved, after_read,
  after_new, Step, call_step, lock_step, read_step, new_step, set_step, unlock_step, again_step,
  Reachable,
}
use devel_mysql_plugin.Parquet.Sessions.Locking.Exclusion.{Knows, moved_own, Inv, known}
use devel_mysql_plugin.Parquet.Sessions.Locking.Sharing.{Reachable-Inv}

-- A session at a place has settled what its call of `get_share` comes to, with the share of the table
-- before and after.
unfoldable Settles : Option ℕ → Option ℕ → Place → Type 0
Settles before after (leaving r) = (fresh : Option ℕ) × (get_share before fresh ≡ (r, after))
Settles before after _ = after ≡ before

read-Settles : (h : Option ℕ) → Settles h h (after_read h)
unfolding Settles get_share
read-Settles none = refl
read-Settles (some s) = (none, refl)

new-Settles : (h fresh : Option ℕ) → h ≡ none → Settles h h (after_new fresh)
unfolding Settles get_share
new-Settles none none e = (none, refl)
new-Settles (some s) none e = ground (arith, e)
new-Settles h (some s) e = refl

set-Settles : (h : Option ℕ) (s : ℕ) → h ≡ none → Settles h (some s) (leaving (some s))
unfolding Settles get_share
set-Settles none s e = (some s, refl)
set-Settles (some s') s e = ground (arith, e)

settled :
    (t : System) (i : ℕ) (p : Place) (after : Option ℕ)
    → Settles t.ha_share after p
    → Settles t.ha_share after (moved t.place i p i)
settled t i p after s = subst (Settles t.ha_share after) (sym (moved_own t.place i p)) s

Step-Settles :
    {t : System} {i : ℕ} {u : System}
    → Step t i u
    → Inv t
    → Settles t.ha_share u.ha_share (u.place i)
unfolding Settles Knows
Step-Settles {t} {i} (call_step e) v = settled t i entering t.ha_share refl
Step-Settles {t} {i} (lock_step e free) v = settled t i locked t.ha_share refl
Step-Settles {t} {i} (read_step e) v =
    settled t i (after_read t.ha_share) t.ha_share (read-Settles t.ha_share)
Step-Settles {t} {i} (new_step fresh e) v =
    settled t i (after_new fresh) t.ha_share (new-Settles t.ha_share fresh (known t v i missing e))
Step-Settles {t} {i} (set_step s e) v =
    settled t i (leaving (some s)) (some s) (set-Settles t.ha_share s (known t v i (making s) e))
Step-Settles {t} {i} (unlock_step r e) v = settled t i (returned r) t.ha_share refl
Step-Settles {t} {i} (again_step r e) v = settled t i outside t.ha_share refl

-- Whatever the sessions have done, in whatever order: the step by which a call of `get_share` comes to
-- its unlock, with the result that it is to return, finds and leaves the share of the table as the
-- whole function does when it is taken as one step, for some outcome of `new`, and with the same
-- result; any other step of a call leaves the share as it is.
get_share_atomic :
    (t : System) (i : ℕ) (u : System)
    → Reachable t
    → Step t i u
    → Settles t.ha_share u.ha_share (u.place i)
get_share_atomic t i u r st = Step-Settles st (Reachable-Inv r)
