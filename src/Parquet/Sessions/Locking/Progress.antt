-- ===== src/Parquet/Sessions/Locking/Progress.antt =====
-- The lock is given back.
use devel_mysql_plugin.Common.{
  ℕ, ◌<◌, ◌≤◌, ◌≡◌, ◌≢◌, ◌∙◌, ap, refl, arith, true, false, Option, none, some,
}
use devel_mysql_plugin.Parquet.Sessions.Locking.{
  Place, outside, entering, locked, missing, making, leaving, returned, System, moved, after_read,
  after_new, Step, call_step, lock_step, read_step, new_step, set_step, unlock_step, again_step,
  Reachable, at_start, by_step,
}
use devel_mysql_plugin.Parquet.Sessions.Locking.Exclusion.{
  is_inside, moved_own, moved_other, each, one_owner, Inv,
}
use devel_mysql_plugin.Parquet.Sessions.Locking.Sharing.{Reachable-Inv}

-- The steps of a session to its unlock, at most.
unfoldable pub steps_left : Place → ℕ
steps_left outside = 0
steps_left entering = 0
steps_left locked = 4
steps_left missing = 3
steps_left (making s) = 2
steps_left (leaving r) = 1
steps_left (returned r) = 0

-- Who has the lock is inside.
Held : System → Type 0
Held t = (i : ℕ) → t.owner ≡ some i → is_inside (t.place i) ≡ true

read_goes : (h : Option ℕ) → (is_inside (after_read h) ≡ true) × (steps_left (after_read h) < 4)
unfolding is_inside steps_left
read_goes none = (refl, omega arith)
read_goes (some s) = (refl, omega arith)

new_goes :
    (fresh : Option ℕ) → (is_inside (after_new fresh) ≡ true) × (steps_left (after_new fresh) < 3)
unfolding is_inside steps_left
new_goes none = (refl, omega arith)
new_goes (some s) = (refl, omega arith)

-- A move that leaves the lock where it is.
keeps-Held :
    (t : System) (i : ℕ) (p : Place)
    → Held t
    → (t.owner ≡ some i → is_inside p ≡ true)
    → (j : ℕ) → t.owner ≡ some j
    → is_inside (moved t.place i p j) ≡ true
unfolding Held
keeps-Held t i p v own =
    each t.place i p (λ j l. t.owner ≡ some j → is_inside l ≡ true) own (λ j ne. v j)

-- Who is not inside does not have the lock.
not_owner :
    (t : System) (i : ℕ) (p l : Place)
    → Held t
    → t.place i ≡ p
    → is_inside p ≡ false
    → t.owner ≡ some i
    → is_inside l ≡ true
unfolding Held
not_owner t i p l v e out own =
    let inside = v i own in
    let here : is_inside (t.place i) ≡ false = ap is_inside e ∙ out in
    absurd (ground (arith, inside, here))

Step-Held : {t : System} {i : ℕ} {u : System} → Step t i u → Held t → Held u
unfolding Held is_inside
Step-Held {t} {i} (call_step e) v =
    keeps-Held t i entering v (not_owner t i outside entering v e refl)
Step-Held {t} {i} (lock_step e free) v =
    each t.place i locked (λ j l. some i ≡ some j → is_inside l ≡ true) (λ o. refl)
      (λ j ne o. absurd (ne (ground (arith, o))))
Step-Held {t} {i} (read_step e) v =
    keeps-Held t i (after_read t.ha_share) v (λ o. (read_goes t.ha_share).0)
Step-Held {t} {i} (new_step fresh e) v =
    keeps-Held t i (after_new fresh) v (λ o. (new_goes fresh).0)
Step-Held {t} {i} (set_step s e) v = keeps-Held t i (leaving (some s)) v (λ o. refl)
Step-Held {t} {i} (unlock_step r e) v = λ j o. ground (arith, o)
Step-Held {t} {i} (again_step r e) v =
    keeps-Held t i outside v (not_owner t i (returned r) outside v e refl)

Reachable-Held : {t : System} → Reachable t → Held t
unfolding Held
Reachable-Held at_start = λ i o. ground (arith, o)
Reachable-Held (by_step t u i r st) = Step-Held st (Reachable-Held r)

-- From a place inside there is a step.
can-Step :
    (t : System) (i : ℕ) (p : Place)
    → t.place i ≡ p
    → is_inside p ≡ true
    → (u : System) × Step t i u
unfolding is_inside
can-Step t i outside e h = ground (arith, h)
can-Step t i entering e h = ground (arith, h)
can-Step t i locked e h = (_, read_step e)
can-Step t i missing e h = (_, new_step none e)
can-Step t i (making s) e h = (_, set_step s e)
can-Step t i (leaving r) e h = (_, unlock_step r e)
can-Step t i (returned r) e h = ground (arith, h)

-- A step of a session that is inside brings it nearer to its unlock.
shorter :
    (t : System) (i : ℕ) (p p' : Place) (n : ℕ)
    → t.place i ≡ p
    → steps_left p ≡ n
    → steps_left p' < n
    → steps_left (moved t.place i p' i) < steps_left (t.place i)
shorter t i p p' n e m h =
    let own = ap steps_left (moved_own t.place i p') in
    let before = ap steps_left e in omega (arith, own, before, m, h)

Step-shorter :
    {t : System} {i : ℕ} {u : System}
    → Step t i u
    → is_inside (t.place i) ≡ true
    → steps_left (u.place i) < steps_left (t.place i)
unfolding is_inside steps_left
Step-shorter {t} {i} (call_step e) h =
    let out : is_inside (t.place i) ≡ false = ap is_inside e in ground (arith, out, h)
Step-shorter {t} {i} (lock_step e free) h =
    let out : is_inside (t.place i) ≡ false = ap is_inside e in ground (arith, out, h)
Step-shorter {t} {i} (again_step r e) h =
    let out : is_inside (t.place i) ≡ false = ap is_inside e in ground (arith, out, h)
Step-shorter {t} {i} (read_step e) h =
    shorter t i locked (after_read t.ha_share) 4 e refl (read_goes t.ha_share).1
Step-shorter {t} {i} (new_step fresh e) h =
    shorter t i missing (after_new fresh) 3 e refl (new_goes fresh).1
Step-shorter {t} {i} (set_step s e) h =
    shorter t i (making s) (leaving (some s)) 2 e refl (omega arith)
Step-shorter {t} {i} (unlock_step r e) h =
    shorter t i (leaving r) (returned r) 1 e refl (omega arith)

-- Another session's step leaves the owner where it is.
Step-other :
    {t : System} {j : ℕ} {u : System}
    → Step t j u
    → Inv t
    → (i : ℕ) → i ≢ j
    → t.owner ≡ some i
    → (u.owner ≡ some i) × (u.place i ≡ t.place i)
unfolding is_inside
Step-other {t} {j} (call_step e) v i ne own = (own, moved_other t.place j i entering ne)
Step-other {t} {j} (lock_step e free) v i ne own = ground (arith, own, free)
Step-other {t} {j} (read_step e) v i ne own =
    (own, moved_other t.place j i (after_read t.ha_share) ne)
Step-other {t} {j} (new_step fresh e) v i ne own =
    (own, moved_other t.place j i (after_new fresh) ne)
Step-other {t} {j} (set_step s e) v i ne own = (own, moved_other t.place j i (leaving (some s)) ne)
Step-other {t} {j} (unlock_step r e) v i ne own =
    absurd (ne (one_owner own (v.holds j (ap is_inside e))))
Step-other {t} {j} (again_step r e) v i ne own = (own, moved_other t.place j i outside ne)

steps_left_le : (l : Place) → steps_left l ≤ 4
unfolding steps_left
steps_left_le l = ground arith

-- Whatever the sessions have done: the session that has the lock is at most four steps of its own from
-- its unlock, and has a step to take; each step of its own brings it nearer, and no step of another
-- session takes the lock or moves it.
pub lock_given_back :
    (t : System) (i : ℕ)
    → Reachable t
    → t.owner ≡ some i
    → (steps_left (t.place i) ≤ 4)
      × ((u : System) × Step t i u)
      × ((u : System) → Step t i u → steps_left (u.place i) < steps_left (t.place i))
      × ((j : ℕ) (u : System) → i ≢ j → Step t j u → (u.owner ≡ some i) × (u.place i ≡ t.place i))
unfolding Held
lock_given_back t i r own =
    let inside = Reachable-Held r i own in
    (
      steps_left_le (t.place i),
      can-Step t i (t.place i) refl inside,
      λ u st. Step-shorter st inside,
      λ j u ne st. Step-other st (Reachable-Inv r) i ne own,
    )
