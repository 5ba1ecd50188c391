-- ===== src/Parquet/Sessions/Locking/Exclusion.antt =====
-- What holds between the steps of the sessions, and what of it a move keeps.
use devel_mysql_plugin.Common.{
  ℕ, ◌+◌, ◌≡◌, ◌≢◌, ◌∙◌, sym, ap, subst, refl, arith, Bool, true, false, Option, none, some, ◌==◌,
}
use native.Mathlib.Decide.{ℕ_discrete}
use devel_mysql_plugin.Parquet.Sessions.Locking.{
  Place, outside, entering, locked, missing, making, leaving, returned, System, moved, after_read,
  after_new, count,
}

-- Between the lock and the unlock.
unfoldable pub is_inside : Place → Bool
is_inside outside = false
is_inside entering = false
is_inside locked = true
is_inside missing = true
is_inside (making s) = true
is_inside (leaving r) = true
is_inside (returned r) = false

-- What a session at a place knows of the table's share.
unfoldable pub Knows : Option ℕ → Place → Type 0
Knows h outside = Unit {0}
Knows h entering = Unit {0}
Knows h locked = Unit {0}
Knows h missing = h ≡ none
Knows h (making s) = h ≡ none
Knows h (leaving none) = Unit {0}
Knows h (leaving (some s)) = h ≡ some s
Knows h (returned none) = Unit {0}
Knows h (returned (some s)) = h ≡ some s

-- A share that is made and not yet the table's.
unfoldable pub pending_at : Place → ℕ
pending_at outside = 0
pending_at entering = 0
pending_at locked = 0
pending_at missing = 0
pending_at (making s) = 1
pending_at (leaving r) = 0
pending_at (returned r) = 0

abbrev pub pending : Option ℕ → (ℕ → Place) → ℕ
pending none place = 0
pending (some i) place = pending_at (place i)

pub record Inv (t : System) : Type 0 where
  pub holds : (i : ℕ) → is_inside (t.place i) ≡ true → t.owner ≡ some i
  pub knows : (i : ℕ) → Knows t.ha_share (t.place i)
  pub counted : t.made ≡ count t.ha_share + pending t.owner t.place

pub moved_own : (place : ℕ → Place) (i : ℕ) (p : Place) → moved place i p i ≡ p
unfolding moved
moved_own place i p = let own : (i == i) ≡ true = ground arith in rw own refl

pub moved_other : (place : ℕ → Place) (i j : ℕ) (p : Place) → j ≢ i → moved place i p j ≡ place j
unfolding moved
moved_other place i j p h = let other : (j == i) ≡ false = ground (arith, h) in rw other refl

-- A property of all places after a move: it holds at the new one, and at those of the others.
pub each :
    (place : ℕ → Place) (i : ℕ) (p : Place) (P : ℕ → Place → Type 0)
    → P i p
    → ((j : ℕ) → j ≢ i → P j (place j))
    → (j : ℕ) → P j (moved place i p j)
each place i p P own other j = elim (ℕ_discrete j i) [
  | yes e ↦
      subst (λ k. P k (moved place i p k)) (sym e) (subst (P i) (sym (moved_own place i p)) own)
  | no ne ↦ subst (P j) (sym (moved_other place i j p ne)) (other j ne)
]

pending_same :
    (o : Option ℕ) (place : ℕ → Place) (i : ℕ) (p : Place)
    → pending_at p ≡ pending_at (place i)
    → pending o (moved place i p) ≡ pending o place
pending_same none place i p e = refl
pending_same (some k) place i p e = elim (ℕ_discrete k i) [
  | yes same ↦
      ap (λ j. pending_at (moved place i p j)) same
      ∙ ap pending_at (moved_own place i p)
      ∙ e
      ∙ ap (λ j. pending_at (place j)) (sym same)
  | no other ↦ ap pending_at (moved_other place i k p other)
]

pub pending_own :
    (o : Option ℕ) (place : ℕ → Place) (i : ℕ) (p : Place)
    → o ≡ some i
    → pending o (moved place i p) ≡ pending_at p
pending_own o place i p e =
    ap (λ x. pending x (moved place i p)) e ∙ ap pending_at (moved_own place i p)

-- Two sessions do not hold the lock.
pub one_owner : {o : Option ℕ} {i j : ℕ} → o ≡ some i → o ≡ some j → i ≡ j
one_owner e f = ground (arith, e, f)

inside_at : {l p : Place} → l ≡ p → is_inside p ≡ true → is_inside l ≡ true
inside_at e h = ap is_inside e ∙ h

pub read-Knows : (h : Option ℕ) → Knows h (after_read h)
unfolding Knows
read-Knows none = refl
read-Knows (some s) = refl

pub read_pending : (h : Option ℕ) → pending_at (after_read h) ≡ 0
unfolding pending_at
read_pending none = refl
read_pending (some s) = refl

pub new-Knows : (fresh h : Option ℕ) → h ≡ none → Knows h (after_new fresh)
unfolding Knows
new-Knows none h e = tt
new-Knows (some s) h e = e

pub new_pending : (fresh : Option ℕ) → pending_at (after_new fresh) ≡ count fresh
unfolding pending_at
new_pending none = refl
new_pending (some s) = refl

pub outside-Knows : (l : Place) (h : Option ℕ) → is_inside l ≡ false → Knows none l → Knows h l
unfolding Knows is_inside
outside-Knows outside h out k = tt
outside-Knows entering h out k = tt
outside-Knows locked h out k = tt
outside-Knows missing h out k = ground (arith, out)
outside-Knows (making s) h out k = ground (arith, out)
outside-Knows (leaving r) h out k = ground (arith, out)
outside-Knows (returned none) h out k = tt
outside-Knows (returned (some s)) h out k = ground (arith, k)

pub returned-Knows : (h r : Option ℕ) → Knows h (leaving r) → Knows h (returned r)
unfolding Knows
returned-Knows h none k = k
returned-Knows h (some s) k = k

module _ (t : System) (v : Inv t) where
  -- A move of session `i` that changes nothing else.
  pub plain :
      (i : ℕ) (p : Place)
      → (is_inside p ≡ true → t.owner ≡ some i)
      → Knows t.ha_share p
      → pending_at p ≡ pending_at (t.place i)
      → Inv (record t { place = moved t.place i p })
  plain i p inside knows same = record {
    holds =
        each t.place i p (λ j l. is_inside l ≡ true → t.owner ≡ some j) inside (λ j ne. v.holds j);
    knows = each t.place i p (λ j l. Knows t.ha_share l) knows (λ j ne. v.knows j);
    counted = omega (arith, v.counted, pending_same t.owner t.place i p same);
  }

  pub known : (i : ℕ) (p : Place) → t.place i ≡ p → Knows t.ha_share p
  known i p e = subst (Knows t.ha_share) e (v.knows i)

  pub owns : (i : ℕ) (p : Place) → t.place i ≡ p → is_inside p ≡ true → t.owner ≡ some i
  owns i p e h = v.holds i (inside_at e h)
