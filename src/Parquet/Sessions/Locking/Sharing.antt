-- ===== src/Parquet/Sessions/Locking/Sharing.antt =====
-- One session at a time is between the lock and the unlock, and the sessions get one share.
use devel_mysql_plugin.Common.{
  ℕ, ◌+◌, ◌≤◌, ◌≡◌, ◌≢◌, ◌∙◌, sym, ap, subst, refl, arith, true, false, Option, none, some, inl,
  inr, Bool-cases,
}
use devel_mysql_plugin.Parquet.Sessions.Locking.{
  Place, outside, entering, locked, missing, making, leaving, returned, System, moved, after_read,
  after_new, count, Step, call_step, lock_step, read_step, new_step, set_step, unlock_step,
  again_step, Reachable, at_start, by_step,
}
use devel_mysql_plugin.Parquet.Sessions.Locking.Exclusion.{
  is_inside, Knows, pending_at, pending, Inv, each, pending_own, one_owner, read-Knows,
  read_pending, new-Knows, new_pending, outside-Knows, returned-Knows, plain, known, owns,
}

module _ (t : System) (v : Inv t) (i : ℕ) where
  -- Who is inside besides the owner.
  alone : (j : ℕ) → j ≢ i → t.owner ≡ some i → is_inside (t.place j) ≡ true → ⊥
  alone j other own inside = other (one_owner (v.holds j inside) own)

  not_inside : (j : ℕ) → j ≢ i → t.owner ≡ some i → is_inside (t.place j) ≡ false
  not_inside j other own = elim (Bool-cases (is_inside (t.place j))) [
    | inl inside ↦ absurd (alone j other own inside)
    | inr out ↦ out
  ]

  lock-Inv :
      t.place i ≡ entering
      → t.owner ≡ none
      → Inv (record t { owner = some i; place = moved t.place i locked })
  unfolding is_inside Knows pending_at
  lock-Inv e free = record {
    holds =
        each t.place i locked (λ j l. is_inside l ≡ true → some i ≡ some j) (λ h. refl)
          (λ j ne h. ground (arith, v.holds j h, free));
    knows = each t.place i locked (λ j l. Knows t.ha_share l) tt (λ j ne. v.knows j);
    counted =
        let now = pending_own (some i) t.place i locked refl in
        let before : pending t.owner t.place ≡ 0 = ap (λ o. pending o t.place) free in
        omega (arith, v.counted, now, before);
  }

  new-Inv :
      (fresh : Option ℕ)
      → t.place i ≡ missing
      → Inv (record t { made = t.made + count fresh; place = moved t.place i (after_new fresh) })
  unfolding pending_at is_inside Knows
  new-Inv fresh e =
      let own = owns t v i missing e refl in
      record {
        holds =
            each t.place i (after_new fresh) (λ j l. is_inside l ≡ true → t.owner ≡ some j)
              (λ h. own) (λ j ne. v.holds j);
        knows =
            each t.place i (after_new fresh) (λ j l. Knows t.ha_share l)
              (new-Knows fresh t.ha_share (known t v i missing e)) (λ j ne. v.knows j);
        counted =
            let now = pending_own t.owner t.place i (after_new fresh) own in
            let before : pending t.owner t.place ≡ 0 =
              ap (λ o. pending o t.place) own ∙ ap pending_at e in
            omega (arith, v.counted, now, before, new_pending fresh);
      }

  set-Inv :
      (s : ℕ)
      → t.place i ≡ making s
      → Inv (record t { ha_share = some s; place = moved t.place i (leaving (some s)) })
  unfolding pending_at is_inside Knows
  set-Inv s e =
      let own = owns t v i (making s) e refl in
      let none_yet : t.ha_share ≡ none = known t v i (making s) e in
      record {
        holds =
            each t.place i (leaving (some s)) (λ j l. is_inside l ≡ true → t.owner ≡ some j)
              (λ h. own) (λ j ne. v.holds j);
        knows =
            each t.place i (leaving (some s)) (λ j l. Knows (some s) l) refl
              (λ j ne.
                outside-Knows (t.place j) (some s) (not_inside j ne own)
                  (subst (λ h. Knows h (t.place j)) none_yet (v.knows j)));
        counted =
            let now = pending_own t.owner t.place i (leaving (some s)) own in
            let before : pending t.owner t.place ≡ 1 =
              ap (λ o. pending o t.place) own ∙ ap pending_at e in
            let none_counted : count t.ha_share ≡ 0 = ap count none_yet in
            omega (arith, v.counted, now, before, none_counted);
      }

  unlock-Inv :
      (r : Option ℕ)
      → t.place i ≡ leaving r
      → Inv (record t { owner = none; place = moved t.place i (returned r) })
  unfolding pending_at is_inside
  unlock-Inv r e =
      let own = owns t v i (leaving r) e refl in
      record {
        holds =
            each t.place i (returned r) (λ j l. is_inside l ≡ true → none ≡ some j)
              (λ h. ground (arith, h)) (λ j ne h. absurd (alone j ne own h));
        knows =
            each t.place i (returned r) (λ j l. Knows t.ha_share l)
              (returned-Knows t.ha_share r (known t v i (leaving r) e)) (λ j ne. v.knows j);
        counted =
            let before : pending t.owner t.place ≡ 0 =
              ap (λ o. pending o t.place) own ∙ ap pending_at e in
            omega (arith, v.counted, before);
      }

Step-Inv : {t : System} {i : ℕ} {u : System} → Step t i u → Inv t → Inv u
unfolding is_inside Knows pending_at
Step-Inv {t} {i} (call_step e) v =
    plain t v i entering (λ h. ground (arith, h)) tt (sym (ap pending_at e))
Step-Inv {t} {i} (lock_step e free) v = lock-Inv t v i e free
Step-Inv {t} {i} (read_step e) v =
    plain t v i (after_read t.ha_share) (λ h. owns t v i locked e refl) (read-Knows t.ha_share)
      (read_pending t.ha_share ∙ sym (ap pending_at e))
Step-Inv {t} {i} (new_step fresh e) v = new-Inv t v i fresh e
Step-Inv {t} {i} (set_step s e) v = set-Inv t v i s e
Step-Inv {t} {i} (unlock_step r e) v = unlock-Inv t v i r e
Step-Inv {t} {i} (again_step r e) v =
    plain t v i outside (λ h. ground (arith, h)) tt (sym (ap pending_at e))

pub Reachable-Inv : {t : System} → Reachable t → Inv t
unfolding is_inside Knows
Reachable-Inv at_start = record {
  holds = λ i h. ground (arith, h);
  knows = λ i. tt;
  counted = omega arith;
}
Reachable-Inv (by_step t u i r st) = Step-Inv st (Reachable-Inv r)

pending_le : (l : Place) → pending_at l ≤ 1
unfolding pending_at
pending_le l = ground arith

made_le : (h : Option ℕ) (l : Place) → Knows h l → count h + pending_at l ≤ 1
unfolding Knows pending_at
made_le none l k = omega (arith, pending_le l)
made_le (some s) outside k = omega arith
made_le (some s) entering k = omega arith
made_le (some s) locked k = omega arith
made_le (some s) missing k = omega arith
made_le (some s) (making s') k = ground (arith, k)
made_le (some s) (leaving r) k = omega arith
made_le (some s) (returned r) k = omega arith

all_made_le :
    (h o : Option ℕ) (place : ℕ → Place)
    → ((i : ℕ) → Knows h (place i))
    → count h + pending o place ≤ 1
all_made_le none none place k = omega arith
all_made_le (some s) none place k = omega arith
all_made_le h (some i) place k = made_le h (place i) (k i)

-- Whatever the sessions do, in whatever order: no two of them are between the lock and the unlock of
-- `get_share`; at most one share is ever made for the table; and every call that has returned a
-- share has returned the one that the table keeps.
pub sessions_one_share :
    (t : System)
    → Reachable t
    → ((i j : ℕ) → is_inside (t.place i) ≡ true → is_inside (t.place j) ≡ true → i ≡ j)
      × (t.made ≤ 1)
      × ((i s : ℕ) → t.place i ≡ returned (some s) → t.ha_share ≡ some s)
unfolding Knows
sessions_one_share t r =
    let v = Reachable-Inv r in
    (
      λ i j a b. one_owner (v.holds i a) (v.holds j b),
      omega (arith, v.counted, all_made_le t.ha_share t.owner t.place v.knows),
      λ i s e. known t v i (returned (some s)) e,
    )
