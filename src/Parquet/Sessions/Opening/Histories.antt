-- ===== src/Parquet/Sessions/Opening/Histories.antt =====
-- What the sessions have asked and heard, after one event more.
use native.Mathlib.Decide.{ℕ_discrete}
use devel_mysql_plugin.Common.{
  ℕ, ◌≡◌, ◌≢◌, ◌∙◌, ap, subst, sym, refl, arith, true, false, ◌==◌, if◌then◌else◌, Option, none,
  some, List, [], ◌∷◌, ◌++◌, Option-cases, inl, inr,
}
use devel_mysql_plugin.Parquet.Server.{Server}
use devel_mysql_plugin.Parquet.Handler.Calls.{Call}
use devel_mysql_plugin.Parquet.Handler.Cursor.{Answer}
use devel_mysql_plugin.Parquet.Sessions.{Table, Event, installs, makes, calls, happen, happen_all}
use devel_mysql_plugin.Parquet.Sessions.Effects.{next_run}
use devel_mysql_plugin.Parquet.Sessions.Isolation.{own, heard, heard_first, said}
use devel_mysql_plugin.Parquet.Sessions.Locking.{Place, outside, missing, leaving, returned, moved}
use devel_mysql_plugin.Parquet.Sessions.Locking.Exclusion.{moved_own, moved_other}
use devel_mysql_plugin.Parquet.Sessions.Opening.{told}
use devel_mysql_plugin.Parquet.Sessions.Opening.Shown.{is_failed}

-- An open that is about to get no share counts as over.
unfoldable pub pending : {A : Type 0} → Place → A → List A → List A
pending p x xs = if is_failed p then xs ++ x ∷ [] else xs

pub everywhere :
    {A : Type 0} (f g : ℕ → A) (i : ℕ)
    → f i ≡ g i
    → ((j : ℕ) → j ≢ i → f j ≡ g j)
    → (j : ℕ) → f j ≡ g j
everywhere f g i own others j = elim (ℕ_discrete j i) [
  | yes e ↦ subst (λ k. f k ≡ g k) (sym e) own
  | no ne ↦ others j ne
]

pub told_own :
    {A : Type 0} (lists : ℕ → List A) (i : ℕ) (x : A) → told lists i x i ≡ lists i ++ x ∷ []
unfolding told
told_own lists i x = let own : (i == i) ≡ true = ground arith in rw own refl

pub told_other :
    {A : Type 0} (lists : ℕ → List A) (i : ℕ) (x : A) (j : ℕ) → j ≢ i → told lists i x j ≡ lists j
unfolding told
told_other lists i x j ne = let other : (j == i) ≡ false = ground (arith, ne) in rw other refl

pub told_same :
    {A : Type 0} (f g : ℕ → List A) (i : ℕ) (x : A) (j : ℕ)
    → f j ≡ g j
    → told f i x j ≡ told g i x j
unfolding told
told_same f g i x j e = ap (λ xs. if j == i then xs ++ x ∷ [] else xs) e

module _ {A : Type 0} (lists : ℕ → List A) (i : ℕ) (place : ℕ → Place) (x : A) where
  abbrev pub so_far : ℕ → List A
  so_far j = pending (place j) x (lists j)

  told_as :
      (y : A) (g : ℕ → List A)
      → so_far i ≡ lists i
      → g i ≡ lists i ++ y ∷ []
      → ((j : ℕ) → j ≢ i → g j ≡ so_far j)
      → (j : ℕ) → told so_far i y j ≡ g j
  told_as y g plain here others =
      everywhere (told so_far i y) g i
        (told_own so_far i y ∙ ap (λ xs. xs ++ y ∷ []) plain ∙ sym here)
        (λ j ne. told_other so_far i y j ne ∙ sym (others j ne))

  at : (l : Place) → place i ≡ l → so_far i ≡ pending l x (lists i)
  at l e = ap (λ k. pending k x (lists i)) e

  moved_at :
      (p : Place) (ls : ℕ → List A) → pending (moved place i p i) x (ls i) ≡ pending p x (ls i)
  moved_at p ls = ap (λ l. pending l x (ls i)) (moved_own place i p)

  moved_away :
      (p : Place) (ls : ℕ → List A) (j : ℕ)
      → j ≢ i
      → ls j ≡ lists j
      → pending (moved place i p j) x (ls j) ≡ so_far j
  moved_away p ls j ne e =
      ap (λ l. pending l x (ls j)) (moved_other place i j p ne) ∙ ap (pending (place j) x) e

  -- A call that is over.
  pub calls_told :
      (y : A)
      → place i ≡ outside
      → (j : ℕ) → told so_far i y j ≡ pending (place j) x (told lists i y j)
  unfolding pending is_failed
  calls_told y e =
      told_as y (λ j. pending (place j) x (told lists i y j)) (at outside e)
        (ap (λ l. pending l x (told lists i y i)) e ∙ told_own lists i y)
        (λ j ne. ap (pending (place j) x) (told_other lists i y j ne))

  -- An open that has got a share, and is over.
  pub ends_told :
      (y : A) (s : ℕ)
      → place i ≡ returned (some s)
      → (j : ℕ) → told so_far i y j ≡ pending (moved place i outside j) x (told lists i y j)
  unfolding pending is_failed
  ends_told y s e =
      told_as y (λ j. pending (moved place i outside j) x (told lists i y j))
        (at (returned (some s)) e) (moved_at outside (told lists i y) ∙ told_own lists i y)
        (λ j ne. moved_away outside (told lists i y) j ne (told_other lists i y j ne))

  -- An open that finds no share and makes none.
  pub fails_told :
      place i ≡ missing
      → (j : ℕ) → told so_far i x j ≡ pending (moved place i (leaving none) j) x (lists j)
  unfolding pending is_failed
  fails_told e =
      told_as x (λ j. pending (moved place i (leaving none) j) x (lists j)) (at missing e)
        (moved_at (leaving none) lists) (λ j ne. moved_away (leaving none) lists j ne refl)

  -- The end of such an open.
  pub over_told :
      place i ≡ returned none
      → (j : ℕ) → so_far j ≡ pending (moved place i outside j) x (told lists i x j)
  unfolding pending is_failed
  over_told e =
      everywhere so_far (λ j. pending (moved place i outside j) x (told lists i x j)) i
        (at (returned none) e ∙ sym (moved_at outside (told lists i x) ∙ told_own lists i x))
        (λ j ne. sym (moved_away outside (told lists i x) j ne (told_other lists i x j ne)))

  pub moves_told :
      (p : Place)
      → is_failed p ≡ is_failed (place i)
      → (j : ℕ) → so_far j ≡ pending (moved place i p j) x (lists j)
  unfolding pending
  moves_told p e =
      everywhere so_far (λ j. pending (moved place i p j) x (lists j)) i
        (ap (λ b. if b then lists i ++ x ∷ [] else lists i) (sym e) ∙ sym (moved_at p lists))
        (λ j ne. sym (moved_away p lists j ne refl))

pub own_next :
    (i j : ℕ) (call : Call) (es : List Event)
    → own j (es ++ calls i call ∷ []) ≡ told (λ k. own k es) i call j
unfolding own told
own_next i j call [] = ground arith
own_next i j call (installs ∷ es) = own_next i j call es
own_next i j call (makes ∷ es) = own_next i j call es
own_next i j call (calls k c ∷ es) = ground (arith, own_next i j call es)

pub own_quiet :
    (j : ℕ) (e : Event) (es : List Event) → own j (e ∷ []) ≡ [] → own j (es ++ e ∷ []) ≡ own j es
unfolding own
own_quiet j e [] q = q
own_quiet j e (installs ∷ es) q = own_quiet j e es q
own_quiet j e (makes ∷ es) q = own_quiet j e es q
own_quiet j e (calls k c ∷ es) q = ground (arith, own_quiet j e es q)

abbrev pub extended : Option (List Answer) → Option Answer → Option (List Answer)
extended none a = none
extended (some said_before) none = some said_before
extended (some said_before) (some a) = some (said_before ++ a ∷ [])

first-extended :
    (a : Option Answer) (r : Option (List Answer)) (b : Option Answer)
    → heard_first a (extended r b) ≡ extended (heard_first a r) b
first-extended none r b = refl
first-extended (some a) none b = refl
first-extended (some a) (some said_before) none = refl
first-extended (some a) (some said_before) (some b) = refl

only_one : (a : Option Answer) → heard_first a (some []) ≡ extended (some []) a
only_one none = refl
only_one (some a) = refl

module _ (srv : Server) (hton_can_recreate : ℕ) where
  here : (bare t : Table) → happen_all srv hton_can_recreate [] bare ≡ some t → bare ≡ t
  unfolding happen_all
  here bare t went = ap (λ o. elim o [ none ↦ bare | some u ↦ u ]) went

  -- A run that goes through goes through its first event.
  first_goes :
      (d : Event) (es : List Event) (bare t : Table)
      → happen_all srv hton_can_recreate (d ∷ es) bare ≡ some t
      → (u : Table) × (happen srv hton_can_recreate bare d ≡ some u)
        × (happen_all srv hton_can_recreate es u ≡ some t)
  unfolding happen_all
  first_goes d es bare t went = elim (Option-cases (happen srv hton_can_recreate bare d)) [
    | inl stuck ↦ ground (arith, stuck, went)
    | inr (u, first) ↦ (u, first, sym (next_run srv hton_can_recreate bare u d es first) ∙ went)
  ]

  heard_run :
      (i : ℕ) (t t' : Table) (e : Event) (es : List Event)
      → happen srv hton_can_recreate t e ≡ some t'
      → heard srv hton_can_recreate i (e ∷ es) t
        ≡ heard_first (said srv hton_can_recreate i t e) (heard srv hton_can_recreate i es t')
  unfolding heard
  heard_run i t t' e es r =
      ap
        (λ o. elim o [
          | none ↦ none
          | some u ↦
              heard_first (said srv hton_can_recreate i t e) (heard srv hton_can_recreate i es u)
        ])
        r

  pub happen_all_next :
      (es : List Event) (e : Event) (bare t t' : Table)
      → happen_all srv hton_can_recreate es bare ≡ some t
      → happen srv hton_can_recreate t e ≡ some t'
      → happen_all srv hton_can_recreate (es ++ e ∷ []) bare ≡ some t'
  unfolding happen_all
  happen_all_next [] e bare t t' went next =
      next_run srv hton_can_recreate bare t' e []
        (ap (λ u. happen srv hton_can_recreate u e) (here bare t went) ∙ next)
  happen_all_next (d ∷ es) e bare t t' went next =
      let (u, first, rest) = first_goes d es bare t went in
      next_run srv hton_can_recreate bare u d (es ++ e ∷ []) first
      ∙ happen_all_next es e u t t' rest next

  pub heard_next :
      (i : ℕ) (es : List Event) (e : Event) (bare t t' : Table)
      → happen_all srv hton_can_recreate es bare ≡ some t
      → happen srv hton_can_recreate t e ≡ some t'
      → heard srv hton_can_recreate i (es ++ e ∷ []) bare
        ≡ extended (heard srv hton_can_recreate i es bare) (said srv hton_can_recreate i t e)
  unfolding heard
  heard_next i [] e bare t t' went next =
      let same = here bare t went in
      heard_run i bare t' e [] (ap (λ u. happen srv hton_can_recreate u e) same ∙ next)
      ∙ only_one (said srv hton_can_recreate i bare e)
      ∙ ap (λ u. extended (some []) (said srv hton_can_recreate i u e)) same
  heard_next i (d ∷ es) e bare t t' went next =
      let (u, first, rest) = first_goes d es bare t went in
      heard_run i bare u d (es ++ e ∷ []) first
      ∙ ap (heard_first (said srv hton_can_recreate i bare d)) (heard_next i es e u t t' rest next)
      ∙ first-extended (said srv hton_can_recreate i bare d) (heard srv hton_can_recreate i es u)
          (said srv hton_can_recreate i t e)
      ∙ ap (λ r. extended r (said srv hton_can_recreate i t e))
          (sym (heard_run i bare u d es first))
