-- ===== src/Parquet/Sessions/Opening/Shown.antt =====
-- The handlers as they are once the opens that have failed are over.
use devel_mysql_plugin.Common.{
  ℕ, zero, suc, Bool, true, false, ◌≡◌, ◌∙◌, ap, refl, arith, none, some, List, [], ◌∷◌, ◌++◌,
  get_elem?, length, ◌==◌, if◌then◌else◌,
}
use devel_mysql_plugin.Parquet.Handler.{Handler}
use devel_mysql_plugin.Parquet.Sessions.{put}
use devel_mysql_plugin.Parquet.Sessions.Effects.{get_elem?-put}
use devel_mysql_plugin.Parquet.Sessions.Locking.{Place, leaving, returned, moved}
use devel_mysql_plugin.Parquet.Sessions.Locking.Exclusion.{each, moved_own, moved_other}

-- The session is about to get no share.
unfoldable pub is_failed : Place → Bool
is_failed (leaving none) = true
is_failed (returned none) = true
is_failed _ = false

-- Its open ends with a null pointer for the share.
unfoldable pub shown : Place → Handler → Handler
shown p h = if is_failed p then record h { share = none } else h

unfoldable pub all_shown : (ℕ → Place) → List Handler → List Handler
all_shown place [] = []
all_shown place (h ∷ hs) = shown (place 0) h ∷ all_shown (λ i. place (suc i)) hs

pub all_shown_same :
    (p q : ℕ → Place) (hs : List Handler)
    → ((i : ℕ) (h : Handler) → shown (p i) h ≡ shown (q i) h)
    → all_shown p hs ≡ all_shown q hs
unfolding all_shown
all_shown_same p q [] e = refl
all_shown_same p q (h ∷ hs) e =
    cc (e 0 h, all_shown_same (λ i. p (suc i)) (λ i. q (suc i)) hs (λ i. e (suc i)))

pub all_shown-put :
    (place : ℕ → Place) (i : ℕ) (g : Handler) (hs : List Handler)
    → all_shown place (put i g hs) ≡ put i (shown (place i) g) (all_shown place hs)
unfolding all_shown
all_shown-put place i g [] = refl
all_shown-put place zero g (h ∷ hs) = refl
all_shown-put place (suc i) g (h ∷ hs) =
    ap (λ gs. shown (place 0) h ∷ gs) (all_shown-put (λ j. place (suc j)) i g hs)

pub get_elem?-all_shown :
    (place : ℕ → Place) (hs : List Handler) (i : ℕ) (h : Handler)
    → get_elem? hs i ≡ some h
    → get_elem? (all_shown place hs) i ≡ some (shown (place i) h)
unfolding all_shown
get_elem?-all_shown place [] i h e = absurd (ground (arith, e))
get_elem?-all_shown place (g ∷ hs) zero h e =
    ap (λ o. elim o [ none ↦ none | some k ↦ some (shown (place 0) k) ]) e
get_elem?-all_shown place (g ∷ hs) (suc i) h e = get_elem?-all_shown (λ j. place (suc j)) hs i h e

pub all_shown-append :
    (place : ℕ → Place) (hs : List Handler) (h : Handler)
    → shown (place (length hs)) h ≡ h
    → all_shown place (hs ++ h ∷ []) ≡ all_shown place hs ++ h ∷ []
unfolding all_shown
all_shown-append place [] h e = ap (λ g. g ∷ []) e
all_shown-append place (g ∷ hs) h e =
    ap (λ gs. shown (place 0) g ∷ gs) (all_shown-append (λ j. place (suc j)) hs h e)

pub shown_same : (p q : Place) (h : Handler) → is_failed p ≡ is_failed q → shown p h ≡ shown q h
unfolding shown
shown_same p q h e = ap (λ b. if b then record h { share = none } else h) e

-- A move of one session that shows no handler as another one.
pub all_shown-moved :
    (place : ℕ → Place) (i : ℕ) (p : Place) (hs : List Handler)
    → is_failed p ≡ is_failed (place i)
    → all_shown (moved place i p) hs ≡ all_shown place hs
all_shown-moved place i p hs e = all_shown_same (moved place i p) place hs λ j h.
    each place i p (λ k l. shown l h ≡ shown (place k) h) (shown_same p (place i) h e)
      (λ k ne. refl) j

later_moved :
    (place : ℕ → Place) (i j : ℕ) (p : Place)
    → moved place (suc i) p (suc j) ≡ moved (λ k. place (suc k)) i p j
unfolding moved
later_moved place i j p =
    let same : (suc j == suc i) ≡ (j == i) = ground arith in
    ap (λ b. if b then p else place (suc j)) same

-- A move of one session, whose handler is shown as `shown p h` then.
pub all_shown-moved_own :
    (place : ℕ → Place) (i : ℕ) (p : Place) (hs : List Handler) (h : Handler)
    → get_elem? hs i ≡ some h
    → all_shown (moved place i p) hs ≡ put i (shown p h) (all_shown place hs)
unfolding all_shown
all_shown-moved_own place i p [] h here = absurd (ground (arith, here))
all_shown-moved_own place zero p (g ∷ hs) h here =
    let own = moved_own place 0 p in
    let same : g ≡ h = ap (λ o. elim o [ none ↦ g | some k ↦ k ]) here in
    let first : shown (moved place 0 p 0) g ≡ shown p h = cc (own, same) in
    let others =
      all_shown_same (λ j. moved place 0 p (suc j)) (λ j. place (suc j)) hs
        λ j k. ap (λ l. shown l k) (moved_other place 0 (suc j) p (omega arith)) in
    cc (first, others)
all_shown-moved_own place (suc i) p (g ∷ hs) h here =
    let first = moved_other place (suc i) 0 p (omega arith) in
    let others =
      all_shown_same (λ j. moved place (suc i) p (suc j)) (moved (λ j. place (suc j)) i p) hs
        λ j k. ap (λ l. shown l k) (later_moved place i j p) in
    let rest = all_shown-moved_own (λ j. place (suc j)) i p hs h here in
    cc (ap (λ l. shown l g) first, others ∙ rest)

put-put : (i : ℕ) (g h : Handler) (hs : List Handler) → put i g (put i h hs) ≡ put i g hs
put-put i g h [] = refl
put-put zero g h (k ∷ hs) = refl
put-put (suc i) g h (k ∷ hs) = ap (λ gs. k ∷ gs) (put-put i g h hs)

-- A move of one session that gets another handler.
pub all_shown-put-moved :
    (place : ℕ → Place) (i : ℕ) (p : Place) (hs : List Handler) (h g : Handler)
    → get_elem? hs i ≡ some h
    → all_shown (moved place i p) (put i g hs) ≡ put i (shown p g) (all_shown place hs)
all_shown-put-moved place i p hs h g here =
    all_shown-moved_own place i p (put i g hs) g (get_elem?-put hs i h g here)
    ∙ ap (put i (shown p g)) (all_shown-put place i g hs)
    ∙ put-put i (shown p g) (shown (place i) g) (all_shown place hs)
