-- ===== src/Median/Sorted.antt =====
-- The sort gives the same values in order, so that an index is a rank.
use devel_mysql_plugin.Common.{
  ℕ, zero, suc, ◌+◌, ◌≤◌, ◌≡◌, refl, subst, arith, Bool, true, false, some, List, [], ◌∷◌, length,
  get_elem?, if◌then◌else◌,
}
use Prim.{Unit, tt}
use devel_mysql_plugin.Median.Sort.{Doubles, IsOrder, insert, sort}
use devel_mysql_plugin.Median.Count.{count, Held, count_none, count_all, HasRank}

module _ (d : Doubles) where
  open d use {Double, lt, add, halve}

  -- No value is less than one before it.
  unfoldable pub IsSorted : List Double → Type 0
  IsSorted [] = Unit
  IsSorted (y ∷ ys) = (count (λ z. lt z y) ys ≡ 0) × IsSorted ys

  count-insert :
      (p : Double → Bool) (x : Double) (ys : List Double)
      → count p (insert d x ys) ≡ count p (x ∷ ys)
  unfolding count insert
  count-insert p x [] = refl
  count-insert p x (y ∷ ys) = ground (arith, count-insert p x ys)

  pub count-sort : (p : Double → Bool) (xs : List Double) → count p (sort d xs) ≡ count p xs
  unfolding count sort
  count-sort p [] = refl
  count-sort p (x ∷ xs) = omega (arith, count-insert p x (sort d xs), count-sort p xs)

  length-insert : (x : Double) (ys : List Double) → length (insert d x ys) ≡ suc (length ys)
  unfolding insert
  length-insert x [] = refl
  length-insert x (y ∷ ys) = ground (arith, length-insert x ys)

  pub length-sort : (xs : List Double) → length (sort d xs) ≡ length xs
  unfolding sort
  length-sort [] = refl
  length-sort (x ∷ xs) = omega (arith, length-insert x (sort d xs), length-sort xs)

  Held-swap : (x y a : Double) (ys : List Double) → Held a (x ∷ ys) → Held a (x ∷ y ∷ ys)
  unfolding Held
  Held-swap x y a ys (zero, e) = (0, e)
  Held-swap x y a ys (suc i, e) = (suc (suc i), e)

  Held-step :
      (x y a : Double) (ys rest : List Double) (c : Bool) (k : ℕ)
      → ((j : ℕ) → get_elem? rest j ≡ some a → Held a (x ∷ ys))
      → get_elem? (if c then x ∷ y ∷ ys else y ∷ rest) k ≡ some a
      → Held a (x ∷ y ∷ ys)
  unfolding Held
  Held-step x y a ys rest true k ih h = (k, h)
  Held-step x y a ys rest false zero ih h = (1, h)
  Held-step x y a ys rest false (suc k) ih h = Held-swap x y a ys (ih k h)

  Held-insert :
      (x a : Double) (ys : List Double) (k : ℕ)
      → get_elem? (insert d x ys) k ≡ some a
      → Held a (x ∷ ys)
  unfolding insert Held
  Held-insert x a [] k h = (k, h)
  Held-insert x a (y ∷ ys) k h =
      Held-step x y a ys (insert d x ys) (lt x y) k (Held-insert x a ys) h

  Held-cons : (x a : Double) (ys : List Double) → Held a ys → Held a (x ∷ ys)
  unfolding Held
  Held-cons x a ys (i, e) = (suc i, e)

  Held-under :
      (x a : Double) (ys zs : List Double)
      → ((j : ℕ) → get_elem? ys j ≡ some a → Held a zs)
      → Held a (x ∷ ys)
      → Held a (x ∷ zs)
  unfolding Held
  Held-under x a ys zs f (zero, e) = (0, e)
  Held-under x a ys zs f (suc i, e) = Held-cons x a zs (f i e)

  pub Held-sort :
      (a : Double) (xs : List Double) (k : ℕ) → get_elem? (sort d xs) k ≡ some a → Held a xs
  unfolding sort Held
  Held-sort a [] k h = (k, h)
  Held-sort a (x ∷ xs) k h =
      Held-under x a (sort d xs) xs (Held-sort a xs) (Held-insert x a (sort d xs) k h)

  module _ (o : IsOrder d) where
    not_below :
        (x y : Double) (ys : List Double)
        → lt x y ≡ true
        → count (λ z. lt z y) ys ≡ 0
        → count (λ z. lt z x) ys ≡ 0
    unfolding count
    not_below x y [] h none_below = refl
    not_below x y (z ∷ ys) h none_below = ground (arith, not_below x y ys h, o.transitive z x y)

    IsSorted-step :
        (x y : Double) (ys : List Double) (c : Bool)
        → lt x y ≡ c
        → IsSorted (y ∷ ys)
        → IsSorted (insert d x ys)
        → IsSorted (if c then x ∷ y ∷ ys else y ∷ insert d x ys)
    unfolding IsSorted count
    IsSorted-step x y ys true e s rest =
        let after : lt y x ≡ false = ground (arith, o.transitive x y x, o.irreflexive x) in
        (ground (arith, not_below x y ys e), s)
    IsSorted-step x y ys false e s rest = (ground (arith, count-insert (λ z. lt z y) x ys), rest)

    insert-IsSorted : (x : Double) (ys : List Double) → IsSorted ys → IsSorted (insert d x ys)
    unfolding IsSorted insert count
    insert-IsSorted x [] s = (refl, s)
    insert-IsSorted x (y ∷ ys) s = IsSorted-step x y ys (lt x y) refl s (insert-IsSorted x ys s.1)

    pub sort-IsSorted : (xs : List Double) → IsSorted (sort d xs)
    unfolding sort IsSorted
    sort-IsSorted [] = tt
    sort-IsSorted (x ∷ xs) = insert-IsSorted x (sort d xs) (sort-IsSorted xs)

    rank_first :
        (y : Double) (ys : List Double)
        → IsSorted (y ∷ ys)
        → (count (λ x. lt x y) (y ∷ ys) ≤ 0)
          × (count (λ x. lt y x) (y ∷ ys) + 0 + 1 ≤ length (y ∷ ys))
    unfolding IsSorted count
    rank_first y ys s = ground (arith, s.0, o.irreflexive y, count_all (λ x. lt y x) ys)

    rank_below :
        (ys : List Double) (k : ℕ) (a : Double)
        → IsSorted ys
        → get_elem? ys k ≡ some a
        → (count (λ x. lt x a) ys ≤ k) × (count (λ x. lt a x) ys + k + 1 ≤ length ys)
    unfolding IsSorted count
    rank_below [] k a s e = ground arith
    rank_below (y ∷ ys) zero a s e =
        let same : y ≡ a = ground (arith, e) in
        subst
          (λ b.
            (count (λ x. lt x b) (y ∷ ys) ≤ 0)
            × (count (λ x. lt b x) (y ∷ ys) + 0 + 1 ≤ length (y ∷ ys)))
          same (rank_first y ys s)
    rank_below (y ∷ ys) (suc k) a s e =
        let ih = rank_below ys k a s.1 e in
        let after : lt a y ≡ false = count_none (λ z. lt z y) ys k a s.0 e in
        ground (arith, ih, after)

    -- The element at index `k` of the sorted values has rank `k`.
    pub sort-HasRank :
        (xs : List Double) (k : ℕ) (a : Double)
        → get_elem? (sort d xs) k ≡ some a
        → HasRank d k xs a
    sort-HasRank xs k a e =
        let rank = rank_below (sort d xs) k a (sort-IsSorted xs) e in
        record {
          held = Held-sort a xs k e;
          below = omega (arith, rank.0, count-sort (λ x. lt x a) xs);
          above = omega (arith, rank.1, count-sort (λ x. lt a x) xs, length-sort xs);
        }
