-- ===== src/Libc/Files.antt =====
-- Files by their names, and `fgets`. A write succeeds once the file is open (Parquet/Sidecar/Full has
-- the other case); whether it can be opened for writing is up to the environment.
use devel_mysql_plugin.Common.{
  ℕ, zero, suc, ◌-◌, ◌≡◌, ◌≢◌, Option, none, some, List, [], ◌∷◌, ◌==◌, if◌then◌else◌, Bool, true,
  false, ◌&&◌, refl, arith, Bool-cases, inl, inr,
}

abbrev pub Files : Type 0
Files = List ℕ → Option (List ℕ)

-- Two names are the same bytes.
unfoldable pub same_name : List ℕ → List ℕ → Bool
same_name [] [] = true
same_name (a ∷ p) (b ∷ q) = (a == b) && same_name p q
same_name _ _ = false

same_name_self : (p : List ℕ) → same_name p p ≡ true
unfolding same_name
same_name_self [] = refl
same_name_self (a ∷ p) = ground (arith, same_name_self p)

same_name_sound : (p q : List ℕ) → same_name p q ≡ true → p ≡ q
unfolding same_name
same_name_sound [] [] h = refl
same_name_sound [] (b ∷ q) h = cc
same_name_sound (a ∷ p) [] h = cc
same_name_sound (a ∷ p) (b ∷ q) h = ground (arith, same_name_sound p q)

-- `fopen(…, "w")`, the writes and `fclose`.
unfoldable pub overwrite : List ℕ → List ℕ → Files → Files
overwrite path content files q = if same_name path q then some content else files q

-- `remove`; its result is ignored.
unfoldable pub remove : List ℕ → Files → Files
remove path files q = if same_name path q then none else files q

-- At most `n` bytes, up to a newline and with it.
unfoldable pub line : ℕ → List ℕ → List ℕ
line n [] = []
line zero (c ∷ s) = []
line (suc n) (c ∷ s) = c ∷ (if c == 10 then [] else line n s)

-- `fgets` with a buffer of `size` bytes on a file just opened; `none` is the null pointer.
unfoldable pub fgets : ℕ → List ℕ → Option (List ℕ)
unfolding line
fgets size [] = none
fgets size (c ∷ s) = some (line (size - 1) (c ∷ s))

pub overwrite_same : (p c : List ℕ) (files : Files) → overwrite p c files p ≡ some c
unfolding overwrite
overwrite_same p c files = rw (same_name_self p)

pub overwrite_other : (p q c : List ℕ) (files : Files) → p ≢ q → overwrite p c files q ≡ files q
unfolding overwrite
overwrite_other p q c files h = elim (Bool-cases (same_name p q)) [
  | inl e ↦ absurd (h (same_name_sound p q e))
  | inr e ↦ rw e
]

pub remove_same : (p : List ℕ) (files : Files) → remove p files p ≡ none
unfolding remove
remove_same p files = rw (same_name_self p)

pub remove_other : (p q : List ℕ) (files : Files) → p ≢ q → remove p files q ≡ files q
unfolding remove
remove_other p q files h = elim (Bool-cases (same_name p q)) [
  | inl e ↦ absurd (h (same_name_sound p q e))
  | inr e ↦ rw e
]
