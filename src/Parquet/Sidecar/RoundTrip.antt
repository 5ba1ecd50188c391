-- ===== src/Parquet/Sidecar/RoundTrip.antt =====
-- What `create` writes, `open` reads.
use devel_mysql_plugin.Common.{
  ℕ, zero, suc, ◌-◌, ◌<◌, ◌≡◌, ◌⊎◌, inl, inr, Bool-cases, refl, ap, arith, Bool, true, false,
  Option, none, some, List, [], ◌∷◌, ◌++◌, length, length-take,
}
use devel_mysql_plugin.Libc.Strings.{
  codes, c_string, Without, c_string-Without, c_string_id, Without-append, length-c_string,
}
use devel_mysql_plugin.Libc.Files.{Files, line, fgets, overwrite_same}
use devel_mysql_plugin.Parquet.HaError.{success, ha_err_crashed_on_usage}
use native.Mathlib.Decide.{dec_lt}
use devel_mysql_plugin.Parquet.Sidecar.{
  strip_newline, make_prq_path, default_path, write_prq_meta, read_line, read_prq_meta, chosen_path,
  create,
}

-- A line that fits is read with its newline, one byte too long is read without.
line_fits :
    (n : ℕ) (p : List ℕ) → Without 10 p → length p < n → line n (p ++ 10 ∷ []) ≡ p ++ 10 ∷ []
unfolding line
line_fits zero p w h = absurd (omega arith)
line_fits (suc n) [] w h = refl
line_fits (suc n) (c ∷ p) w h = ground (arith, line_fits n p w.1)

line_full : (n : ℕ) (p : List ℕ) → Without 10 p → length p ≡ n → line n (p ++ 10 ∷ []) ≡ p
unfolding line
line_full zero [] w h = refl
line_full zero (c ∷ p) w h = absurd (omega arith)
line_full (suc n) [] w h = absurd (omega arith)
line_full (suc n) (c ∷ p) w h = ground (arith, line_full n p w.1)

strip_newline_line : (p : List ℕ) → strip_newline (p ++ 10 ∷ []) ≡ p
unfolding strip_newline
strip_newline_line [] = refl
strip_newline_line (c ∷ []) = refl
strip_newline_line (c ∷ d ∷ p) = ap (λ r. c ∷ r) (strip_newline_line (d ∷ p))

pub strip_newline_none : (p : List ℕ) → Without 10 p → strip_newline p ≡ p
unfolding strip_newline
strip_newline_none [] w = refl
strip_newline_none (c ∷ []) w = ground arith
strip_newline_none (c ∷ d ∷ p) w = ap (λ r. c ∷ r) (strip_newline_none (d ∷ p) w.1)

fgets-line :
    (size : ℕ) (p : List ℕ) → fgets size (p ++ 10 ∷ []) ≡ some (line (size - 1) (p ++ 10 ∷ []))
unfolding fgets
fgets-line size [] = refl
fgets-line size (c ∷ p) = refl

module _ (fn_reflen : ℕ) (room : 0 < fn_reflen) where
  pub read_line_written :
      (p : List ℕ)
      → Without 0 p
      → Without 10 p
      → length p < fn_reflen
      → read_line fn_reflen (some (p ++ 10 ∷ [])) ≡ some p
  read_line_written p w0 w10 h =
      rw (fgets-line fn_reflen p) (elim (dec_lt (length p) (fn_reflen - 1)) [
        | yes lt ↦
            rw
              (
                line_fits (fn_reflen - 1) p w10 lt,
                c_string_id (p ++ 10 ∷ [])
                    (Without-append 0 p (10 ∷ []) w0 ((λ e. omega arith), tt)),
              )
              (ap some (strip_newline_line p))
        | no ge ↦
            rw (line_full (fn_reflen - 1) p w10 (omega arith), c_string_id p w0)
              (ap some (strip_newline_none p w10))
      ])

  pub length-chosen_path :
      (name : List ℕ) (comment : Option (List ℕ))
      → length (chosen_path fn_reflen name comment) < fn_reflen
  unfolding chosen_path default_path
  length-chosen_path name none =
      omega (arith, length-take (fn_reflen - 1) (c_string name ++ codes ".parquet"))
  length-chosen_path name (some []) =
      omega (arith, length-take (fn_reflen - 1) (c_string name ++ codes ".parquet"))
  length-chosen_path name (some (c ∷ comment)) =
      omega (arith, length-take (fn_reflen - 1) (c ∷ comment))

  pub read_prq_meta-create_ok :
      (may_write : List ℕ → Bool) (name : List ℕ) (comment : Option (List ℕ)) (files : Files)
      → Without 10 (c_string (chosen_path fn_reflen name comment))
      → may_write (make_prq_path fn_reflen name) ≡ true
      → ((create fn_reflen may_write name comment files).0 ≡ success)
        × (read_prq_meta fn_reflen name (create fn_reflen may_write name comment files).1
            ≡ some (c_string (chosen_path fn_reflen name comment)))
  unfolding create write_prq_meta read_prq_meta
  read_prq_meta-create_ok may_write name comment files w ok = (
    rw (ok, write_prq_meta),
    rw (ok, write_prq_meta, overwrite_same) (read_line_written _ (c_string-Without _) w fits),
  )
    where
      fits : length (c_string (chosen_path fn_reflen name comment)) < fn_reflen
      fits = omega (
        arith,
        length-c_string (chosen_path fn_reflen name comment),
        length-chosen_path name comment,
      )

  -- Where the sidecar can be written, `create` succeeds and a later read of the sidecar gives the
  -- path that `create` chose, cut at a NUL, however long the name and the comment are, if that path
  -- holds no newline. Otherwise `create` fails and leaves the files as they were.
  pub read_prq_meta-create :
      (may_write : List ℕ → Bool) (name : List ℕ) (comment : Option (List ℕ)) (files : Files)
      → Without 10 (c_string (chosen_path fn_reflen name comment))
      → (may_write (make_prq_path fn_reflen name) ≡ true)
          × ((create fn_reflen may_write name comment files).0 ≡ success)
          × (read_prq_meta fn_reflen name (create fn_reflen may_write name comment files).1
              ≡ some (c_string (chosen_path fn_reflen name comment)))
        ⊎ (may_write (make_prq_path fn_reflen name) ≡ false)
          × (create fn_reflen may_write name comment files ≡ (ha_err_crashed_on_usage, files))
  unfolding create write_prq_meta read_prq_meta
  read_prq_meta-create may_write name comment files w =
      elim (Bool-cases (may_write (make_prq_path fn_reflen name))) [
        | inl ok ↦
            let (rc, found) = read_prq_meta-create_ok may_write name comment files w ok in
            inl (ok, rc, found)
        | inr bad ↦ inr (bad, rw (bad, write_prq_meta))
      ]
