-- ===== src/Parquet/Sidecar/Full.antt =====
-- `write_prq_meta` and `create` of Source/05_ReadParquet/Linux/ha_parquet.cc where the disk is full:
-- the line is in the stream's buffer when `fprintf` returns, `fclose` writes what there is room for,
-- and the results of both are ignored.
use devel_mysql_plugin.Common.{
  ℕ, zero, suc, ◌-◌, ◌<◌, ◌≤◌, ◌≡◌, ◌↔◌, refl, ap, arith, Bool, true, false, Option, none, some,
  List, [], ◌∷◌, ◌++◌, length, take, length-take, length-append, if◌then◌else◌,
}
use devel_mysql_plugin.Libc.Strings.{
  c_string, Without, c_string-Without, c_string_id, Without-take, length-c_string, take_all,
}
use devel_mysql_plugin.Libc.Files.{Files, line, fgets, overwrite, overwrite_same}
use devel_mysql_plugin.Parquet.HaError.{HaError, success, ha_err_crashed_on_usage}
use native.Mathlib.Decide.{dec_lt}
use devel_mysql_plugin.Parquet.Sidecar.{
  make_prq_path, write_prq_meta, read_line, read_prq_meta, chosen_path, create,
}
use devel_mysql_plugin.Parquet.Sidecar.RoundTrip.{
  read_line_written, length-chosen_path, strip_newline_none,
}

module _ (fn_reflen : ℕ) where
  -- There is room for the first `kept` bytes of what is written.
  unfoldable pub write_prq_meta_full : (List ℕ → Bool) → ℕ → List ℕ → List ℕ → Files → Bool × Files
  write_prq_meta_full may_write kept table_path parquet_path files =
      let prq = make_prq_path fn_reflen table_path in
      if may_write prq
      then (true, overwrite prq (take kept (c_string parquet_path ++ 10 ∷ [])) files)
      else (false, files)

  unfoldable pub create_full :
      (List ℕ → Bool) → ℕ → List ℕ → Option (List ℕ) → Files → HaError × Files
  create_full may_write kept name comment files =
      let (written, files') =
        write_prq_meta_full may_write kept name (chosen_path fn_reflen name comment) files in
      if written then (success, files') else (ha_err_crashed_on_usage, files')

-- What is left of a path: nothing of the file, or the first bytes.
abbrev pub left_of : ℕ → List ℕ → Option (List ℕ)
left_of zero p = none
left_of (suc k) p = some (take (suc k) p)

line_plain : (n : ℕ) (p : List ℕ) → Without 10 p → length p ≤ n → line n p ≡ p
unfolding line
line_plain n [] w h = refl
line_plain zero (c ∷ p) w h = absurd (omega arith)
line_plain (suc n) (c ∷ p) w h = ground (arith, line_plain n p w.1)

take-append : (n : ℕ) (p q : List ℕ) → n ≤ length p → take n (p ++ q) ≡ take n p
take-append zero p q h = refl
take-append (suc n) [] q h = absurd (omega arith)
take-append (suc n) (c ∷ p) q h = ap (λ r. c ∷ r) (take-append n p q (omega arith))

left_of-all : (kept : ℕ) (p : List ℕ) → (left_of kept p ≡ some p) ↔ ((0 < kept) × (length p ≤ kept))
left_of-all zero p = ((λ e. absurd cc), (λ h. absurd (omega arith)))
left_of-all (suc k) p = (
  (λ e.
      let whole : take (suc k) p ≡ p = cc in
      (omega arith, omega (arith, length-take (suc k) p, ap length whole))),
  (λ h. ap some (take_all (suc k) p h.1)),
)

module _ (fn_reflen : ℕ) (room : 0 < fn_reflen) where
  read_line_plain :
      (c : ℕ) (p : List ℕ)
      → Without 0 (c ∷ p)
      → Without 10 (c ∷ p)
      → length (c ∷ p) < fn_reflen
      → read_line fn_reflen (some (c ∷ p)) ≡ some (c ∷ p)
  unfolding fgets
  read_line_plain c p w0 w10 h =
      rw (line_plain (fn_reflen - 1) (c ∷ p) w10 (omega arith), c_string_id (c ∷ p) w0)
        (ap some (strip_newline_none (c ∷ p) w10))

  -- A part of the path itself, without the newline.
  read_line_part :
      (k : ℕ) (p : List ℕ)
      → Without 0 p
      → Without 10 p
      → length p < fn_reflen
      → suc k ≤ length p
      → read_line fn_reflen (some (take (suc k) p)) ≡ some (take (suc k) p)
  read_line_part k [] w0 w10 h le = absurd (omega arith)
  read_line_part k (c ∷ p) w0 w10 h le =
      read_line_plain c (take k p) (Without-take 0 (suc k) (c ∷ p) w0)
        (Without-take 10 (suc k) (c ∷ p) w10) (omega (arith, length-take (suc k) (c ∷ p)))

  read_line_left :
      (kept : ℕ) (p : List ℕ)
      → Without 0 p
      → Without 10 p
      → length p < fn_reflen
      → read_line fn_reflen (some (take kept (p ++ 10 ∷ []))) ≡ left_of kept p
  unfolding fgets
  read_line_left zero p w0 w10 h = refl
  read_line_left (suc k) p w0 w10 h = elim (dec_lt k (length p)) [
    | yes lt ↦
        rw (take-append (suc k) p (10 ∷ []) (omega arith))
          (read_line_part k p w0 w10 h (omega arith))
    | no ge ↦
        rw
          (
            take_all (suc k) (p ++ 10 ∷ []) (omega (arith, length-append p (10 ∷ []))),
            take_all (suc k) p (omega arith),
          )
          (read_line_written fn_reflen room p w0 w10 h)
  ]

  -- Where there is room for the whole line, the disk makes no difference.
  create_full-create :
      (may_write : List ℕ → Bool) (kept : ℕ) (name : List ℕ) (comment : Option (List ℕ))
      (files : Files)
      → length (c_string (chosen_path fn_reflen name comment)) < kept
      → create_full fn_reflen may_write kept name comment files
        ≡ create fn_reflen may_write name comment files
  unfolding create_full create write_prq_meta_full write_prq_meta
  create_full-create may_write kept name comment files h =
      let p = c_string (chosen_path fn_reflen name comment) in
      rw (take_all kept (p ++ 10 ∷ []) (omega (arith, length-append p (10 ∷ []))))

  -- Where the sidecar can be opened for writing but there is room for `kept` bytes only, `create`
  -- succeeds all the same. If the path that `create` chose holds no newline, a later read of the
  -- sidecar gives nothing if `kept` is 0, and otherwise the first `kept` bytes of the path, cut at
  -- a NUL; so it gives the path exactly if `kept` is not 0 and not less than the path's length.
  pub sidecar_full :
      (may_write : List ℕ → Bool) (kept : ℕ) (name : List ℕ) (comment : Option (List ℕ))
      (files : Files)
      → Without 10 (c_string (chosen_path fn_reflen name comment))
      → may_write (make_prq_path fn_reflen name) ≡ true
      → ((create_full fn_reflen may_write kept name comment files).0 ≡ success)
        × (read_prq_meta fn_reflen name (create_full fn_reflen may_write kept name comment files).1
            ≡ left_of kept (c_string (chosen_path fn_reflen name comment)))
        × ((read_prq_meta fn_reflen name (create_full fn_reflen may_write kept name comment files).1
              ≡ some (c_string (chosen_path fn_reflen name comment)))
            ↔ ((0 < kept) × (length (c_string (chosen_path fn_reflen name comment)) ≤ kept)))
  unfolding create_full write_prq_meta_full read_prq_meta
  sidecar_full may_write kept name comment files w ok =
      let p = c_string (chosen_path fn_reflen name comment) in
      let fits : length p < fn_reflen = omega (
        arith,
        length-c_string (chosen_path fn_reflen name comment),
        length-chosen_path fn_reflen room name comment,
      ) in
      let found : read_prq_meta fn_reflen name
            (create_full fn_reflen may_write kept name comment files).1
          ≡ left_of kept p =
        rw (ok, overwrite_same) (read_line_left kept p (c_string-Without _) w fits) in
      (rw ok, found, rw found (left_of-all kept p))
