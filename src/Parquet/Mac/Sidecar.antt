-- ===== src/Parquet/Mac/Sidecar.antt =====
-- The helpers of Source/05_ReadParquet/Mac/ha_parquet.cc for the sidecar file, and `get_share`.
use devel_mysql_plugin.Common.{
  ℕ, suc, ◌-◌, ◌≡◌, ◌∙◌, ap, refl, arith, Bool, true, false, Option, none, some, List, [], ◌∷◌,
  ◌++◌, ◌==◌, ◌&&◌, ltb, length, take, get_elem?, if◌then◌else◌,
}
use devel_mysql_plugin.Libc.Strings.{codes, c_string, snprintf}
use devel_mysql_plugin.Libc.Files.{Files, overwrite, fgets}
use devel_mysql_plugin.Parquet.Handler.{get_share}
use devel_mysql_plugin.Parquet.Sidecar.{
  strip_newline, strip_line, read_line, make_prq_path, write_prq_meta, read_prq_meta,
}

-- `fopen`, `fprintf` and `fclose`, by whether `f` is there.
abbrev pub written : Bool → List ℕ → List ℕ → Files → Bool × Files
written false prq parquet_path files = (false, files)
written true prq parquet_path files = (true, overwrite prq (c_string parquet_path ++ 10 ∷ []) files)

-- The byte at an index that is below the length.
abbrev pub is_newline : Option ℕ → Bool
is_newline none = false
is_newline (some c) = c == 10

-- `out_path[len - 1] = '\0'`, where that byte is a newline.
unfoldable pub cut_newline : List ℕ → List ℕ
cut_newline out_path =
    let len = length out_path in
    if ltb 0 len && is_newline (get_elem? out_path (len - 1))
    then take (len - 1) out_path
    else out_path

-- What follows `fopen`, and what follows `fgets`; `none` is the result `false`.
abbrev pub gotten : Option (List ℕ) → Option (List ℕ)
gotten none = none
gotten (some out_path) = some (cut_newline (c_string out_path))

abbrev pub read : ℕ → Option (List ℕ) → Option (List ℕ)
read fn_reflen none = none
read fn_reflen (some f) = gotten (fgets fn_reflen f)

-- What follows `get_ha_share_ptr`: the share, and what the table then holds.
abbrev pub shared : Option ℕ → Option ℕ → Option ℕ × Option ℕ
shared (some tmp_share) fresh = (some tmp_share, some tmp_share)
shared none none = (none, none)
shared none (some made) = (some made, some made)

unfoldable pub mac_get_share : Option ℕ → Option ℕ → Option ℕ × Option ℕ
mac_get_share ha_share fresh = shared ha_share fresh

module _ (fn_reflen : ℕ) where
  unfoldable pub mac_make_prq_path : List ℕ → List ℕ
  mac_make_prq_path table_path = snprintf fn_reflen (c_string table_path ++ codes ".prq")

  unfoldable pub mac_write_prq_meta : (List ℕ → Bool) → List ℕ → List ℕ → Files → Bool × Files
  mac_write_prq_meta may_write table_path parquet_path files =
      let prq = mac_make_prq_path table_path in written (may_write prq) prq parquet_path files

  unfoldable pub mac_read_prq_meta : List ℕ → Files → Option (List ℕ)
  mac_read_prq_meta table_path files = read fn_reflen (files (mac_make_prq_path table_path))

-- Looking at the last byte by its index is looking for it along the text.
if-cons :
    (b : Bool) (c : ℕ) (s t : List ℕ) → (if b then c ∷ s else c ∷ t) ≡ c ∷ (if b then s else t)
if-cons true c s t = refl
if-cons false c s t = refl

cut_newline-cons : (c d : ℕ) (s : List ℕ) → cut_newline (c ∷ d ∷ s) ≡ c ∷ cut_newline (d ∷ s)
unfolding cut_newline
cut_newline-cons c d s =
    let at_end : suc (suc (length s)) - 1 ≡ suc (length s) = omega arith in
    let before : suc (length s) - 1 ≡ length s = omega arith in
    let some_two : ltb 0 (suc (suc (length s))) ≡ true = ground arith in
    let some_one : ltb 0 (suc (length s)) ≡ true = ground arith in
    rw (at_end, before, some_two, some_one)
      (if-cons (is_newline (get_elem? (d ∷ s) (length s))) c (take (length s) (d ∷ s)) (d ∷ s))

cut_newline-strip_newline : (s : List ℕ) → cut_newline s ≡ strip_newline s
unfolding cut_newline strip_newline
cut_newline-strip_newline [] = ground arith
cut_newline-strip_newline (c ∷ []) = ground arith
cut_newline-strip_newline (c ∷ d ∷ s) =
    cut_newline-cons c d s ∙ ap (λ r. c ∷ r) (cut_newline-strip_newline (d ∷ s))

written_same :
    (b : Bool) (prq path : List ℕ) (files : Files)
    → written b prq path files
      ≡ (if b then (true, overwrite prq (c_string path ++ 10 ∷ []) files) else (false, files))
written_same true prq path files = refl
written_same false prq path files = refl

pub get_share_same : (s fresh : Option ℕ) → mac_get_share s fresh ≡ get_share s fresh
unfolding mac_get_share get_share
get_share_same (some s) fresh = refl
get_share_same none none = refl
get_share_same none (some made) = refl

module _ (fn_reflen : ℕ) where
  pub make_same : (name : List ℕ) → mac_make_prq_path fn_reflen name ≡ make_prq_path fn_reflen name
  unfolding mac_make_prq_path make_prq_path
  make_same name = refl

  pub write_same :
      (may_write : List ℕ → Bool) (name path : List ℕ) (files : Files)
      → mac_write_prq_meta fn_reflen may_write name path files
        ≡ write_prq_meta fn_reflen may_write name path files
  unfolding mac_write_prq_meta write_prq_meta mac_make_prq_path make_prq_path
  write_same may_write name path files =
      let prq = make_prq_path fn_reflen name in written_same (may_write prq) prq path files

  read_text_same : (text : Option (List ℕ)) → gotten text ≡ strip_line fn_reflen text
  read_text_same none = refl
  read_text_same (some s) = ap some (cut_newline-strip_newline (c_string s))

  read_file_same :
      (content : Option (List ℕ)) → read fn_reflen content ≡ read_line fn_reflen content
  read_file_same none = refl
  read_file_same (some f) = read_text_same (fgets fn_reflen f)

  pub read_same :
      (name : List ℕ) (files : Files)
      → mac_read_prq_meta fn_reflen name files ≡ read_prq_meta fn_reflen name files
  unfolding mac_read_prq_meta read_prq_meta mac_make_prq_path make_prq_path
  read_same name files = read_file_same (files (make_prq_path fn_reflen name))
