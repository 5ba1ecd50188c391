-- ===== src/Parquet/Sidecar.antt =====
-- The sidecar file of Source/05_ReadParquet/Linux/ha_parquet.cc (<tablepath>.prq), `create` and
-- `delete_table`. FN_REFLEN, the size of a path buffer, is MariaDB's and a parameter.
pub mod RoundTrip
pub mod Names
pub mod Full
use devel_mysql_plugin.Common.{
  ℕ, zero, suc, ◌+◌, ◌-◌, Bool, true, false, Option, none, some, List, [], ◌∷◌, ◌++◌, take, ◌==◌,
  if◌then◌else◌,
}
use devel_mysql_plugin.Libc.Strings.{codes, c_string, snprintf}
use devel_mysql_plugin.Parquet.HaError.{HaError, success, ha_err_crashed_on_usage}
use devel_mysql_plugin.Libc.Files.{Files, overwrite, remove, fgets}

-- The trailing newline that `read_prq_meta` strips.
unfoldable pub strip_newline : List ℕ → List ℕ
strip_newline [] = []
strip_newline (c ∷ []) = if c == 10 then [] else c ∷ []
strip_newline (c ∷ d ∷ s) = c ∷ strip_newline (d ∷ s)

module _ (fn_reflen : ℕ) where
  unfoldable pub make_prq_path : List ℕ → List ℕ
  make_prq_path table_path = snprintf fn_reflen (c_string table_path ++ codes ".prq")

  -- `default_path` is the other path that is made from the name.
  unfoldable pub default_path : List ℕ → List ℕ
  default_path name = snprintf fn_reflen (c_string name ++ codes ".parquet")

  -- `may_write` says which files the server can open for writing.
  unfoldable pub write_prq_meta : (List ℕ → Bool) → List ℕ → List ℕ → Files → Bool × Files
  write_prq_meta may_write table_path parquet_path files =
      let prq = make_prq_path table_path in
      if may_write prq
      then (true, overwrite prq (c_string parquet_path ++ 10 ∷ []) files)
      else (false, files)

  -- What follows `fgets`.
  abbrev pub strip_line : Option (List ℕ) → Option (List ℕ)
  strip_line none = none
  strip_line (some out_path) = some (strip_newline (c_string out_path))

  abbrev pub read_line : Option (List ℕ) → Option (List ℕ)
  read_line none = none
  read_line (some content) = strip_line (fgets fn_reflen content)

  -- `none` is the result `false`.
  unfoldable pub read_prq_meta : List ℕ → Files → Option (List ℕ)
  read_prq_meta table_path files = read_line (files (make_prq_path table_path))

  -- `parquet_path` in `create`. A comment is `none` if its pointer is null, and otherwise the bytes
  -- that its length counts.
  unfoldable pub chosen_path : List ℕ → Option (List ℕ) → List ℕ
  chosen_path name none = default_path name
  chosen_path name (some []) = default_path name
  chosen_path name (some (c ∷ comment)) = take (fn_reflen - 1) (c ∷ comment)

  unfoldable pub create : (List ℕ → Bool) → List ℕ → Option (List ℕ) → Files → HaError × Files
  create may_write name comment files =
      let (written, files') = write_prq_meta may_write name (chosen_path name comment) files in
      if written then (success, files') else (ha_err_crashed_on_usage, files')

  unfoldable pub delete_table : List ℕ → Files → HaError × Files
  delete_table name files = (success, remove (make_prq_path name) files)
