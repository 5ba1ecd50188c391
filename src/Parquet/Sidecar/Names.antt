-- ===== src/Parquet/Sidecar/Names.antt =====
-- Tables with different names have different sidecars, so that they do not meddle with one another.
use mathlib.Core.List.{append_cancel_right}
use devel_mysql_plugin.Common.{
  ℕ, ◌+◌, ◌-◌, ◌<◌, ◌≡◌, ◌≢◌, ap, sym, ◌∙◌, arith, Bool, Bool-cases, inl, inr, Option, none, List,
  ◌++◌, length, length-append,
}
use devel_mysql_plugin.Libc.Strings.{codes, c_string, take_all}
use devel_mysql_plugin.Libc.Files.{Files, overwrite_other, remove_same, remove_other}
use devel_mysql_plugin.Parquet.Sidecar.{
  make_prq_path, write_prq_meta, read_line, read_prq_meta, create, delete_table,
}

-- `create` writes the sidecar and nothing else.
pub create-other :
    (fn_reflen : ℕ) (may_write : List ℕ → Bool) (name path : List ℕ) (comment : Option (List ℕ))
    (files : Files)
    → make_prq_path fn_reflen name ≢ path
    → (create fn_reflen may_write name comment files).1 path ≡ files path
unfolding create write_prq_meta
create-other fn_reflen may_write name path comment files apart =
    elim (Bool-cases (may_write (make_prq_path fn_reflen name))) [
      | inl ok ↦ rw (ok, write_prq_meta) (overwrite_other _ _ _ files apart)
      | inr bad ↦ rw (bad, write_prq_meta)
    ]

module _ (fn_reflen : ℕ) where
  -- The name with `.prq` fits in a path buffer.
  abbrev pub IsShort : List ℕ → Type 0
  IsShort name = length (c_string name) + 4 < fn_reflen

  make_prq_path_short :
      (name : List ℕ) → IsShort name → make_prq_path fn_reflen name ≡ c_string name ++ codes ".prq"
  unfolding make_prq_path
  make_prq_path_short name h =
      take_all (fn_reflen - 1) (c_string name ++ codes ".prq")
        (omega (arith, length-append (c_string name) (codes ".prq")))

  pub make_prq_path_inj :
      (a b : List ℕ)
      → IsShort a
      → IsShort b
      → make_prq_path fn_reflen a ≡ make_prq_path fn_reflen b
      → c_string a ≡ c_string b
  make_prq_path_inj a b ha hb e =
      append_cancel_right (c_string a) (c_string b) (codes ".prq")
        (sym (make_prq_path_short a ha) ∙ e ∙ make_prq_path_short b hb)

  -- Creating or dropping a table leaves the sidecar of every other table as it was, as long as the
  -- two names fit in a path buffer with their suffix; a dropped table has no sidecar any more.
  pub sidecars_apart :
      (may_write : List ℕ → Bool) (a b : List ℕ) (comment : Option (List ℕ)) (files : Files)
      → IsShort a
      → IsShort b
      → c_string a ≢ c_string b
      → (read_prq_meta fn_reflen b (create fn_reflen may_write a comment files).1
          ≡ read_prq_meta fn_reflen b files)
        × (read_prq_meta fn_reflen b (delete_table fn_reflen a files).1
            ≡ read_prq_meta fn_reflen b files)
        × (read_prq_meta fn_reflen a (delete_table fn_reflen a files).1 ≡ none)
  unfolding read_prq_meta create write_prq_meta delete_table
  sidecars_apart may_write a b comment files ha hb ne = (
    elim (Bool-cases (may_write (make_prq_path fn_reflen a))) [
      | inl ok ↦
          rw (ok, write_prq_meta) (ap (read_line fn_reflen) (overwrite_other _ _ _ files apart))
      | inr bad ↦ rw (bad, write_prq_meta)
    ],
    ap (read_line fn_reflen) (remove_other _ _ files apart),
    ap (read_line fn_reflen) (remove_same (make_prq_path fn_reflen a) files),
  )
    where
      apart : make_prq_path fn_reflen a ≢ make_prq_path fn_reflen b
      apart = λ e. ne (make_prq_path_inj a b ha hb e)
