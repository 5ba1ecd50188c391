-- ===== src/Parquet/Handler/Lifecycle.antt =====
-- CREATE TABLE, open and a scan, end to end, and the ways in which `open` fails.
use devel_mysql_plugin.Common.{
  ℕ, ◌+◌, ◌-◌, ◌<◌, ◌≡◌, ◌≢◌, ◌⊎◌, ◌∙◌, ap, sym, refl, inl, inr, arith, true, Option-cases, Option,
  none, some, List, ◌∷◌, length,
}
use devel_mysql_plugin.Libc.Strings.{c_string, c_string_id, Without, take_all}
use devel_mysql_plugin.Libc.Files.{Files}
use devel_mysql_plugin.Parquet.HaError.{
  HaError, success, ha_err_out_of_mem, ha_err_no_such_table, ha_err_crashed_on_usage,
  ha_err_end_of_file,
}
use devel_mysql_plugin.Parquet.Arrow.{ArrowTable}
use devel_mysql_plugin.Parquet.Server.{Server}
use devel_mysql_plugin.Parquet.Sidecar.{
  make_prq_path, default_path, read_prq_meta, chosen_path, create,
}
use devel_mysql_plugin.Parquet.Sidecar.RoundTrip.{read_prq_meta-create_ok}
use devel_mysql_plugin.Parquet.Sidecar.Names.{create-other}
use devel_mysql_plugin.Parquet.Handler.{
  Handler, get_share, parquet_path, open_path, ha_open, rnd_init, or_default, adopt, parse,
  read_file,
}
use devel_mysql_plugin.Parquet.Handler.Scan.{scan, rows_from, scan_rows}

module _ (srv : Server) where
  open srv use {fn_reflen, open_readable, open_file, read_table, may_write}

  -- What Arrow makes of a path: all three calls succeed and the last one gives `t`.
  pub record Loads (files : Files) (path : List ℕ) (t : ArrowTable) : Type 0 where
    pub file : srv.File
    pub reader : srv.Reader
    pub opened : open_readable path (files path) ≡ some file
    pub parsed : open_file file ≡ some reader
    pub was_read : read_table reader ≡ some t

  -- The handler has the table `t` and stands before its first row.
  pub record Holds (h : Handler) (t : ArrowTable) : Type 0 where
    pub table_is : h.arrow_table ≡ some t
    pub count_is : h.total_rows ≡ t.num_rows
    pub at_start : h.current_row ≡ 0

  -- A file that is as it was loads as it did.
  pub Loads-same :
      (files files' : Files) (path : List ℕ) (t : ArrowTable)
      → files' path ≡ files path
      → Loads files path t
      → Loads files' path t
  Loads-same files files' path t same l = record {
    file = l.file;
    reader = l.reader;
    opened = ap (open_readable path) same ∙ l.opened;
    parsed = l.parsed;
    was_read = l.was_read;
  }

  open_path-Holds :
      (path : List ℕ) (files : Files) (h : Handler) (t : ArrowTable)
      → Loads files path t
      → ((open_path srv path files h).0 ≡ success) × Holds (open_path srv path files h).1 t
  unfolding open_path
  open_path-Holds path files h t l =
      rw (l.opened, l.parsed, l.was_read)
        (refl, record { table_is = refl; count_is = refl; at_start = refl })

  -- The handler still has the table, the row count and the cursor that it had.
  pub record Keeps (h h' : Handler) : Type 0 where
    pub table_kept : h'.arrow_table ≡ h.arrow_table
    pub count_kept : h'.total_rows ≡ h.total_rows
    pub cursor_kept : h'.current_row ≡ h.current_row

  -- The path of the parquet file: what the sidecar says, or else <name>.parquet.
  unfoldable pub IsPath : List ℕ → Files → List ℕ → Type 0
  IsPath name files path =
      (read_prq_meta fn_reflen name files ≡ some path)
      ⊎ (read_prq_meta fn_reflen name files ≡ none) × (path ≡ default_path fn_reflen name)

  -- The ways in which `open` ends with a share, by the path of the parquet file.
  pub data Opens (path : List ℕ) (files : Files) (h : Handler) (rc : HaError) (h' : Handler)
      : Type 0 where
    no_file :
        rc ≡ ha_err_no_such_table
        → open_readable path (files path) ≡ none
        → Keeps h h'
        → Opens path files h rc h'
    no_parquet :
        rc ≡ ha_err_crashed_on_usage
        → (file : srv.File) → open_readable path (files path) ≡ some file
        → open_file file ≡ none
        → Keeps h h'
        → Opens path files h rc h'
    no_table :
        rc ≡ ha_err_crashed_on_usage
        → (file : srv.File) → open_readable path (files path) ≡ some file
        → (reader : srv.Reader) → open_file file ≡ some reader
        → read_table reader ≡ none
        → Keeps h h'
        → Opens path files h rc h'
    loaded :
        rc ≡ success → (t : ArrowTable) → Loads files path t → Holds h' t → Opens path files h rc h'

  abbrev keeps :
      (h : Handler) (s : Option ℕ) (l : ℕ) → Keeps h (record h { share = s; lock_type = l })
  keeps h s l = record { table_kept = refl; count_kept = refl; cursor_kept = refl }

  module _ (path : List ℕ) (files : Files) (h : Handler) (s : Option ℕ) (l : ℕ) where
    abbrev locked : Handler
    locked = record h { share = s; lock_type = l }

    -- The end of `open`, and the share that the handler has then.
    abbrev Ends : HaError × Handler → Type 0
    Ends r = (r.1.share ≡ s) × Opens path files h r.0 r.1

    adopt-Ends :
        (file : srv.File) (reader : srv.Reader)
        → open_readable path (files path) ≡ some file
        → open_file file ≡ some reader
        → (t : Option ArrowTable) → read_table reader ≡ t
        → Ends (adopt srv locked t)
    adopt-Ends file reader e f none g = (refl, no_table refl file e reader f g (keeps h s l))
    adopt-Ends file reader e f (some t) g = (
      refl,
      loaded refl t (record { file = file; reader = reader; opened = e; parsed = f; was_read = g })
          (record { table_is = refl; count_is = refl; at_start = refl }),
    )

    parse-Ends :
        (file : srv.File)
        → open_readable path (files path) ≡ some file
        → (r : Option srv.Reader) → open_file file ≡ r
        → Ends (parse srv locked r)
    parse-Ends file e none f = (refl, no_parquet refl file e f (keeps h s l))
    parse-Ends file e (some reader) f = adopt-Ends file reader e f (read_table reader) refl

    read_file-Ends :
        (f : Option srv.File) → open_readable path (files path) ≡ f → Ends (read_file srv locked f)
    read_file-Ends none e = (refl, no_file refl e (keeps h s l))
    read_file-Ends (some file) e = parse-Ends file e (open_file file) refl

  parquet_path-IsPath :
      (name : List ℕ) (files : Files) → IsPath name files (parquet_path srv name files)
  unfolding IsPath parquet_path
  parquet_path-IsPath name files = elim (Option-cases (read_prq_meta fn_reflen name files)) [
    | inl e ↦ inr (e, ap (or_default srv name) e)
    | inr (path, e) ↦ inl (e ∙ ap some (sym (ap (or_default srv name) e)))
  ]

  -- The share that the handler gets: the table's, or where it has none the new one.
  unfoldable pub IsShare : Option ℕ → Option ℕ → ℕ → Type 0
  IsShare ha_share fresh s = (ha_share ≡ some s) ⊎ (ha_share ≡ none) × (fresh ≡ some s)

  -- `open` is out of memory exactly if the table has no share and none can be made; then the handler
  -- keeps what it had loaded. Otherwise handler and table have the table's share, or the new one
  -- where it had none, and the path is what the sidecar says, or <name>.parquet if nothing can be
  -- read of it. Without a file of that name that opens, the table does not exist; with one that is no
  -- parquet file, or whose table cannot be read, it is corrupt; each time the handler keeps what it
  -- had loaded. Otherwise `open` succeeds, and the handler has the table of the file, with its row
  -- count, at the first row.
  pub ha_open-Opens :
      (name : List ℕ) (files : Files) (ha_share fresh : Option ℕ) (h : Handler)
      → let (rc, h', ha_share') = ha_open srv name files ha_share fresh h in
        (ha_share ≡ none)
          × (fresh ≡ none)
          × (rc ≡ ha_err_out_of_mem)
          × (h'.share ≡ none)
          × (ha_share' ≡ none)
          × Keeps h h'
        ⊎ (s : ℕ) × IsShare ha_share fresh s
          × (h'.share ≡ some s)
          × (ha_share' ≡ some s)
          × (path : List ℕ) × IsPath name files path
          × Opens path files h rc h'
  unfolding ha_open get_share open_path IsShare
  ha_open-Opens name files none none h =
      inl (refl, refl, refl, refl, refl, keeps h none h.lock_type)
  ha_open-Opens name files (some s) fresh h =
      let path = parquet_path srv name files in
      let (share, ends) =
        read_file-Ends path files h (some s) srv.locks.tl_unlock (open_readable path (files path))
          refl in
      inr (s, inl refl, share, refl, path, parquet_path-IsPath name files, ends)
  ha_open-Opens name files none (some s) h =
      let path = parquet_path srv name files in
      let (share, ends) =
        read_file-Ends path files h (some s) srv.locks.tl_unlock (open_readable path (files path))
          refl in
      inr (s, inr (refl, refl), share, refl, path, parquet_path-IsPath name files, ends)

  get_share-some :
      (ha_share : Option ℕ) (s : ℕ) → (u : ℕ) × ((get_share ha_share (some s)).0 ≡ some u)
  unfolding get_share
  get_share-some none s = (s, refl)
  get_share-some (some u) s = (u, refl)

  ha_open-Holds :
      (name : List ℕ) (files : Files) (ha_share : Option ℕ) (s : ℕ) (h : Handler) (t : ArrowTable)
      → Loads files (parquet_path srv name files) t
      → ((ha_open srv name files ha_share (some s) h).0 ≡ success)
        × Holds (ha_open srv name files ha_share (some s) h).1 t
  unfolding ha_open
  ha_open-Holds name files ha_share s h t l =
      let (u, e) = get_share-some ha_share s in
      rw e (open_path-Holds (parquet_path srv name files) files (record h { share = some u }) t l)

  -- What CREATE TABLE leaves for `open`.
  pub create-sidecar :
      (name : List ℕ) (c : ℕ) (comment : List ℕ) (files : Files)
      → length (c ∷ comment) < fn_reflen
      → Without 0 (c ∷ comment)
      → Without 10 (c ∷ comment)
      → may_write (make_prq_path fn_reflen name) ≡ true
      → let made = create fn_reflen may_write name (some (c ∷ comment)) files in
        (made.0 ≡ success) × (read_prq_meta fn_reflen name made.1 ≡ some (c ∷ comment))
  create-sidecar name c comment files short no_nul no_line ok =
      let made =
        read_prq_meta-create_ok fn_reflen (omega arith) may_write name (some (c ∷ comment)) files
          (rw whole no_line) ok in
      (made.0, made.1 ∙ ap some whole)
    where
      whole : c_string (chosen_path fn_reflen name (some (c ∷ comment))) ≡ c ∷ comment
      whole =
          unfold chosen_path in
          rw (take_all (fn_reflen - 1) (c ∷ comment) (omega arith))
            (c_string_id (c ∷ comment) no_nul)

  -- What `open` does with a sidecar that names a parquet file.
  pub sidecar-Holds :
      (name path : List ℕ) (files : Files) (ha_share : Option ℕ) (s : ℕ) (h : Handler)
      (t : ArrowTable)
      → read_prq_meta fn_reflen name files ≡ some path
      → Loads files path t
      → ((ha_open srv name files ha_share (some s) h).0 ≡ success)
        × Holds (ha_open srv name files ha_share (some s) h).1 t
  sidecar-Holds name path files ha_share s h t found loads =
      ha_open-Holds name files ha_share s h t (rw path_found loads)
    where
      path_found : parquet_path srv name files ≡ path
      path_found = unfold parquet_path in ap (or_default srv name) found

  -- CREATE TABLE with a comment that fits in a path buffer, holds no newline and no NUL and names a
  -- parquet file that Arrow reads, and not the sidecar itself, then `open` on any handler and a full scan: both operations
  -- succeed, and the scan gives every row of that file, in order, and then the end of the file.
  create_open_scan :
      (name : List ℕ) (c : ℕ) (comment : List ℕ) (files : Files) (ha_share : Option ℕ) (s : ℕ)
      (h : Handler) (t : ArrowTable)
      → length (c ∷ comment) < fn_reflen
      → Without 0 (c ∷ comment)
      → Without 10 (c ∷ comment)
      → may_write (make_prq_path fn_reflen name) ≡ true
      → make_prq_path fn_reflen name ≢ c ∷ comment
      → Loads files (c ∷ comment) t
      → let made = create fn_reflen may_write name (some (c ∷ comment)) files in
        let found = ha_open srv name made.1 ha_share (some s) h in
        (made.0 ≡ success)
        × (found.0 ≡ success)
        × (h' : Handler) × (scan srv (t.num_rows + 1) (rnd_init found.1).1
            ≡ some (rows_from srv t 0 t.num_rows, ha_err_end_of_file, h'))
  create_open_scan name c comment files ha_share s h t short no_nul no_line ok apart loads =
      let (made, kept) = create-sidecar name c comment files short no_nul no_line ok in
      let loads' =
        Loads-same files _ (c ∷ comment) t
          (create-other fn_reflen may_write name (c ∷ comment) (some (c ∷ comment)) files apart)
          loads in
      let (found, holds) = sidecar-Holds name (c ∷ comment) _ ha_share s h t kept loads' in
      let (h', rows, _) = scan_rows srv _ t holds.table_is holds.count_is in (made, found, h', rows)
