-- ===== src/Parquet/Sessions/Creation.antt =====
-- From CREATE TABLE in one session to what another one reads.
use devel_mysql_plugin.Common.{
  ℕ, ◌<◌, ◌^◌, ◌≡◌, ◌≢◌, ◌∙◌, ap, sym, subst, refl, arith, true, none, some, List, [], ◌∷◌, length,
  get_elem?,
}
use mathlib.Core.Path.{ap₂}
use devel_mysql_plugin.Libc.Strings.{Without}
use devel_mysql_plugin.Parquet.Arrow.{ArrowTable}
use devel_mysql_plugin.Parquet.Server.{Server}
use devel_mysql_plugin.Parquet.Sidecar.{make_prq_path, read_line, read_prq_meta, create}
use devel_mysql_plugin.Parquet.Sidecar.Names.{create-other}
use devel_mysql_plugin.Parquet.Handler.{Handler, ha_open}
use devel_mysql_plugin.Parquet.Handler.Calls.{creates, opens, apply}
use devel_mysql_plugin.Parquet.Handler.Scan.{rows_from}
use devel_mysql_plugin.Parquet.Handler.Lifecycle.{
  Loads, Loads-same, Holds, create-sidecar, sidecar-Holds,
}
use devel_mysql_plugin.Parquet.Handler.Cursor.{answers}
use devel_mysql_plugin.Parquet.Handler.View.{AllOnTable, contents, number, PtrWord, Inv-Valid}
use devel_mysql_plugin.Parquet.Sessions.{Table, Event, calls, put, seen, happen, happen_all}
use devel_mysql_plugin.Parquet.Sessions.Sharing.{Fine, Goes, happen-Fine, run-Fine, reached-Fine}
use devel_mysql_plugin.Parquet.Sessions.Sidecars.{Spares, file_kept}
use devel_mysql_plugin.Parquet.Sessions.Effects.{get_elem?-put, put_same, call_step, next_run}
use devel_mysql_plugin.Parquet.Sessions.Isolation.{own, heard, cursor_of, hears, get_elem?-Sound}

module _ (srv : Server) (hton_can_recreate : ℕ) (word : PtrWord srv) where
  open srv use {fn_reflen, may_write}

  step-Fine :
      (t t' : Table) (e : Event) → Fine t → happen srv hton_can_recreate t e ≡ some t' → Fine t'
  step-Fine t t' e v r = subst Goes r (happen-Fine srv hton_can_recreate t e v)

  created : Table → List ℕ → List ℕ → Table
  created t name comment = record t {
    files = (create fn_reflen may_write name (some comment) t.files).1;
  }

  creates_step :
      (t : Table) (k : ℕ) (h : Handler) (name comment : List ℕ)
      → get_elem? t.handlers k ≡ some h
      → happen srv hton_can_recreate t (calls k (creates name (some comment)))
        ≡ some (created t name comment)
  unfolding created apply
  creates_step t k h name comment here =
      let made = create fn_reflen may_write name (some comment) t.files in
      call_step srv hton_can_recreate t k h (creates name (some comment)) made.0
        (record (seen t h) { files = made.1 }) here refl
      ∙ ap (λ hs. some (record (created t name comment) { handlers = hs }))
          (put_same t.handlers k h here)

  opened : Table → ℕ → Handler → List ℕ → ℕ → Table
  opened t j h name s =
      let found = ha_open srv name t.files t.ha_share (some s) h in
      record t { handlers = put j found.1 t.handlers; ha_share = found.2 }

  opens_step :
      (t : Table) (j : ℕ) (h : Handler) (name : List ℕ) (s : ℕ)
      → get_elem? t.handlers j ≡ some h
      → happen srv hton_can_recreate t (calls j (opens name (some s))) ≡ some (opened t j h name s)
  unfolding opened apply
  opens_step t j h name s here =
      let found = ha_open srv name t.files t.ha_share (some s) h in
      call_step srv hton_can_recreate t j h (opens name (some s)) found.0
        (record (seen t h) { handler = found.1; ha_share = found.2 }) here refl

  -- A handler that has the table, and whose table is not too large, hears the table's rows.
  fresh_cursor :
      (i : ℕ) (h : Handler) (t : ArrowTable)
      → Holds srv h t
      → cursor_of srv hton_can_recreate word i h
        ≡ record { rows = rows_from srv t 0 t.num_rows; next = 0 }
  unfolding contents
  fresh_cursor i h t holds =
      ap₂ (λ a n. record { rows = contents srv a; next = n }) holds.table_is holds.at_start

  reads :
      (t : Table) (j s : ℕ) (h : Handler) (name : List ℕ) (table : ArrowTable) (es : List Event)
      → Fine t
      → get_elem? t.handlers j ≡ some h
      → Holds srv (ha_open srv name t.files t.ha_share (some s) h).1 table
      → table.num_rows < 2 ^ 63
      → AllOnTable (own j es)
      → heard srv hton_can_recreate j es (opened t j h name s)
        ≡ some (
            answers
              (number srv)
              (record { rows = rows_from srv table 0 table.num_rows; next = 0 })
              (own j es))
  unfolding opened
  reads t j s h name table es v here holds small on =
      let t' = opened t j h name s in
      let h' = (ha_open srv name t.files t.ha_share (some s) h).1 in
      let v' = step-Fine t t' (calls j (opens name (some s))) v (opens_step t j h name s here) in
      let here' = get_elem?-put t.handlers j h h' here in
      let sound = get_elem?-Sound srv hton_can_recreate word j t' h' v' here' in
      hears srv hton_can_recreate word j es t' h' v' here' on
        (Inv-Valid srv h' sound.0 (omega (arith, holds.count_is, small)))
      ∙ ap (λ c. some (answers (number srv) c (own j es))) (fresh_cursor j h' table holds)

  -- At any point of a run that begins without handlers and before the plugin is installed, let one
  -- session create a table whose sidecar can be written, with a comment that fits in a path buffer,
  -- holds no newline and no NUL, and names a parquet file, other than that sidecar, that Arrow
  -- reads then, with fewer than 2 ^ 63 rows. Let then anything happen, but that a table is created or
  -- dropped whose sidecar is the table's or is the parquet file, and then let a session, the same or
  -- another, open the table, with memory for a share. None of these calls reads through a null
  -- pointer, and whatever all the sessions do from then on, the one that opened the table hears, as
  -- long as it only calls its open table, what a cursor before the first of all the rows of that file
  -- answers. Saved positions are numbers of 64 bits, and a file has one name.
  pub created_table_read :
      (before between es : List Event) (bare t u : Table) (k j c s : ℕ) (maker reader : Handler)
      (name comment : List ℕ) (table : ArrowTable)
      → bare.hton.create ≡ none
      → bare.handlers ≡ []
      → happen_all srv hton_can_recreate before bare ≡ some t
      → get_elem? t.handlers k ≡ some maker
      → length (c ∷ comment) < fn_reflen
      → Without 0 (c ∷ comment)
      → Without 10 (c ∷ comment)
      → may_write (make_prq_path fn_reflen name) ≡ true
      → make_prq_path fn_reflen name ≢ c ∷ comment
      → Loads srv t.files (c ∷ comment) table
      → table.num_rows < 2 ^ 63
      → happen_all srv hton_can_recreate (calls k (creates name (some (c ∷ comment))) ∷ between) t
        ≡ some u
      → Spares srv hton_can_recreate (make_prq_path fn_reflen name) between
      → Spares srv hton_can_recreate (c ∷ comment) between
      → get_elem? u.handlers j ≡ some reader
      → AllOnTable (own j es)
      → (u' : Table) × (happen srv hton_can_recreate u (calls j (opens name (some s))) ≡ some u')
        × (heard srv hton_can_recreate j es u'
            ≡ some (
                answers
                  (number srv)
                  (record { rows = rows_from srv table 0 table.num_rows; next = 0 })
                  (own j es)))
  unfolding created read_prq_meta
  created_table_read before between es bare t u k j c s maker reader name comment table uninstalled
        no_handler reached here short no_nul no_line ok other loads small went spares spares_file
        there on =
      let v = reached-Fine srv hton_can_recreate before bare t uninstalled no_handler reached in
      let t1 = created t name (c ∷ comment) in
      let made = creates_step t k maker name (c ∷ comment) here in
      let v1 = step-Fine t t1 (calls k (creates name (some (c ∷ comment)))) v made in
      let went1 : happen_all srv hton_can_recreate between t1 ≡ some u =
        sym (
          next_run srv hton_can_recreate t t1 (calls k (creates name (some (c ∷ comment)))) between
            made)
        ∙ went in
      let kept = (create-sidecar srv name c comment t.files short no_nul no_line ok).1 in
      let found =
        ap (read_line fn_reflen)
          (file_kept srv hton_can_recreate (make_prq_path fn_reflen name) between t1 u spares went1)
        ∙ kept in
      let same =
        file_kept srv hton_can_recreate (c ∷ comment) between t1 u spares_file went1
        ∙ create-other fn_reflen may_write name (c ∷ comment) (some (c ∷ comment)) t.files other in
      let loads' = Loads-same srv t.files u.files (c ∷ comment) table same loads in
      let holds =
        (sidecar-Holds srv name (c ∷ comment) u.files u.ha_share s reader table found loads').1 in
      (
        opened u j reader name s,
        opens_step u j reader name s there,
        reads u j s reader name table es (run-Fine srv hton_can_recreate between t1 u v1 went1)
            there holds small on,
      )
