-- ===== src/Parquet/Mac/Sessions/Reading.antt =====
-- What the sessions of the engine for MySQL read.
use devel_mysql_plugin.Common.{
  ℕ, ◌<◌, ◌^◌, ◌≡◌, ◌≢◌, ◌∙◌, ap, sym, refl, arith, true, Bool, Option, none, some, List, [], ◌∷◌,
  length, get_elem?,
}
use devel_mysql_plugin.Libc.Strings.{Without}
use devel_mysql_plugin.Parquet.Arrow.{ArrowTable}
use devel_mysql_plugin.Parquet.Server.{Server}
use devel_mysql_plugin.Parquet.Sidecar.{make_prq_path}
use devel_mysql_plugin.Parquet.Handler.{Handler}
use devel_mysql_plugin.Parquet.Handler.Calls.{creates, opens}
use devel_mysql_plugin.Parquet.Handler.Cursor.{answers}
use devel_mysql_plugin.Parquet.Handler.Scan.{rows_from}
use devel_mysql_plugin.Parquet.Handler.Lifecycle.{Loads, Loads-same}
use devel_mysql_plugin.Parquet.Handler.View.{AllOnTable, number, PtrWord}
use devel_mysql_plugin.Parquet.Sessions.{Table, Event, calls, happen_all}
use devel_mysql_plugin.Parquet.Sessions.Isolation.{own, cursor_of, session_answers}
use devel_mysql_plugin.Parquet.Sessions.Sidecars.{Spares}
use devel_mysql_plugin.Parquet.Sessions.Creation.{created_table_read}
use devel_mysql_plugin.Parquet.Mac.Agreement.{SameArrow}
use devel_mysql_plugin.Parquet.Mac.Sessions.{
  in_state, each_in_state, mac_happen, mac_happen_all, mac_heard, state_after, state_after_all,
  happen_same, happen_all_same, heard_same,
}

-- The table of the other version behind one of this version.
behind :
    (s : ℕ) (o : Option Table) (t : Table)
    → each_in_state s o ≡ some t
    → (t0 : Table) × (o ≡ some t0) × (in_state s t0 ≡ t)
behind s none t e = ground (arith, e)
behind s (some t0) t e = (t0, refl, ground (arith, e))

module _ (srv : Server) (hton_can_recreate show_option_yes : ℕ)
    (read_status : srv.Reader → Bool × Option ArrowTable) (same : SameArrow srv read_status) where
  -- A run from a table of this version, as a run of the other version.
  reached :
      (es : List Event) (s : ℕ) (t0 t : Table)
      → mac_happen_all srv hton_can_recreate show_option_yes read_status es (in_state s t0) ≡ some t
      → (u0 : Table) × (happen_all srv hton_can_recreate es t0 ≡ some u0)
        × (in_state (state_after_all srv hton_can_recreate show_option_yes read_status es s) u0 ≡ t)
  reached es s t0 t e =
      behind (state_after_all srv hton_can_recreate show_option_yes read_status es s)
        (happen_all srv hton_can_recreate es t0) t
        (sym (happen_all_same srv hton_can_recreate show_option_yes read_status same es s t0) ∙ e)

  module _ (word : PtrWord srv) where
    -- At any point of a run of the engine for MySQL that begins without handlers and before the
    -- plugin is installed, let a session have a handler whose table has fewer than 2 ^ 63 rows.
    -- Whatever all the sessions do from then on, as long as this one only calls its open table, it
    -- hears what a cursor over the rows of its table answers to its own calls, these being the rows
    -- that the engine for MariaDB reads. Arrow's two forms of ReadTable agree, and saved positions are
    -- numbers of 64 bits.
    mac_session_answers :
        (i : ℕ) (before es : List Event) (bare t : Table) (h : Handler)
        → bare.hton.create ≡ none
        → bare.handlers ≡ []
        → mac_happen_all srv hton_can_recreate show_option_yes read_status before bare ≡ some t
        → get_elem? t.handlers i ≡ some h
        → h.total_rows < 2 ^ 63
        → AllOnTable (own i es)
        → mac_heard srv hton_can_recreate show_option_yes read_status i es t
          ≡ some (answers (number srv) (cursor_of srv hton_can_recreate word i h) (own i es))
    mac_session_answers i before es bare t h uninstalled no_handler went here small on =
        let (t0, went0, shape) = reached before bare.hton.state bare t went in
        let here0 : get_elem? t0.handlers i ≡ some h =
          ap (λ u. get_elem? u.handlers i) shape ∙ here in
        let s =
          state_after_all srv hton_can_recreate show_option_yes read_status before
            bare.hton.state in
        ap (mac_heard srv hton_can_recreate show_option_yes read_status i es) (sym shape)
        ∙ heard_same srv hton_can_recreate show_option_yes read_status same i es s t0
        ∙ session_answers srv hton_can_recreate word i before es bare t0 h uninstalled no_handler
            went0 here0 small on

    -- At any point of a run of the engine for MySQL that begins without handlers and before the
    -- plugin is installed, let one session create a table whose sidecar can be written, with a
    -- comment that fits in a path buffer, holds no newline and no NUL, and names a parquet file,
    -- other than that sidecar, that Arrow reads then, with fewer than 2 ^ 63 rows. Let then
    -- anything happen, but that a table is created or dropped whose sidecar is the table's or is
    -- the parquet file, and then let a session, the same or another, open the table, with memory
    -- for a share. None of these calls reads through a null pointer, and whatever all the sessions
    -- do from then on, the one that opened the table hears, as long as it only calls its open
    -- table, what a cursor before the first of all the rows of that file answers, these being the
    -- rows that the engine for MariaDB reads. Arrow's two forms of ReadTable agree, saved
    -- positions are numbers of 64 bits, and a file has one name.
    pub mac_created_table_read :
        (before between es : List Event) (bare t u : Table) (k j c s : ℕ) (maker reader : Handler)
        (name comment : List ℕ) (table : ArrowTable)
        → bare.hton.create ≡ none
        → bare.handlers ≡ []
        → mac_happen_all srv hton_can_recreate show_option_yes read_status before bare ≡ some t
        → get_elem? t.handlers k ≡ some maker
        → length (c ∷ comment) < srv.fn_reflen
        → Without 0 (c ∷ comment)
        → Without 10 (c ∷ comment)
        → srv.may_write (make_prq_path srv.fn_reflen name) ≡ true
        → make_prq_path srv.fn_reflen name ≢ c ∷ comment
        → Loads srv t.files (c ∷ comment) table
        → table.num_rows < 2 ^ 63
        → mac_happen_all srv hton_can_recreate show_option_yes read_status
            (calls k (creates name (some (c ∷ comment))) ∷ between)
            t
          ≡ some u
        → Spares srv hton_can_recreate (make_prq_path srv.fn_reflen name) between
        → Spares srv hton_can_recreate (c ∷ comment) between
        → get_elem? u.handlers j ≡ some reader
        → AllOnTable (own j es)
        → (u' : Table) × (mac_happen srv hton_can_recreate show_option_yes read_status u
              (calls j (opens name (some s)))
            ≡ some u')
          × (mac_heard srv hton_can_recreate show_option_yes read_status j es u'
              ≡ some (
                  answers
                    (number srv)
                    (record { rows = rows_from srv table 0 table.num_rows; next = 0 })
                    (own j es)))
    unfolding state_after
    mac_created_table_read before between es bare t u k j c s maker reader name comment table
          uninstalled no_handler went here short no_nul no_line ok other loads small later spares
          spares_file there on =
        let st =
          state_after_all srv hton_can_recreate show_option_yes read_status before
            bare.hton.state in
        let creating = calls k (creates name (some (c ∷ comment))) ∷ between in
        let su = state_after_all srv hton_can_recreate show_option_yes read_status creating st in
        let (t0, went0, shape) = reached before bare.hton.state bare t went in
        let here0 : get_elem? t0.handlers k ≡ some maker =
          ap (λ x. get_elem? x.handlers k) shape ∙ here in
        let loads0 =
          Loads-same srv t.files t0.files (c ∷ comment) table
            (ap (λ x. x.files (c ∷ comment)) shape) loads in
        let (u0, later0, shape') = reached creating st t0 u (
          ap (mac_happen_all srv hton_can_recreate show_option_yes read_status creating) shape
          ∙ later) in
        let there0 : get_elem? u0.handlers j ≡ some reader =
          ap (λ x. get_elem? x.handlers j) shape' ∙ there in
        let (v0, opened, heard0) =
          created_table_read srv hton_can_recreate word before between es bare t0 u0 k j c s maker
            reader name comment table uninstalled no_handler went0 here0 short no_nul no_line ok
            other loads0 small later0 spares spares_file there0 on in
        let opening = calls j (opens name (some s)) in
        (
          in_state su v0,
          ap (λ x. mac_happen srv hton_can_recreate show_option_yes read_status x opening)
                (sym shape')
              ∙ happen_same srv hton_can_recreate show_option_yes read_status same su u0 opening
              ∙ ap (each_in_state su) opened,
          heard_same srv hton_can_recreate show_option_yes read_status same j es su v0 ∙ heard0,
        )
