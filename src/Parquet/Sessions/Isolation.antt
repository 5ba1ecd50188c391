-- ===== src/Parquet/Sessions/Isolation.antt =====
-- What a session hears while others work on the same table.
use devel_mysql_plugin.Common.{
  ℕ, ◌<◌, ◌^◌, ◌≡◌, ◌≢◌, ◌∙◌, ap, subst, sym, refl, arith, true, false, ◌==◌, Option, none, some,
  List, [], ◌∷◌, get_elem?, if◌then◌else◌,
}
use native.Mathlib.Decide.{ℕ_discrete}
use devel_mysql_plugin.Parquet.Server.{Server}
use devel_mysql_plugin.Parquet.Handler.{Handler}
use devel_mysql_plugin.Parquet.Handler.Calls.{World, Call}
use devel_mysql_plugin.Parquet.Handler.Cursor.{Cursor, Answer, answer, answers}
use devel_mysql_plugin.Parquet.Handler.View.{
  OnTable, AllOnTable, reply, contents, number, Valid, PtrWord, Inv-Valid,
}
use devel_mysql_plugin.Parquet.Handler.Refine.{call-Does}
use devel_mysql_plugin.Parquet.Sessions.{
  Table, Event, installs, makes, calls, put, seen, happen, happen_all,
}
use devel_mysql_plugin.Parquet.Sessions.Sharing.{
  Sound, Found, get_elem?-Found, reached-Fine, Fine, Goes, Goes-step, happen-Fine,
}
use devel_mysql_plugin.Parquet.Sessions.Effects.{made_keeps, get_elem?-put, call_keeps, own_call}

-- The calls of session `i`.
unfoldable pub own : ℕ → List Event → List Call
own i [] = []
own i (calls j c ∷ es) = let rest = own i es in if i == j then c ∷ rest else rest
own i (installs ∷ es) = own i es
own i (makes ∷ es) = own i es

abbrev pub first_of : Option (Answer × World) → Option Answer
first_of none = none
first_of (some (a, w)) = some a

abbrev pub heard_first : Option Answer → Option (List Answer) → Option (List Answer)
heard_first none rest = rest
heard_first (some a) none = none
heard_first (some a) (some rest) = some (a ∷ rest)

module _ (srv : Server) (hton_can_recreate : ℕ) where
  -- What session `i` hears of an event, if it is a call of its own, and over a run.
  abbrev pub said_at : Table → Option Handler → Call → Option Answer
  said_at t none c = none
  said_at t (some h) c = first_of (reply srv (seen t h) c)

  unfoldable pub said : ℕ → Table → Event → Option Answer
  said i t installs = none
  said i t makes = none
  said i t (calls j c) = if i == j then said_at t (get_elem? t.handlers i) c else none

  unfoldable pub heard : ℕ → List Event → Table → Option (List Answer)
  heard i [] t = some []
  heard i (e ∷ es) t = elim (happen srv hton_can_recreate t e) [
    | none ↦ none
    | some t' ↦ heard_first (said i t e) (heard i es t')
  ]

  module _ (word : PtrWord srv) (i : ℕ) where
    abbrev pub cursor_of : Handler → Cursor
    cursor_of h = record { rows = contents srv h.arrow_table; next = h.current_row }

    -- What the rest of a run must come to.
    abbrev pub Hears : List Event → Table → Handler → Type 0
    Hears es t h = heard i es t ≡ some (answers (number srv) (cursor_of h) (own i es))

    mine :
        (es : List Event) (t : Table) (h : Handler) (j : ℕ) (c : Call)
        → i ≡ j
        → Fine t
        → get_elem? t.handlers i ≡ some h
        → OnTable c
        → Valid srv h
        → ((t' : Table) (h' : Handler)
            → Fine t'
            → get_elem? t'.handlers i ≡ some h'
            → Valid srv h'
            → Hears es t' h')
        → heard i (calls j c ∷ es) t ≡ some (answers (number srv) (cursor_of h) (c ∷ own i es))
    unfolding heard said answers
    mine es t h j c same v here on valid rest =
        let (w, r, moved, valid') = call-Does srv word (seen t h) c on valid in
        let a : Answer = (answer (number srv) (cursor_of h) c).0 in
        let there : get_elem? t.handlers j ≡ some h = ap (get_elem? t.handlers) (sym same) ∙ here in
        let went = own_call srv hton_can_recreate t j h c a w there r in
        let own_number : (i == j) ≡ true = ground (arith, same) in
        let later =
          rest _ w.handler (subst Goes went (happen-Fine srv hton_can_recreate t (calls j c) v))
            (ap (get_elem? (put j w.handler t.handlers)) same
              ∙ get_elem?-put t.handlers j h w.handler there)
            valid'
          ∙ ap (λ k. some (answers (number srv) k (own i es))) moved in
        rw (went, heard, said, own_number, here, r) (ap (heard_first (some a)) later)

    theirs :
        (es : List Event) (t : Table) (h : Handler) (j : ℕ) (c : Call)
        → i ≢ j
        → Fine t
        → get_elem? t.handlers i ≡ some h
        → ((t' : Table) → Fine t' → get_elem? t'.handlers i ≡ some h → Hears es t' h)
        → Hears (calls j c ∷ es) t h
    unfolding heard said own
    theirs es t h j c other v here rest =
        let (t', r, v') =
          Goes-step srv hton_can_recreate (happen srv hton_can_recreate t (calls j c))
            (happen-Fine srv hton_can_recreate t (calls j c) v) in
        let not_own : (i == j) ≡ false = ground (arith, other) in
        let kept =
          call_keeps srv hton_can_recreate t t' i j (get_elem? t.handlers j) c other
            (unfold happen in r) in
        rw (r, heard, said, not_own) (rest t' v' (kept ∙ here))

    pub hears :
        (es : List Event) (t : Table) (h : Handler)
        → Fine t
        → get_elem? t.handlers i ≡ some h
        → AllOnTable (own i es)
        → Valid srv h
        → Hears es t h
    unfolding heard own answers said happen AllOnTable
    hears [] t h v here on valid = refl
    hears (installs ∷ es) t h v here on valid =
        hears es _ h (happen-Fine srv hton_can_recreate t installs v) here on valid
    hears (makes ∷ es) t h v here on valid =
        hears es _ h (happen-Fine srv hton_can_recreate t makes v)
          (made_keeps t t.hton.create srv.table_share i h here) on valid
    hears (calls j c ∷ es) t h v here on valid = elim (ℕ_discrete i j) [
      | yes same ↦
          let own_number : (i == j) ≡ true = ground (arith, same) in
          let on' : OnTable c × AllOnTable (own i es) =
            subst (λ b. AllOnTable (if b then c ∷ own i es else own i es)) own_number on in
          let rest =
            mine es t h j c same v here on'.0 valid
              (λ t' h' v' here' valid'. hears es t' h' v' here' on'.1 valid') in
          rw (own_number, own) rest
      | no other ↦
          let not_own : (i == j) ≡ false = ground (arith, other) in
          let on' = subst (λ b. AllOnTable (if b then c ∷ own i es else own i es)) not_own on in
          theirs es t h j c other v here (λ t' v' here'. hears es t' h v' here' on' valid)
    ]

    pub get_elem?-Sound :
        (t : Table) (h : Handler) → Fine t → get_elem? t.handlers i ≡ some h → Sound t.ha_share h
    get_elem?-Sound t h v here =
        subst (Found t.ha_share) here (get_elem?-Found t.ha_share t.handlers i v.each)

    -- At any point `t` of a run that begins without handlers and before the plugin is installed, let
    -- session `i` have a handler whose table has fewer than 2 ^ 63 rows. Whatever all the sessions do
    -- from then on, in whatever order, as long as session `i` itself only calls its open table, what it
    -- hears is what a cursor over the rows of its table answers to its own calls: the others neither
    -- move its place nor change its rows. Saved positions are numbers of 64 bits.
    pub session_answers :
        (before es : List Event) (bare t : Table) (h : Handler)
        → bare.hton.create ≡ none
        → bare.handlers ≡ []
        → happen_all srv hton_can_recreate before bare ≡ some t
        → get_elem? t.handlers i ≡ some h
        → h.total_rows < 2 ^ 63
        → AllOnTable (own i es)
        → heard i es t ≡ some (answers (number srv) (cursor_of h) (own i es))
    session_answers before es bare t h uninstalled no_handler reached here small on =
        let v = reached-Fine srv hton_can_recreate before bare t uninstalled no_handler reached in
        hears es t h v here on (Inv-Valid srv h (get_elem?-Sound t h v here).0 small)
