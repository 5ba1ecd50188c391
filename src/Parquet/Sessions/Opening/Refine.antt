-- ===== src/Parquet/Sessions/Opening/Refine.antt =====
-- Line by line, the sessions do what they do call by call.
use devel_mysql_plugin.Common.{
  ℕ, ◌≡◌, ◌∙◌, ap, subst, sym, refl, arith, inl, Option, none, some, List, [], ◌∷◌, get_elem?,
}
use devel_mysql_plugin.Parquet.HaError.{HaError}
use devel_mysql_plugin.Parquet.Server.{Server}
use devel_mysql_plugin.Parquet.Handler.{Handler, Outcome, rnd_next, rnd_pos}
use devel_mysql_plugin.Parquet.Handler.Calls.{World, Call, nexts, poses, apply, on_outcome}
use devel_mysql_plugin.Parquet.Handler.Cursor.{Answer}
use devel_mysql_plugin.Parquet.Handler.View.{reply, on_row, without_row}
use devel_mysql_plugin.Parquet.Handler.Safety.{Inv, Safe, apply-Safe}
use devel_mysql_plugin.Parquet.Sessions.{Table, seen, happen_all}
use devel_mysql_plugin.Parquet.Sessions.Sharing.{Found, get_elem?-Found, reached-Fine}
use devel_mysql_plugin.Parquet.Sessions.Isolation.{own, heard}
use devel_mysql_plugin.Parquet.Sessions.Locking
use devel_mysql_plugin.Parquet.Sessions.Locking.{Place, outside, entering, call_step, again_step}
use devel_mysql_plugin.Parquet.Sessions.Locking.Sharing.{Reachable-Inv}
use devel_mysql_plugin.Parquet.Sessions.Opening.{
  Site, table_of, Move, installs_move, makes_move, calls_move, opens_move, share_move, ends_move,
  Reached, at_start, by_move, start,
}
use devel_mysql_plugin.Parquet.Sessions.Opening.Shown.{is_failed, shown, all_shown}
use devel_mysql_plugin.Parquet.Sessions.Opening.Histories.{pending}
use devel_mysql_plugin.Parquet.Sessions.Opening.Serial.{moves-Serial}
use devel_mysql_plugin.Parquet.Sessions.Opening.Shares.{Serialises, there, shares-Serialises}
use devel_mysql_plugin.Parquet.Sessions.Opening.Ends.{ends-Serialises}
use devel_mysql_plugin.Parquet.Sessions.Opening.Calls.{
  installs-Serialises, makes-Serialises, calls-Serialises,
}

all_shown_outside : (hs : List Handler) → all_shown (λ i. outside) hs ≡ hs
unfolding all_shown shown is_failed
all_shown_outside [] = refl
all_shown_outside (h ∷ hs) = ap (λ gs. h ∷ gs) (all_shown_outside hs)

module _ (srv : Server) (hton_can_recreate : ℕ) (name : List ℕ) (bare : Table) where
  -- The locking of a site by itself.
  Reached-Reachable :
      {c : Site} → Reached srv hton_can_recreate name bare c → Locking.Reachable c.locking
  Reached-Reachable at_start = Locking.at_start
  Reached-Reachable (by_move c d r installs_move) = Reached-Reachable r
  Reached-Reachable (by_move c d r makes_move) = Reached-Reachable r
  Reached-Reachable (by_move c d r (calls_move i h call a w e out plain q)) = Reached-Reachable r
  Reached-Reachable (by_move c d r (opens_move i h e out)) =
      Locking.by_step c.locking _ i (Reached-Reachable r) (call_step out)
  Reached-Reachable (by_move c d r (share_move i l calling st)) =
      Locking.by_step c.locking l i (Reached-Reachable r) st
  Reached-Reachable (by_move c d r (ends_move i h s e back)) =
      Locking.by_step c.locking _ i (Reached-Reachable r) (again_step s back)

  start-Serialises : bare.ha_share ≡ none → Serialises srv hton_can_recreate name bare (start bare)
  unfolding pending is_failed own heard happen_all
  start-Serialises none_yet = (
    [],
    bare,
    record {
      hton = refl;
      files = refl;
      handlers = sym (all_shown_outside bare.handlers);
      share = inl none_yet;
      busy = λ j e. refl;
      tells = record { went = refl; asks = λ j. refl; hears = λ j. refl };
    },
  )

  opens-Serialises :
      (c : Site) (i : ℕ) (h : Handler)
      → get_elem? c.handlers i ≡ some h
      → c.locking.place i ≡ outside
      → Serialises srv hton_can_recreate name bare c
      → Serialises srv hton_can_recreate name bare (record c {
        locking = record c.locking { place = Locking.moved c.locking.place i entering };
      })
  unfolding is_failed
  opens-Serialises c i h here out (es, t, v) = (
    es,
    t,
    moves-Serial srv hton_can_recreate name bare c es t i entering c.locking.owner
        c.locking.ha_share c.locking.made (sym (ap is_failed out)) v.share
        (λ none_there. ground (arith, none_there, here)) v,
  )

  Move-Serialises :
      (c d : Site)
      → Reached srv hton_can_recreate name bare c
      → Move srv hton_can_recreate name c d
      → Serialises srv hton_can_recreate name bare c
      → Serialises srv hton_can_recreate name bare d
  Move-Serialises c d r installs_move (es, t, v) =
      installs-Serialises srv hton_can_recreate name bare c es t v
  Move-Serialises c d r makes_move (es, t, v) =
      makes-Serialises srv hton_can_recreate name bare c es t v
  Move-Serialises c d r (calls_move i h call a w here out plain q) (es, t, v) =
      calls-Serialises srv hton_can_recreate name bare c es t v i h call a w here out plain q
  Move-Serialises c d r (opens_move i h here out) s = opens-Serialises c i h here out s
  Move-Serialises c d r (share_move i l calling st) (es, t, v) =
      shares-Serialises srv hton_can_recreate name bare c es t v i l
        (Reachable-Inv (Reached-Reachable r)) calling st
  Move-Serialises c d r (ends_move i h s here back) (es, t, v) =
      ends-Serialises srv hton_can_recreate name bare c es t v i h s
        (Reachable-Inv (Reached-Reachable r)) here back

  -- From a table without a share, let the sessions open it at once, each through `get_share` line by
  -- line, in any order and with other calls in between. Then there is a run of whole calls, in which
  -- `open` is one step, that goes through, and in which each session makes the calls that it has made
  -- here, in its order, and hears the same answers. At its end the registration, the files and the
  -- handlers are the same, and so is the table's share, unless the run has none yet. An open that
  -- is about to get no share counts as over.
  pub opens_serialise :
      (c : Site)
      → bare.ha_share ≡ none
      → Reached srv hton_can_recreate name bare c
      → Serialises srv hton_can_recreate name bare c
  opens_serialise c none_yet at_start = start-Serialises none_yet
  opens_serialise c none_yet (by_move b d r m) =
      Move-Serialises b d r m (opens_serialise b none_yet r)

  row_Safe :
      (w : World) (o : Option Outcome)
      → Safe (on_outcome w o)
      → (a : Answer) × (u : World) × (on_row srv w o ≡ some (a, u))
  row_Safe w none safe = absurd safe
  row_Safe w (some o) safe = (_, _, refl)

  plain_Safe :
      (r : Option (HaError × World))
      → Safe r
      → (a : Answer) × (u : World) × (without_row srv r ≡ some (a, u))
  plain_Safe none safe = absurd safe
  plain_Safe (some (rc, w)) safe = (_, _, refl)

  reply_Safe :
      (w : World) (call : Call)
      → Inv w.handler
      → (a : Answer) × (u : World) × (reply srv w call ≡ some (a, u))
  unfolding reply apply
  reply_Safe w nexts v = row_Safe w (rnd_next srv w.handler) (apply-Safe srv w nexts v)
  reply_Safe w (poses saved) v =
      row_Safe w (rnd_pos srv saved w.handler) (apply-Safe srv w (poses saved) v)
  reply_Safe w call v = plain_Safe (apply srv w call) (apply-Safe srv w call v)

  -- From a table without handlers and without a share, before the plugin is installed: however the
  -- lines of the opens and the other calls interleave, a handler whose session is not in `open`
  -- answers any call, so that none reads through a null pointer; also while other sessions stand
  -- within `get_share`, and after an `open` that failed.
  pub calls_answered :
      (c : Site) (i : ℕ) (h : Handler) (call : Call)
      → bare.hton.create ≡ none
      → bare.handlers ≡ []
      → bare.ha_share ≡ none
      → Reached srv hton_can_recreate name bare c
      → get_elem? c.handlers i ≡ some h
      → c.locking.place i ≡ outside
      → (a : Answer) × (w : World) × (reply srv (seen (table_of c) h) call ≡ some (a, w))
  unfolding shown is_failed
  calls_answered c i h call uninstalled no_handler none_yet r here out =
      let (es, t, v) = opens_serialise c none_yet r in
      let here' : get_elem? t.handlers i ≡ some h =
        there srv hton_can_recreate name bare c es t v i h here ∙ ap (λ l. some (shown l h)) out in
      let fine = reached-Fine srv hton_can_recreate es bare t uninstalled no_handler v.tells.went in
      let sound =
        subst (Found t.ha_share) here' (get_elem?-Found t.ha_share t.handlers i fine.each) in
      reply_Safe (seen (table_of c) h) call sound.0
