-- ===== src/Parquet/Sessions/Opening/Ends.antt =====
-- The end of `open`, as a whole call.
use devel_mysql_plugin.Common.{
  ℕ, ◌≡◌, ◌∙◌, ap, sym, refl, arith, Option, none, some, List, [], ◌∷◌, ◌++◌, get_elem?, inl, inr,
}
use devel_mysql_plugin.Parquet.HaError.{ha_err_out_of_mem}
use devel_mysql_plugin.Parquet.Server.{Server}
use devel_mysql_plugin.Parquet.Handler.{Handler, get_share, open_shared}
use devel_mysql_plugin.Parquet.Handler.Calls.{opens}
use devel_mysql_plugin.Parquet.Sessions.{Table, Event, calls, put, seen}
use devel_mysql_plugin.Parquet.Sessions.Effects.{own_call, put_same}
use devel_mysql_plugin.Parquet.Sessions.Locking.{outside, returned, moved}
use devel_mysql_plugin.Parquet.Sessions.Locking.Exclusion.{each, Inv, Knows, known}
use devel_mysql_plugin.Parquet.Sessions.Opening.{Site, settle}
use devel_mysql_plugin.Parquet.Sessions.Opening.Shown.{
  is_failed, shown, all_shown-put-moved, get_elem?-all_shown, all_shown,
}
use devel_mysql_plugin.Parquet.Sessions.Opening.Histories.{ends_told, over_told}
use devel_mysql_plugin.Parquet.Sessions.Opening.Serial.{Behind, Tells-same, Tells-call, Serial}
use devel_mysql_plugin.Parquet.Sessions.Opening.Shares.{Serialises, open_reply, there}
use devel_mysql_plugin.Parquet.Sessions.Opening.Calls.{get_elem?-put-none}

-- The share that `open` finds, if the run has it already or not.
found :
    (before now : Option ℕ) (s : ℕ)
    → Behind before now
    → now ≡ some s
    → get_share before (some s) ≡ (some s, some s)
unfolding get_share
found none now s b e = refl
found (some s') now s (inl n) e = ground (arith, n)
found (some s') now s (inr same) e = ap (λ o. (o, o)) (same ∙ e)

module _ (srv : Server) (hton_can_recreate : ℕ) (name : List ℕ) (bare : Table) (c : Site)
    (es : List Event) (t : Table) (v : Serial srv hton_can_recreate name bare c es t) where
  out_busy :
      (i : ℕ) (g : Handler) (j : ℕ)
      → get_elem? (put i g c.handlers) j ≡ none
      → moved c.locking.place i outside j ≡ outside
  out_busy i g =
      each c.locking.place i outside (λ j l. get_elem? (put i g c.handlers) j ≡ none → l ≡ outside)
        (λ e. refl) (λ j ne e. v.busy j (get_elem?-put-none c.handlers i j g e))

  pub ends-Serialises :
      (i : ℕ) (h : Handler) (tmp_share : Option ℕ)
      → Inv c.locking
      → get_elem? c.handlers i ≡ some h
      → c.locking.place i ≡ returned tmp_share
      → Serialises srv hton_can_recreate name bare (
          let (rc, h') = open_shared srv name c.files h tmp_share in
          record (settle c i (opens name tmp_share) (rc, none)) {
            handlers = put i h' c.handlers;
            locking = record c.locking { place = moved c.locking.place i outside };
          })
  unfolding shown is_failed Knows
  ends-Serialises i h none inv here back =
      let h' : Handler = record h { share = none } in
      let place = c.locking.place in
      let stays =
        put_same (all_shown place c.handlers) i h'
          (get_elem?-all_shown place c.handlers i h here ∙ ap (λ l. some (shown l h)) back) in
      (
        es,
        t,
        record {
          hton = v.hton;
          files = v.files;
          handlers =
              v.handlers ∙ sym (all_shown-put-moved place i outside c.handlers h h' here ∙ stays);
          share = v.share;
          busy = out_busy i h';
          tells =
              Tells-same srv hton_can_recreate bare es t _ _ _ _
                (over_told c.asked i place (opens name none) back)
                (over_told c.answered i place (ha_err_out_of_mem, none) back) v.tells;
        },
      )
  ends-Serialises i h (some s) inv here back =
      let place = c.locking.place in
      let (rc, h') = open_shared srv name c.files h (some s) in
      let now : c.locking.ha_share ≡ some s = known c.locking inv i (returned (some s)) back in
      let here' : get_elem? t.handlers i ≡ some h =
        there srv hton_can_recreate name bare c es t v i h here ∙ ap (λ l. some (shown l h)) back in
      let r =
        open_reply srv name (seen t h) c.files (some s) (some s) v.files
          (found t.ha_share c.locking.ha_share s v.share now) in
      let next = own_call srv hton_can_recreate t i h (opens name (some s)) _ _ here' r in
      (
        es ++ calls i (opens name (some s)) ∷ [],
        _,
        record {
          hton = v.hton;
          files = v.files;
          handlers =
              ap (put i h') v.handlers
              ∙ sym (all_shown-put-moved place i outside c.handlers h h' here);
          share = inr (sym now);
          busy = out_busy i h';
          tells =
              Tells-same srv hton_can_recreate bare _ _ _ _ _ _
                (ends_told c.asked i place (opens name none) (opens name (some s)) s back)
                (ends_told c.answered i place (ha_err_out_of_mem, none) (rc, none) s back)
                (Tells-call srv hton_can_recreate bare es t _ _ _ i h (opens name (some s)) _ _
                  here' r next v.tells);
        },
      )
