-- ===== src/Parquet/Sessions/Opening/Shares.antt =====
-- The steps of the sessions in `get_share`, as whole calls.
use devel_mysql_plugin.Common.{
  ℕ, ◌≡◌, ◌∙◌, ap, sym, refl, arith, true, false, Option, none, some, List, [], ◌∷◌, ◌++◌,
  get_elem?, inl, inr, Option-cases,
}
use devel_mysql_plugin.Libc.Files.{Files}
use devel_mysql_plugin.Parquet.HaError.{ha_err_out_of_mem}
use devel_mysql_plugin.Parquet.Server.{Server}
use devel_mysql_plugin.Parquet.Handler.{Handler, get_share, ha_open, open_shared}
use devel_mysql_plugin.Parquet.Handler.Calls.{World, opens, apply}
use devel_mysql_plugin.Parquet.Handler.View.{reply}
use devel_mysql_plugin.Parquet.Sessions.{Table, Event, calls, put, seen}
use devel_mysql_plugin.Parquet.Sessions.Effects.{own_call}
use devel_mysql_plugin.Parquet.Sessions.Locking.{
  Place, outside, entering, locked, missing, making, leaving, returned, System, moved, after_read,
  Step, call_step, lock_step, read_step, new_step, set_step, unlock_step, again_step,
}
use devel_mysql_plugin.Parquet.Sessions.Locking.Exclusion.{each, Inv, Knows, known}
use devel_mysql_plugin.Parquet.Sessions.Opening.{Site, is_calling}
use devel_mysql_plugin.Parquet.Sessions.Opening.Shown.{
  is_failed, shown, get_elem?-all_shown, all_shown-moved_own,
}
use devel_mysql_plugin.Parquet.Sessions.Opening.Histories.{fails_told}
use devel_mysql_plugin.Parquet.Sessions.Opening.Serial.{
  Behind, Tells-same, Tells-call, Serial, moves-Serial,
}

read_goes : (h : Option ℕ) → is_failed (after_read h) ≡ false
unfolding is_failed
read_goes none = refl
read_goes (some s) = refl

unlock_goes : (r : Option ℕ) → is_failed (returned r) ≡ is_failed (leaving r)
unfolding is_failed
unlock_goes none = refl
unlock_goes (some s) = refl

-- `open` as one step, by what `get_share` gives.
pub open_reply :
    (srv : Server) (name : List ℕ) (w : World) (files : Files) (tmp_share after : Option ℕ)
    → w.files ≡ files
    → get_share w.ha_share tmp_share ≡ (tmp_share, after)
    → reply srv w (opens name tmp_share)
      ≡ some (
        ((open_shared srv name files w.handler tmp_share).0, none),
        record w { handler = (open_shared srv name files w.handler tmp_share).1; ha_share = after },
      )
unfolding reply apply ha_open
open_reply srv name w files tmp_share after same e =
    ap
      (λ (r : Option ℕ × Option ℕ). some (
        ((open_shared srv name w.files w.handler r.0).0, none),
        record w { handler = (open_shared srv name w.files w.handler r.0).1; ha_share = r.1 },
      ))
      e
    ∙ ap
        (λ f. some (
          ((open_shared srv name f w.handler tmp_share).0, none),
          record w { handler = (open_shared srv name f w.handler tmp_share).1; ha_share = after },
        ))
        same

module _ (srv : Server) (hton_can_recreate : ℕ) (name : List ℕ) (bare : Table) where
  -- A run that a site stands for.
  abbrev pub Serialises : Site → Type 0
  Serialises c = (es : List Event) × (t : Table) × Serial srv hton_can_recreate name bare c es t

  module _ (c : Site) (es : List Event) (t : Table)
      (v : Serial srv hton_can_recreate name bare c es t) where
    -- A session in `get_share` has a handler.
    pub has_handler :
        (i : ℕ) → is_calling (c.locking.place i) ≡ true → get_elem? c.handlers i ≡ none → ⊥
    unfolding is_calling
    has_handler i calling none_there =
        let out : is_calling (c.locking.place i) ≡ false = ap is_calling (v.busy i none_there) in
        ground (arith, out, calling)

    pub there :
        (i : ℕ) (h : Handler)
        → get_elem? c.handlers i ≡ some h
        → get_elem? t.handlers i ≡ some (shown (c.locking.place i) h)
    there i h e =
        ap (λ hs. get_elem? hs i) v.handlers ∙ get_elem?-all_shown c.locking.place c.handlers i h e

    behind_none : c.locking.ha_share ≡ none → t.ha_share ≡ none
    behind_none e = elim v.share [ inl n ↦ n | inr same ↦ same ∙ e ]

    quiet :
        (i : ℕ) (from p : Place) (owner ha_share : Option ℕ) (made : ℕ)
        → c.locking.place i ≡ from
        → is_calling from ≡ true
        → is_failed p ≡ is_failed from
        → Behind t.ha_share ha_share
        → Serialises (record c {
          locking = record {
            owner = owner;
            ha_share = ha_share;
            made = made;
            place = moved c.locking.place i p;
          };
        })
    quiet i from p owner ha_share made e calling same behind = (
      es,
      t,
      moves-Serial srv hton_can_recreate name bare c es t i p owner ha_share made
          (same ∙ sym (ap is_failed e)) behind
          (λ none_there. absurd (has_handler i (ap is_calling e ∙ calling) none_there)) v,
    )

    -- An open that is to get no share stands for a whole call already.
    fails-Serialises :
        (i made : ℕ)
        → c.locking.ha_share ≡ none
        → c.locking.place i ≡ missing
        → Serialises (record c {
          locking = record c.locking {
            made = made;
            place = moved c.locking.place i (leaving none);
          };
        })
    unfolding get_share shown is_failed is_calling
    fails-Serialises i made none_yet e = elim (Option-cases (get_elem? c.handlers i)) [
      | inl none_there ↦ absurd (has_handler i (ap is_calling e) none_there)
      | inr (h, here) ↦
          let here' : get_elem? t.handlers i ≡ some h =
            there i h here ∙ ap (λ l. some (shown l h)) e in
          let r =
            open_reply srv name (seen t h) c.files none none v.files
              (ap (λ s. get_share s none) (behind_none none_yet)) in
          let next = own_call srv hton_can_recreate t i h (opens name none) _ _ here' r in
          (
            es ++ calls i (opens name none) ∷ [],
            _,
            record {
              hton = v.hton;
              files = v.files;
              handlers =
                  ap (put i (record h { share = none })) v.handlers
                  ∙ sym (all_shown-moved_own c.locking.place i (leaving none) c.handlers h here);
              share = inl refl;
              busy =
                  each c.locking.place i (leaving none)
                    (λ j l. get_elem? c.handlers j ≡ none → l ≡ outside)
                    (λ none_there. absurd (has_handler i (ap is_calling e) none_there))
                    (λ j ne. v.busy j);
              tells =
                  Tells-same srv hton_can_recreate bare _ _ _ _ _ _
                    (fails_told c.asked i c.locking.place (opens name none) e)
                    (fails_told c.answered i c.locking.place (ha_err_out_of_mem, none) e)
                    (Tells-call srv hton_can_recreate bare es t _ _ _ i h (opens name none) _ _
                      here' r next v.tells);
            },
          )
    ]

    pub shares-Serialises :
        (i : ℕ) (l : System)
        → Inv c.locking
        → is_calling (c.locking.place i) ≡ true
        → Step c.locking i l
        → Serialises (record c { locking = l })
    unfolding is_calling is_failed Knows
    shares-Serialises i l inv calling (call_step e) =
        let out : is_calling (c.locking.place i) ≡ false = ap is_calling e in
        ground (arith, out, calling)
    shares-Serialises i l inv calling (lock_step e free) =
        quiet i entering locked (some i) c.locking.ha_share c.locking.made e refl refl v.share
    shares-Serialises i l inv calling (read_step e) =
        quiet i locked (after_read c.locking.ha_share) c.locking.owner c.locking.ha_share
          c.locking.made e refl (read_goes c.locking.ha_share) v.share
    shares-Serialises i l inv calling (new_step none e) =
        fails-Serialises i _ (known c.locking inv i missing e) e
    shares-Serialises i l inv calling (new_step (some s) e) =
        quiet i missing (making s) c.locking.owner c.locking.ha_share _ e refl refl v.share
    shares-Serialises i l inv calling (set_step s e) =
        quiet i (making s) (leaving (some s)) c.locking.owner (some s) c.locking.made e refl refl
          (inl (behind_none (known c.locking inv i (making s) e)))
    shares-Serialises i l inv calling (unlock_step r e) =
        quiet i (leaving r) (returned r) none c.locking.ha_share c.locking.made e refl
          (unlock_goes r) v.share
    shares-Serialises i l inv calling (again_step r e) =
        let out : is_calling (c.locking.place i) ≡ false = ap is_calling e in
        ground (arith, out, calling)
