-- ===== src/Parquet/Sessions/Effects.antt =====
-- What an event does to the handler of one session.
use devel_mysql_plugin.Common.{
  ℕ, zero, suc, ◌≡◌, ◌≢◌, ◌∙◌, ap, sym, refl, arith, Option, none, some, List, [], ◌∷◌, ◌++◌,
  get_elem?,
}
use devel_mysql_plugin.Parquet.HaError.{HaError}
use devel_mysql_plugin.Parquet.Row.{TableShare}
use devel_mysql_plugin.Parquet.Server.{Server}
use devel_mysql_plugin.Parquet.Handler.{Handler, Outcome, rnd_next, rnd_pos}
use devel_mysql_plugin.Parquet.Handler.Calls.{World, Call, nexts, poses, apply, on_outcome}
use devel_mysql_plugin.Parquet.Handler.Cursor.{Answer}
use devel_mysql_plugin.Parquet.Handler.View.{on_row, without_row, reply}
use devel_mysql_plugin.Parquet.Sessions.{
  Table, Event, calls, put, made, seen, called, call_handler, happen, happen_all,
}

get_elem?-append :
    (hs gs : List Handler) (i : ℕ) (h : Handler)
    → get_elem? hs i ≡ some h
    → get_elem? (hs ++ gs) i ≡ some h
get_elem?-append [] gs i h e = absurd (ground (arith, e))
get_elem?-append (g ∷ hs) gs zero h e = e
get_elem?-append (g ∷ hs) gs (suc i) h e = get_elem?-append hs gs i h e

pub get_elem?-put :
    (hs : List Handler) (i : ℕ) (h g : Handler)
    → get_elem? hs i ≡ some h
    → get_elem? (put i g hs) i ≡ some g
get_elem?-put [] i h g e = absurd (ground (arith, e))
get_elem?-put (k ∷ hs) zero h g e = refl
get_elem?-put (k ∷ hs) (suc i) h g e = get_elem?-put hs i h g e

pub put_same : (hs : List Handler) (i : ℕ) (h : Handler) → get_elem? hs i ≡ some h → put i h hs ≡ hs
put_same [] i h e = absurd (ground (arith, e))
put_same (k ∷ hs) zero h e = ap (λ o. elim o [ none ↦ h ∷ hs | some g ↦ g ∷ hs ]) (sym e)
put_same (k ∷ hs) (suc i) h e = ap (λ gs. k ∷ gs) (put_same hs i h e)

get_elem?-put_other :
    (hs : List Handler) (i j : ℕ) (g : Handler) → i ≢ j → get_elem? (put j g hs) i ≡ get_elem? hs i
get_elem?-put_other [] i j g n = refl
get_elem?-put_other (k ∷ hs) zero zero g n = absurd (n refl)
get_elem?-put_other (k ∷ hs) zero (suc j) g n = refl
get_elem?-put_other (k ∷ hs) (suc i) zero g n = refl
get_elem?-put_other (k ∷ hs) (suc i) (suc j) g n = get_elem?-put_other hs i j g (λ e. n (ap suc e))

pub made_keeps :
    (t : Table) (create : Option (TableShare → Handler)) (table : TableShare) (i : ℕ) (h : Handler)
    → get_elem? t.handlers i ≡ some h
    → get_elem? (made t create table).handlers i ≡ some h
made_keeps t none table i h e = e
made_keeps t (some create) table i h e = get_elem?-append t.handlers (create table ∷ []) i h e

called_keeps :
    (t t' : Table) (i j : ℕ) (r : Option (HaError × World))
    → i ≢ j
    → called t j r ≡ some t'
    → get_elem? t'.handlers i ≡ get_elem? t.handlers i
called_keeps t t' i j none n e = absurd (ground (arith, e))
called_keeps t t' i j (some (rc, w)) n e =
    let after : put j w.handler t.handlers ≡ t'.handlers =
      ap (λ o. elim o [ none ↦ [] | some u ↦ u.handlers ]) e in
    ap (λ hs. get_elem? hs i) (sym after) ∙ get_elem?-put_other t.handlers i j w.handler n

module _ (srv : Server) (hton_can_recreate : ℕ) where
  pub next_run :
      (t t' : Table) (e : Event) (es : List Event)
      → happen srv hton_can_recreate t e ≡ some t'
      → happen_all srv hton_can_recreate (e ∷ es) t ≡ happen_all srv hton_can_recreate es t'
  unfolding happen_all
  next_run t t' e es r =
      ap (λ o. elim o [ none ↦ none | some u ↦ happen_all srv hton_can_recreate es u ]) r

  outcome-row :
      (w w' : World) (o : Option Outcome) (a : Answer)
      → on_row srv w o ≡ some (a, w')
      → on_outcome w o ≡ some (a.0, w')
  outcome-row w w' none a e = absurd (ground (arith, e))
  outcome-row w w' (some o) a e = ap (λ r. elim r [ none ↦ none | some (b, v) ↦ some (b.0, v) ]) e

  plain-row :
      (w' : World) (r : Option (HaError × World)) (a : Answer)
      → without_row srv r ≡ some (a, w')
      → r ≡ some (a.0, w')
  plain-row w' none a e = absurd (ground (arith, e))
  plain-row w' (some (rc, w)) a e = ap (λ r. elim r [ none ↦ none | some (b, v) ↦ some (b.0, v) ]) e

  apply-reply :
      (w w' : World) (c : Call) (a : Answer)
      → reply srv w c ≡ some (a, w')
      → apply srv w c ≡ some (a.0, w')
  unfolding reply apply
  apply-reply w w' nexts a e = outcome-row w w' (rnd_next srv w.handler) a e
  apply-reply w w' (poses saved) a e = outcome-row w w' (rnd_pos srv saved w.handler) a e
  apply-reply w w' c a e = plain-row w' (apply srv w c) a e

  pub call_keeps :
      (t t' : Table) (i j : ℕ) (o : Option Handler) (c : Call)
      → i ≢ j
      → call_handler srv hton_can_recreate t j o c ≡ some t'
      → get_elem? t'.handlers i ≡ get_elem? t.handlers i
  call_keeps t t' i j none c n e =
      ap (λ hs. get_elem? hs i) (sym (ap (λ o. elim o [ none ↦ [] | some u ↦ u.handlers ]) e))
  call_keeps t t' i j (some h) c n e = called_keeps t t' i j (apply srv (seen t h) c) n e

  -- What a call does to the table, by what it does to the handler.
  pub call_step :
      (t : Table) (j : ℕ) (h : Handler) (c : Call) (rc : HaError) (w : World)
      → get_elem? t.handlers j ≡ some h
      → apply srv (seen t h) c ≡ some (rc, w)
      → happen srv hton_can_recreate t (calls j c)
        ≡ some (record t {
          handlers = put j w.handler t.handlers;
          files = w.files;
          ha_share = w.ha_share;
        })
  unfolding happen
  call_step t j h c rc w here r =
      ap (λ o. call_handler srv hton_can_recreate t j o c) here ∙ ap (called t j) r

  pub own_call :
      (t : Table) (j : ℕ) (h : Handler) (c : Call) (a : Answer) (w : World)
      → get_elem? t.handlers j ≡ some h
      → reply srv (seen t h) c ≡ some (a, w)
      → happen srv hton_can_recreate t (calls j c)
        ≡ some (record t {
          handlers = put j w.handler t.handlers;
          files = w.files;
          ha_share = w.ha_share;
        })
  own_call t j h c a w here r = call_step t j h c a.0 w here (apply-reply (seen t h) w c a r)
