-- ===== src/Parquet/Sessions/Sharing.antt =====
-- The sessions of a table lock through one share.
use devel_mysql_plugin.Common.{
  ℕ, zero, suc, ◌≡◌, ◌∙◌, sym, subst, refl, inl, Option, none, some, List, [], ◌∷◌, ◌++◌, get_elem?,
}
use devel_mysql_plugin.Parquet.HaError.{HaError}
use devel_mysql_plugin.Parquet.Row.{TableShare}
use devel_mysql_plugin.Parquet.Server.{Server}
use devel_mysql_plugin.Parquet.Handler.{Handler, construct}
use devel_mysql_plugin.Parquet.Handler.Calls.{World, Call, apply}
use devel_mysql_plugin.Parquet.Handler.Safety.{Inv, Safe, apply-Safe, construct-Inv}
use devel_mysql_plugin.Parquet.Registration.{parquet_init, parquet_create_handler}
use devel_mysql_plugin.Parquet.Sessions.{
  Table, Event, installs, makes, calls, put, made, seen, called, call_handler, happen, happen_all,
}
use devel_mysql_plugin.Parquet.Sessions.Shares.{Holds, Stays, Holds-Stays, Shared, apply-Shared}

-- What is kept of each handler of a table.
abbrev pub Sound : Option ℕ → Handler → Type 0
Sound ha_share h = Inv h × Holds ha_share h

abbrev pub Each : Option ℕ → List Handler → Type 0
Each s [] = Unit {0}
Each s (h ∷ hs) = Sound s h × Each s hs

abbrev pub Found : Option ℕ → Option Handler → Type 0
Found s none = Unit {0}
Found s (some h) = Sound s h

Each-append :
    (s : Option ℕ) (hs : List Handler) (h : Handler) → Each s hs → Sound s h → Each s (hs ++ h ∷ [])
Each-append s [] h vs v = (v, tt)
Each-append s (g ∷ hs) h vs v = (vs.0, Each-append s hs h vs.1 v)

pub get_elem?-Found :
    (s : Option ℕ) (hs : List Handler) (i : ℕ) → Each s hs → Found s (get_elem? hs i)
get_elem?-Found s [] i vs = tt
get_elem?-Found s (h ∷ hs) zero vs = vs.0
get_elem?-Found s (h ∷ hs) (suc i) vs = get_elem?-Found s hs i vs.1

Each-Stays : (s s' : Option ℕ) (hs : List Handler) → Stays s s' → Each s hs → Each s' hs
Each-Stays s s' [] g vs = tt
Each-Stays s s' (h ∷ hs) g vs = ((vs.0.0, Holds-Stays s s' h g vs.0.1), Each-Stays s s' hs g vs.1)

put-Each :
    (s : Option ℕ) (hs : List Handler) (i : ℕ) (h : Handler)
    → Each s hs
    → Sound s h
    → Each s (put i h hs)
put-Each s [] i h vs v = tt
put-Each s (g ∷ hs) zero h vs v = (v, vs.1)
put-Each s (g ∷ hs) (suc i) h vs v = (vs.0, put-Each s hs i h vs.1 v)

-- What `create` makes is sound.
abbrev pub Creates : Option (TableShare → Handler) → Type 0
Creates none = Unit {0}
Creates (some create) = (s : Option ℕ) (table : TableShare) → Sound s (create table)

pub record Fine (t : Table) : Type 0 where
  pub create : Creates t.hton.create
  pub each : Each t.ha_share t.handlers

abbrev pub Goes : Option Table → Type 0
Goes none = ⊥
Goes (some t) = Fine t

made-Fine :
    (t : Table) (create : Option (TableShare → Handler)) (table : TableShare)
    → Fine t
    → Creates create
    → Fine (made t create table)
made-Fine t none table v c = v
made-Fine t (some create) table v c = record {
  create = v.create;
  each = Each-append t.ha_share t.handlers (create table) v.each (c t.ha_share table);
}

called-Fine :
    (t : Table) (i : ℕ) (h : Handler) (r : Option (HaError × World))
    → Fine t
    → Safe r
    → Shared (seen t h) r
    → Goes (called t i r)
called-Fine t i h none v safe shared = safe
called-Fine t i h (some (rc, w)) v safe shared = record {
  create = v.create;
  each =
      put-Each w.ha_share t.handlers i w.handler
        (Each-Stays t.ha_share w.ha_share t.handlers shared.1 v.each) (safe, shared.0);
}

module _ (srv : Server) (hton_can_recreate : ℕ) where
  call_handler-Fine :
      (t : Table) (i : ℕ) (o : Option Handler) (c : Call)
      → Fine t
      → Found t.ha_share o
      → Goes (call_handler srv hton_can_recreate t i o c)
  call_handler-Fine t i none c v found = v
  call_handler-Fine t i (some h) c v found =
      called-Fine t i h (apply srv (seen t h) c) v (apply-Safe srv (seen t h) c found.0)
        (apply-Shared srv (seen t h) c found.1)

  pub happen-Fine : (t : Table) (e : Event) → Fine t → Goes (happen srv hton_can_recreate t e)
  unfolding happen parquet_init parquet_create_handler construct
  happen-Fine t installs v = record {
    create = λ s table. (construct-Inv (record srv { table_share = table }), inl refl);
    each = v.each;
  }
  happen-Fine t makes v = made-Fine t t.hton.create srv.table_share v v.create
  happen-Fine t (calls i c) v =
      call_handler-Fine t i (get_elem? t.handlers i) c v
        (get_elem?-Found t.ha_share t.handlers i v.each)

  pub Goes-step : (r : Option Table) → Goes r → (t : Table) × (r ≡ some t) × Fine t
  Goes-step none g = absurd g
  Goes-step (some t) g = (t, refl, g)

  happen_all-Fine :
      (es : List Event) (t : Table)
      → Fine t
      → (t' : Table) × (happen_all srv hton_can_recreate es t ≡ some t') × Fine t'
  unfolding happen_all
  happen_all-Fine [] t v = (t, refl, v)
  happen_all-Fine (e ∷ es) t v =
      let (u, r, v') = Goes-step (happen srv hton_can_recreate t e) (happen-Fine t e v) in
      let (t', rest, v'') = happen_all-Fine es u v' in (t', rw (r, happen_all) rest, v'')

  bare-Fine : (t : Table) → t.hton.create ≡ none → t.handlers ≡ [] → Fine t
  bare-Fine t uninstalled no_handler = record {
    create = rw uninstalled tt;
    each = rw no_handler tt;
  }

  pub run-Fine :
      (es : List Event) (t t' : Table)
      → Fine t
      → happen_all srv hton_can_recreate es t ≡ some t'
      → Fine t'
  run-Fine es t t' v reached =
      let (u, r, v') = happen_all-Fine es t v in subst Goes (sym r ∙ reached) v'

  pub reached-Fine :
      (es : List Event) (bare t : Table)
      → bare.hton.create ≡ none
      → bare.handlers ≡ []
      → happen_all srv hton_can_recreate es bare ≡ some t
      → Fine t
  reached-Fine es bare t uninstalled no_handler reached =
      run-Fine es bare t (bare-Fine bare uninstalled no_handler) reached

  -- From a table without handlers, before the plugin is installed: whatever happens, in whatever order
  -- the sessions' calls come, none of them reads through a null pointer, and afterwards every handler
  -- has the row count of its table and its cursor within it, and no share or the one share that the
  -- table has.
  pub sessions_share :
      (es : List Event) (t : Table)
      → t.hton.create ≡ none
      → t.handlers ≡ []
      → (t' : Table) × (happen_all srv hton_can_recreate es t ≡ some t')
        × Each t'.ha_share t'.handlers
  sessions_share es t uninstalled no_handler =
      let (t', r, v) = happen_all-Fine es t (bare-Fine t uninstalled no_handler) in (t', r, v.each)
