-- ===== src/Parquet/Sessions/Sidecars.antt =====
-- A file, a sidecar or not, while the sessions work.
use devel_mysql_plugin.Common.{
  ℕ, ◌≡◌, ◌≢◌, ◌∙◌, ap, sym, refl, arith, Option, none, some, List, [], ◌∷◌, get_elem?,
}
use devel_mysql_plugin.Libc.Files.{Files, remove_other}
use devel_mysql_plugin.Parquet.HaError.{HaError}
use devel_mysql_plugin.Parquet.Row.{TableShare}
use devel_mysql_plugin.Parquet.Server.{Server}
use devel_mysql_plugin.Parquet.Sidecar.{make_prq_path, delete_table}
use devel_mysql_plugin.Parquet.Sidecar.Names.{create-other}
use devel_mysql_plugin.Parquet.Handler.{Handler, Outcome, rnd_next, rnd_pos}
use devel_mysql_plugin.Parquet.Handler.Calls.{
  World, Call, creates, drops, nexts, poses, apply, on_outcome,
}
use devel_mysql_plugin.Parquet.Sessions.{
  Table, Event, installs, makes, calls, made, seen, called, call_handler, happen, happen_all,
}

module _ (srv : Server) (hton_can_recreate : ℕ) (path : List ℕ) where
  -- The call creates or drops no table whose sidecar is this file.
  abbrev pub SparesCall : Call → Type 0
  SparesCall (creates n comment) = make_prq_path srv.fn_reflen n ≢ path
  SparesCall (drops n) = make_prq_path srv.fn_reflen n ≢ path
  SparesCall _ = Unit {0}

  abbrev pub Spares : List Event → Type 0
  Spares [] = Unit {0}
  Spares (calls j c ∷ es) = SparesCall c × Spares es
  Spares (installs ∷ es) = Spares es
  Spares (makes ∷ es) = Spares es

  -- The file is as it was.
  abbrev SameFile : Files → Option (HaError × World) → Type 0
  SameFile files none = Unit {0}
  SameFile files (some (rc, w)) = w.files path ≡ files path

  outcome_same : (w : World) (o : Option Outcome) → SameFile w.files (on_outcome w o)
  outcome_same w none = tt
  outcome_same w (some o) = refl

  apply_same : (w : World) (c : Call) → SparesCall c → SameFile w.files (apply srv w c)
  unfolding apply delete_table
  apply_same w (creates n comment) apart =
      create-other srv.fn_reflen srv.may_write n path comment w.files apart
  apply_same w (drops n) apart = remove_other _ _ w.files apart
  apply_same w nexts spares = outcome_same w (rnd_next srv w.handler)
  apply_same w (poses saved) spares = outcome_same w (rnd_pos srv saved w.handler)
  apply_same w _ spares = refl

  -- The same of a table, if there is one.
  abbrev Stays : Files → Option Table → Type 0
  Stays files none = Unit {0}
  Stays files (some t) = t.files path ≡ files path

  called-Stays :
      (t : Table) (j : ℕ) (r : Option (HaError × World))
      → SameFile t.files r
      → Stays t.files (called t j r)
  called-Stays t j none same = tt
  called-Stays t j (some (rc, w)) same = same

  call-Stays :
      (t : Table) (j : ℕ) (o : Option Handler) (c : Call)
      → SparesCall c
      → Stays t.files (call_handler srv hton_can_recreate t j o c)
  call-Stays t j none c spares = refl
  call-Stays t j (some h) c spares =
      called-Stays t j (apply srv (seen t h) c) (apply_same (seen t h) c spares)

  happen-Stays :
      (t : Table) (e : Event) (es : List Event)
      → Spares (e ∷ es)
      → Stays t.files (happen srv hton_can_recreate t e)
  unfolding happen
  happen-Stays t installs es spares = refl
  happen-Stays t makes es spares = made_same t.hton.create
    where
      made_same :
          (create : Option (TableShare → Handler))
          → (made t create srv.table_share).files path ≡ t.files path
      made_same none = refl
      made_same (some create) = refl
  happen-Stays t (calls j c) es spares = call-Stays t j (get_elem? t.handlers j) c spares.0

  Spares-rest : (e : Event) (es : List Event) → Spares (e ∷ es) → Spares es
  Spares-rest installs es spares = spares
  Spares-rest makes es spares = spares
  Spares-rest (calls j c) es spares = spares.1

  continued :
      (files : Files) (o : Option Table) (es : List Event) (t' : Table)
      → Stays files o
      → ((t : Table)
          → happen_all srv hton_can_recreate es t ≡ some t'
          → t'.files path ≡ t.files path)
      → ◌≡◌ {A = Option Table}
          (elim o [ none ↦ none | some t ↦ happen_all srv hton_can_recreate es t ])
          (some t')
      → t'.files path ≡ files path
  continued files none es t' same rest e = absurd (ground (arith, e))
  continued files (some t) es t' same rest e = rest t e ∙ same

  -- Events that spare a file leave it as it was.
  pub file_kept :
      (es : List Event) (t t' : Table)
      → Spares es
      → happen_all srv hton_can_recreate es t ≡ some t'
      → t'.files path ≡ t.files path
  unfolding happen_all
  file_kept [] t t' spares e = ap (λ o. elim o [ none ↦ none | some u ↦ u.files path ]) (sym e)
  file_kept (e ∷ es) t t' spares r =
      continued t.files (happen srv hton_can_recreate t e) es t' (happen-Stays t e es spares)
        (λ u. file_kept es u t' (Spares-rest e es spares)) r
