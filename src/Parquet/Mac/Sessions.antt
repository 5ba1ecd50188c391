-- ===== src/Parquet/Mac/Sessions.antt =====
-- A table of the engine for MySQL as its sessions see it: the registration and the calls of
-- Source/05_ReadParquet/Mac/ha_parquet.cc in place of those for MariaDB.
pub mod Reading
use devel_mysql_plugin.Common.{
  ℕ, ◌<◌, ◌^◌, ◌≡◌, ◌∙◌, ap, subst, sym, refl, arith, true, false, ◌==◌, Bool, Option, none, some,
  List, [], ◌∷◌, get_elem?, if◌then◌else◌,
}
use devel_mysql_plugin.Parquet.HaError.{HaError}
use devel_mysql_plugin.Parquet.Arrow.{ArrowTable}
use devel_mysql_plugin.Parquet.Row.{TableShare}
use devel_mysql_plugin.Parquet.Server.{Server}
use devel_mysql_plugin.Parquet.Handler.{Handler, construct}
use devel_mysql_plugin.Parquet.Handler.Calls.{World, Call, apply}
use devel_mysql_plugin.Parquet.Handler.Cursor.{Answer, answers}
use devel_mysql_plugin.Parquet.Handler.View.{AllOnTable, reply, number, PtrWord}
use devel_mysql_plugin.Parquet.Registration.{
  parquet_init, parquet_create_handler, mac_parquet_init, mac_parquet_create_handler,
}
use devel_mysql_plugin.Parquet.Sessions.{
  Table, Event, installs, makes, calls, put, made, seen, called, call_handler, happen, happen_all,
}
use devel_mysql_plugin.Parquet.Sessions.Isolation.{
  own, first_of, heard_first, said_at, said, heard, cursor_of, session_answers,
}
use devel_mysql_plugin.Parquet.Mac.Engine.{mac_construct}
use devel_mysql_plugin.Parquet.Mac.Calls.{mac_apply, mac_reply}
use devel_mysql_plugin.Parquet.Mac.Agreement.{SameArrow, apply_same, reply_same}

-- The state of the handlerton that is set on Mac alone.
abbrev pub in_state : ℕ → Table → Table
in_state s t = record t { hton = record t.hton { state = s } }

abbrev pub each_in_state : ℕ → Option Table → Option Table
each_in_state s none = none
each_in_state s (some t) = some (in_state s t)

module _ (srv : Server) (hton_can_recreate show_option_yes : ℕ)
    (read_status : srv.Reader → Bool × Option ArrowTable) where
  abbrev pub mac_call_handler : Table → ℕ → Option Handler → Call → Option Table
  mac_call_handler t i none c = some t
  mac_call_handler t i (some h) c = called t i (mac_apply srv read_status (seen t h) c)

  unfoldable pub mac_happen : Table → Event → Option Table
  mac_happen t installs =
      let (rc, hton) = mac_parquet_init srv hton_can_recreate show_option_yes t.hton in
      some (record t { hton = hton })
  mac_happen t makes = some (made t t.hton.create srv.table_share)
  mac_happen t (calls i c) = mac_call_handler t i (get_elem? t.handlers i) c

  unfoldable pub mac_happen_all : List Event → Table → Option Table
  mac_happen_all [] t = some t
  mac_happen_all (e ∷ es) t = elim (mac_happen t e) [ none ↦ none | some t' ↦ mac_happen_all es t' ]

  abbrev pub mac_said_at : Table → Option Handler → Call → Option Answer
  mac_said_at t none c = none
  mac_said_at t (some h) c = first_of (mac_reply srv read_status (seen t h) c)

  unfoldable pub mac_said : ℕ → Table → Event → Option Answer
  mac_said i t installs = none
  mac_said i t makes = none
  mac_said i t (calls j c) = if i == j then mac_said_at t (get_elem? t.handlers i) c else none

  unfoldable pub mac_heard : ℕ → List Event → Table → Option (List Answer)
  mac_heard i [] t = some []
  mac_heard i (e ∷ es) t = elim (mac_happen t e) [
    | none ↦ none
    | some t' ↦ heard_first (mac_said i t e) (mac_heard i es t')
  ]

  -- The state of the handlerton after an event, and after a run.
  unfoldable pub state_after : Event → ℕ → ℕ
  state_after installs s = show_option_yes
  state_after makes s = s
  state_after (calls i c) s = s

  unfoldable pub state_after_all : List Event → ℕ → ℕ
  state_after_all [] s = s
  state_after_all (e ∷ es) s = state_after_all es (state_after e s)

  made_same :
      (s : ℕ) (t : Table) (c : Option (TableShare → Handler)) (share : TableShare)
      → made (in_state s t) c share ≡ in_state s (made t c share)
  made_same s t none share = refl
  made_same s t (some create) share = refl

  called_same :
      (s : ℕ) (t : Table) (i : ℕ) (o : Option (HaError × World))
      → called (in_state s t) i o ≡ each_in_state s (called t i o)
  called_same s t i none = refl
  called_same s t i (some (rc, w)) = refl

  call_handler_same :
      SameArrow srv read_status
      → (s : ℕ) (t : Table) (i : ℕ) (h : Option Handler) (c : Call)
      → mac_call_handler (in_state s t) i h c
        ≡ each_in_state s (call_handler srv hton_can_recreate t i h c)
  call_handler_same same s t i none c = refl
  call_handler_same same s t i (some h) c =
      ap (called (in_state s t) i) (apply_same srv read_status same (seen t h) c)
      ∙ called_same s t i (apply srv (seen t h) c)

  pub happen_same :
      SameArrow srv read_status
      → (s : ℕ) (t : Table) (e : Event)
      → mac_happen (in_state s t) e
        ≡ each_in_state (state_after e s) (happen srv hton_can_recreate t e)
  unfolding mac_happen happen state_after mac_parquet_init parquet_init mac_parquet_create_handler
      parquet_create_handler mac_construct construct
  happen_same same s t installs = refl
  happen_same same s t makes = ap some (made_same s t t.hton.create srv.table_share)
  happen_same same s t (calls i c) = call_handler_same same s t i (get_elem? t.handlers i) c

  -- Two ways to go on from an event that come to the same.
  go_on :
      {B : Type 0} (s : ℕ) (o : Option Table) (f g : Table → Option B)
      → ((t : Table) → f (in_state s t) ≡ g t)
      → ◌≡◌ {A = Option B}
          (elim (each_in_state s o) [ none ↦ none | some t ↦ f t ])
          (elim o [ none ↦ none | some t ↦ g t ])
  go_on s none f g rest = refl
  go_on s (some t) f g rest = rest t

  -- An outcome in a state, after the rest of a run.
  states_on :
      (s s' : ℕ) (o : Option Table) (f g : Table → Option Table)
      → ((t : Table) → f (in_state s t) ≡ each_in_state s' (g t))
      → ◌≡◌ {A = Option Table}
          (elim (each_in_state s o) [ none ↦ none | some t ↦ f t ])
          (each_in_state s' (elim o [ none ↦ none | some t ↦ g t ]))
  states_on s s' none f g rest = refl
  states_on s s' (some t) f g rest = rest t

  pub happen_all_same :
      SameArrow srv read_status
      → (es : List Event) (s : ℕ) (t : Table)
      → mac_happen_all es (in_state s t)
        ≡ each_in_state (state_after_all es s) (happen_all srv hton_can_recreate es t)
  unfolding mac_happen_all happen_all state_after_all
  happen_all_same same [] s t = refl
  happen_all_same same (e ∷ es) s t =
      ap (λ o. elim o [ none ↦ none | some t' ↦ mac_happen_all es t' ]) (happen_same same s t e)
      ∙ states_on (state_after e s) (state_after_all es (state_after e s))
          (happen srv hton_can_recreate t e) (mac_happen_all es)
          (happen_all srv hton_can_recreate es) (happen_all_same same es (state_after e s))

  said_at_same :
      SameArrow srv read_status
      → (s : ℕ) (t : Table) (h : Option Handler) (c : Call)
      → mac_said_at (in_state s t) h c ≡ said_at srv hton_can_recreate t h c
  said_at_same same s t none c = refl
  said_at_same same s t (some h) c = ap first_of (reply_same srv read_status same (seen t h) c)

  said_same :
      SameArrow srv read_status
      → (i s : ℕ) (t : Table) (e : Event)
      → mac_said i (in_state s t) e ≡ said srv hton_can_recreate i t e
  unfolding mac_said said
  said_same same i s t installs = refl
  said_same same i s t makes = refl
  said_same same i s t (calls j c) =
      ap (λ a. if i == j then a else none) (said_at_same same s t (get_elem? t.handlers i) c)

  pub heard_same :
      SameArrow srv read_status
      → (i : ℕ) (es : List Event) (s : ℕ) (t : Table)
      → mac_heard i es (in_state s t) ≡ heard srv hton_can_recreate i es t
  unfolding mac_heard heard
  heard_same same i [] s t = refl
  heard_same same i (e ∷ es) s t =
      ap
        (λ o. elim o [
          | none ↦ none
          | some t' ↦ heard_first (mac_said i (in_state s t) e) (mac_heard i es t')
        ])
        (happen_same same s t e)
      ∙ go_on (state_after e s) (happen srv hton_can_recreate t e)
          (λ t'. heard_first (mac_said i (in_state s t) e) (mac_heard i es t'))
          (λ t'.
            heard_first (said srv hton_can_recreate i t e) (heard srv hton_can_recreate i es t'))
          (λ t'.
            ap (λ a. heard_first a (mac_heard i es (in_state (state_after e s) t')))
              (said_same same i s t e)
            ∙ ap (heard_first (said srv hton_can_recreate i t e))
                (heard_same same i es (state_after e s) t'))
