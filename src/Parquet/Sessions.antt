-- ===== src/Parquet/Sessions.antt =====
-- A table of the engine as its sessions see it: each session has a handler of its own, and they share
-- the handlerton, the files and the table's share. A call is taken as one step.
pub mod Shares
pub mod Sharing
pub mod Effects
pub mod Sidecars
pub mod Isolation
pub mod Creation
pub mod Locking
pub mod Opening
use devel_mysql_plugin.Common.{ℕ, zero, suc, Option, none, some, List, [], ◌∷◌, ◌++◌, get_elem?}
use devel_mysql_plugin.Libc.Files.{Files}
use devel_mysql_plugin.Parquet.HaError.{HaError}
use devel_mysql_plugin.Parquet.Row.{TableShare}
use devel_mysql_plugin.Parquet.Server.{Server}
use devel_mysql_plugin.Parquet.Handler.{Handler}
use devel_mysql_plugin.Parquet.Handler.Calls.{World, Call, apply}
use devel_mysql_plugin.Parquet.Registration.{Handlerton, parquet_init}

pub record Table : Type 0 where
  pub hton : Handlerton
  pub handlers : List Handler
  pub files : Files
  pub ha_share : Option ℕ

-- What happens: the plugin is installed, a session asks for a handler, and the handler of
-- a session, which is known by its number, is called.
pub data Event : Type 0 where
  installs makes : Event
  calls : ℕ → Call → Event

abbrev pub put : ℕ → Handler → List Handler → List Handler
put i y [] = []
put zero y (x ∷ xs) = y ∷ xs
put (suc i) y (x ∷ xs) = x ∷ put i y xs

-- Without `create` the server knows no such engine, and makes no handler.
abbrev pub made : Table → Option (TableShare → Handler) → TableShare → Table
made t none share = t
made t (some create) share = record t { handlers = t.handlers ++ create share ∷ [] }

abbrev pub seen : Table → Handler → World
seen t h = record { handler = h; files = t.files; ha_share = t.ha_share }

-- The table after a call, by what came of it.
abbrev pub called : Table → ℕ → Option (HaError × World) → Option Table
called t i none = none
called t i (some (rc, w)) =
    some
      (record t { handlers = put i w.handler t.handlers; files = w.files; ha_share = w.ha_share })

module _ (srv : Server) (hton_can_recreate : ℕ) where
  -- The server calls only handlers that it has.
  abbrev pub call_handler : Table → ℕ → Option Handler → Call → Option Table
  call_handler t i none c = some t
  call_handler t i (some h) c = called t i (apply srv (seen t h) c)

  -- `none` stands for a read through a null pointer.
  unfoldable pub happen : Table → Event → Option Table
  happen t installs =
      let (rc, hton) = parquet_init srv hton_can_recreate t.hton in some (record t { hton = hton })
  happen t makes = some (made t t.hton.create srv.table_share)
  happen t (calls i c) = call_handler t i (get_elem? t.handlers i) c

  unfoldable pub happen_all : List Event → Table → Option Table
  happen_all [] t = some t
  happen_all (e ∷ es) t = elim (happen t e) [ none ↦ none | some t' ↦ happen_all es t' ]
