-- ===== src/Parquet/Sessions/Opening.antt =====
-- `ha_parquet::open` with `get_share` line by line: the sessions of a table open it at once, while
-- others work on it. What `open` does once it has a share is one step, as every other call is.
pub mod Shown
pub mod Histories
pub mod Serial
pub mod Shares
pub mod Calls
pub mod Ends
pub mod Refine
mod Examples
use devel_mysql_plugin.Common.{
  ℕ, ◌≡◌, Bool, true, false, ◌==◌, if◌then◌else◌, Option, none, some, List, [], ◌∷◌, ◌++◌,
  get_elem?,
}
use devel_mysql_plugin.Libc.Files.{Files}
use devel_mysql_plugin.Parquet.HaError.{HaError}
use devel_mysql_plugin.Parquet.Server.{Server}
use devel_mysql_plugin.Parquet.Handler.{Handler, open_shared}
use devel_mysql_plugin.Parquet.Handler.Calls.{World, Call, opens}
use devel_mysql_plugin.Parquet.Handler.Cursor.{Answer}
use devel_mysql_plugin.Parquet.Handler.View.{reply}
use devel_mysql_plugin.Parquet.Registration.{Handlerton, parquet_init}
use devel_mysql_plugin.Parquet.Sessions.{Table, put, made, seen}
use devel_mysql_plugin.Parquet.Sessions.Locking.{
  Place, outside, entering, locked, missing, making, leaving, returned, System, moved, Step,
  initial,
}

-- A table with the places of the sessions in `get_share`, and the calls that each session has made so
-- far with their answers.
pub record Site : Type 0 where
  pub hton : Handlerton
  pub handlers : List Handler
  pub files : Files
  pub locking : System
  pub asked : ℕ → List Call
  pub answered : ℕ → List Answer

abbrev pub table_of : Site → Table
table_of c = record {
  hton = c.hton;
  handlers = c.handlers;
  files = c.files;
  ha_share = c.locking.ha_share;
}

abbrev pub start : Table → Site
start bare = record {
  hton = bare.hton;
  handlers = bare.handlers;
  files = bare.files;
  locking = initial;
  asked = λ i. [];
  answered = λ i. [];
}

unfoldable pub told : {A : Type 0} → (ℕ → List A) → ℕ → A → ℕ → List A
told lists i x j = if j == i then lists j ++ x ∷ [] else lists j

abbrev pub settle : Site → ℕ → Call → Answer → Site
settle c i call a = record c { asked = told c.asked i call; answered = told c.answered i a }

-- A session in a call of `get_share`, which is not yet over.
unfoldable pub is_calling : Place → Bool
is_calling outside = false
is_calling (returned r) = false
is_calling _ = true

unfoldable pub NoOpen : Call → Type 0
NoOpen (opens _ _) = ⊥
NoOpen _ = Unit {0}

-- All sessions open the table by its one name.
module _ (srv : Server) (hton_can_recreate : ℕ) (name : List ℕ) where
  -- A session that is not in `open` calls it, or is called otherwise; one that is in `open` takes a
  -- step in `get_share`, or has its result and goes on to the end.
  pub data Move (c : Site) : Site → Type 0 where
    installs_move : Move c (record c { hton = (parquet_init srv hton_can_recreate c.hton).1 })
    makes_move :
        Move c (record c { handlers = (made (table_of c) c.hton.create srv.table_share).handlers })
    calls_move :
        (i : ℕ) (h : Handler) (call : Call) (a : Answer) (w : World)
        → get_elem? c.handlers i ≡ some h
        → c.locking.place i ≡ outside
        → NoOpen call
        → reply srv (seen (table_of c) h) call ≡ some (a, w)
        → Move c
            (record (settle c i call a) { handlers = put i w.handler c.handlers; files = w.files })
    opens_move :
        (i : ℕ) (h : Handler)
        → get_elem? c.handlers i ≡ some h
        → c.locking.place i ≡ outside
        → Move c
            (record c { locking = record c.locking { place = moved c.locking.place i entering } })
    share_move :
        (i : ℕ) (l : System)
        → is_calling (c.locking.place i) ≡ true
        → Step c.locking i l
        → Move c (record c { locking = l })
    ends_move :
        (i : ℕ) (h : Handler) (tmp_share : Option ℕ)
        → get_elem? c.handlers i ≡ some h
        → c.locking.place i ≡ returned tmp_share
        → Move c (
            let (rc, h') = open_shared srv name c.files h tmp_share in
            record (settle c i (opens name tmp_share) (rc, none)) {
              handlers = put i h' c.handlers;
              locking = record c.locking { place = moved c.locking.place i outside };
            })

  pub data Reached (bare : Table) : Site → Type 0 where
    at_start : Reached bare (start bare)
    by_move : (c d : Site) → Reached bare c → Move c d → Reached bare d
