-- ===== src/Parquet/Registration.antt =====
-- The registration of the engine at the end of Source/05_ReadParquet/Linux/ha_parquet.cc and
-- Mac/ha_parquet.cc. The flag and the state that it sets are the server's constants and parameters.
use devel_mysql_plugin.Common.{ℕ, Option, some}
use devel_mysql_plugin.Parquet.Row.{TableShare}
use devel_mysql_plugin.Parquet.Server.{Server}
use devel_mysql_plugin.Parquet.Handler.{Handler, construct}
use devel_mysql_plugin.Parquet.Mac.Engine.{mac_construct}

-- The members of `handlerton` that the plugin sets.
pub record Handlerton : Type 0 where
  pub state : ℕ
  pub create : Option (TableShare → Handler)
  pub flags : ℕ

-- It returns 0.
unfoldable pub parquet_fini : ℕ
parquet_fini = 0

module _ (srv : Server) (hton_can_recreate : ℕ) where
  unfoldable pub parquet_create_handler : TableShare → Handler
  parquet_create_handler table = construct (record srv { table_share = table })

  unfoldable pub parquet_init : Handlerton → ℕ × Handlerton
  parquet_init p = (0, record p { create = some parquet_create_handler; flags = hton_can_recreate })

  unfoldable pub mac_parquet_create_handler : TableShare → Handler
  mac_parquet_create_handler table = mac_construct (record srv { table_share = table })

  unfoldable pub mac_parquet_init : ℕ → Handlerton → ℕ × Handlerton
  mac_parquet_init show_option_yes p = (
    0,
    record p {
      state = show_option_yes;
      create = some mac_parquet_create_handler;
      flags = hton_can_recreate;
    },
  )
