-- ===== src/Parquet/Handler/Capabilities.antt =====
-- What the engine tells the server that it can do, in ha_parquet.h of both versions. The server's flags
-- and its limit are parameters.
use Prim.Native.Nat.{bit_or}
use devel_mysql_plugin.Common.{ℕ, ◌≡◌, refl, Bool, List}
use devel_mysql_plugin.Libc.Strings.{codes}

pub record Flags : Type 0 where
  pub ha_no_transactions : ℕ
  pub ha_binlog_stmt_capable : ℕ
  pub ha_max_rec_length : ℕ

unfoldable pub table_type : List ℕ
table_type = codes "READ_PARQUET"

unfoldable pub mac_table_type : List ℕ
mac_table_type = codes "READ_PARQUET"

-- By the number of an index, of a part, and whether all parts before are meant.
unfoldable pub index_flags : ℕ → ℕ → Bool → ℕ
index_flags inx part all = 0

unfoldable pub mac_index_flags : ℕ → ℕ → Bool → ℕ
mac_index_flags inx part all = 0

unfoldable pub max_supported_keys : ℕ
max_supported_keys = 0

unfoldable pub mac_max_supported_keys : ℕ
mac_max_supported_keys = 0

unfoldable pub max_supported_key_length : ℕ
max_supported_key_length = 0

unfoldable pub mac_max_supported_key_length : ℕ
mac_max_supported_key_length = 0

module _ (f : Flags) where
  unfoldable pub table_flags : ℕ
  table_flags = bit_or f.ha_no_transactions f.ha_binlog_stmt_capable

  unfoldable pub mac_table_flags : ℕ
  mac_table_flags = bit_or f.ha_no_transactions f.ha_binlog_stmt_capable

  unfoldable pub max_supported_record_length : ℕ
  max_supported_record_length = f.ha_max_rec_length

  unfoldable pub mac_max_supported_record_length : ℕ
  mac_max_supported_record_length = f.ha_max_rec_length

  -- The two versions tell the server the same, and neither has an index.
  mac_capabilities_same :
      (inx part : ℕ) (all : Bool)
      → (mac_table_type ≡ table_type)
        × (mac_table_flags ≡ table_flags)
        × (mac_max_supported_record_length ≡ max_supported_record_length)
        × (mac_index_flags inx part all ≡ index_flags inx part all)
        × (mac_max_supported_keys ≡ max_supported_keys)
        × (mac_max_supported_key_length ≡ max_supported_key_length)
  unfolding table_type mac_table_type table_flags mac_table_flags max_supported_record_length
      mac_max_supported_record_length index_flags mac_index_flags max_supported_keys
      mac_max_supported_keys max_supported_key_length mac_max_supported_key_length
  mac_capabilities_same inx part all = (refl, refl, refl, refl, refl, refl)
