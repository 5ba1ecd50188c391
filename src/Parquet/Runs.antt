-- ===== src/Parquet/Runs.antt =====
-- Runs of the handler on a small server, and each theorem about it at a concrete input.
use devel_mysql_plugin.Common.{
  ℕ, ◌+◌, ◌<◌, ◌≤◌, ◌≡◌, ◌≢◌, ◌⊎◌, ◌↔◌, refl, ap, arith, pos, Bool, true, false, Option, none, some,
  List, [], ◌∷◌, length, ◌==◌, if◌then◌else◌,
}
use devel_mysql_plugin.Libc.Strings.{codes, c_string}
use devel_mysql_plugin.Libc.Files.{Files, same_name}
use devel_mysql_plugin.Parquet.HaError.{success, ha_err_out_of_mem, ha_err_crashed_on_usage}
use devel_mysql_plugin.Parquet.Arrow.{int32s, ArrowTable}
use devel_mysql_plugin.Parquet.Sidecar.{read_prq_meta, chosen_path, create, delete_table}
use devel_mysql_plugin.Parquet.Sidecar.RoundTrip.{read_prq_meta-create}
use devel_mysql_plugin.Parquet.Sidecar.Names.{sidecars_apart}
use devel_mysql_plugin.Parquet.Sidecar.Full.{create_full, left_of, sidecar_full}
use devel_mysql_plugin.Parquet.Server.{Server, LockTypes}
use devel_mysql_plugin.Parquet.Handler.{
  Handler, Outcome, ha_open, rnd_next, rnd_pos, position, store_lock,
}
use devel_mysql_plugin.Parquet.Handler.Calls.{World}
use devel_mysql_plugin.Parquet.Handler.Positions.{rnd_pos-rnd_next}
use devel_mysql_plugin.Parquet.Handler.Lifecycle.{Keeps, IsPath, IsShare, Opens, ha_open-Opens}
use devel_mysql_plugin.Parquet.Handler.Locks.{Grants, store_lock_lem}

-- Two rows of one column.
abbrev pub orders : ArrowTable
orders = record {
  columns =
      (record { values = int32s (λ i. pos (i + 7)); length = 2; is_null = λ i. false } ∷ []) ∷ [];
  num_rows = 2;
}

abbrev pub orders_path : List ℕ
orders_path = codes "/data/o.parquet"

abbrev pick : Bool → Option ℕ
pick true = some 1
pick false = none

-- A parquet file begins with P.
abbrev pub parquet_file : Option (List ℕ) → Option ℕ
parquet_file none = none
parquet_file (some []) = none
parquet_file (some (c ∷ content)) = pick (c == 80)

abbrev pub lock_types : LockTypes
lock_types = record {
  tl_ignore = 100;
  tl_unlock = 0;
  tl_read = 2;
  tl_read_no_insert = 5;
  tl_write_allow_write = 6;
  tl_write_concurrent_insert = 7;
  tl_write = 11;
}

-- A stored pointer is kept as one digit.
abbrev pub first : List ℕ → ℕ
first [] = 0
first (v ∷ _) = v

abbrev pub server : Server
server = record {
  fn_reflen = 512;
  File = ℕ;
  Reader = ℕ;
  open_readable = λ p content. parquet_file content;
  open_file = λ f. some f;
  read_table = λ r. some orders;
  may_write = λ p. true;
  my_store_ptr = λ len v. v ∷ [];
  my_get_ptr = λ saved len. first saved;
  table_share = record { fields = 1; null_bytes = 1 };
  locks = lock_types;
  unset_lock_type = 0;
  ha_status_auto = 64;
  new_statistics = record { records = 0; auto_increment_value = 0 };
}

abbrev pub no_files : Files
no_files p = none

abbrev pub data_files : Files
data_files p = if same_name p orders_path then some (80 ∷ []) else none

abbrev pub table_name : List ℕ
table_name = codes "./test/t"

abbrev pub blank : Handler
blank = record {
  share = none;
  lock_type = 0;
  arrow_table = none;
  current_row = 0;
  total_rows = 0;
  ref_length = 8;
  ref = [];
  stats = record { records = 0; auto_increment_value = 0 };
}

abbrev pub ready : Handler
ready = record blank { arrow_table = some orders; total_rows = 2 }

abbrev no_share : Option ℕ
no_share = none

abbrev new_share : Option ℕ
new_share = some 40

ha_open-Opens_example :
    let (rc, h', ha_share') = ha_open server table_name data_files no_share new_share blank in
    (no_share ≡ none)
      × (new_share ≡ none)
      × (rc ≡ ha_err_out_of_mem)
      × (h'.share ≡ none)
      × (ha_share' ≡ none)
      × Keeps server blank h'
    ⊎ (s : ℕ) × IsShare server no_share new_share s
      × (h'.share ≡ some s)
      × (ha_share' ≡ some s)
      × (path : List ℕ) × IsPath server table_name data_files path
      × Opens server path data_files blank rc h'
ha_open-Opens_example = ha_open-Opens server table_name data_files no_share new_share blank

abbrev pub ready_world : World
ready_world = record { handler = ready; files = no_files; ha_share = some 40 }

rnd_pos-rnd_next_example :
    (o : Outcome) × (rnd_next server ready ≡ some o)
    × (o.rc ≡ success)
    × (rnd_pos server (position o.after).ref ready
        ≡ some (record { rc = success; row = o.row; after = ready }))
rnd_pos-rnd_next_example =
    rnd_pos-rnd_next server ready ready orders (λ n h. refl) refl refl refl refl (omega arith) refl
      (omega arith)

read_prq_meta-create_example :
    (true ≡ true)
      × ((create 512 (λ p. true) table_name (some orders_path) no_files).0 ≡ success)
      × (read_prq_meta 512 table_name
            (create 512 (λ p. true) table_name (some orders_path) no_files).1
          ≡ some (c_string (chosen_path 512 table_name (some orders_path))))
    ⊎ (true ≡ false)
      × (create 512 (λ p. true) table_name (some orders_path) no_files
          ≡ (ha_err_crashed_on_usage, no_files))
unfolding chosen_path c_string
read_prq_meta-create_example =
    read_prq_meta-create 512 (omega arith) (λ p. true) table_name (some orders_path) no_files
      (omega arith)

-- There is room for three bytes.
sidecar_full_example :
    ((create_full 512 (λ p. true) 3 table_name (some orders_path) no_files).0 ≡ success)
    × (read_prq_meta 512 table_name
          (create_full 512 (λ p. true) 3 table_name (some orders_path) no_files).1
        ≡ left_of 3 (c_string (chosen_path 512 table_name (some orders_path))))
    × ((read_prq_meta 512 table_name
            (create_full 512 (λ p. true) 3 table_name (some orders_path) no_files).1
          ≡ some (c_string (chosen_path 512 table_name (some orders_path))))
        ↔ ((0 < 3) × (length (c_string (chosen_path 512 table_name (some orders_path))) ≤ 3)))
unfolding chosen_path c_string
sidecar_full_example =
    sidecar_full 512 (omega arith) (λ p. true) 3 table_name (some orders_path) no_files
      (omega arith) refl

sidecars_apart_example :
    (read_prq_meta 512 (codes "u") (create 512 (λ p. true) table_name (some orders_path) no_files).1
      ≡ read_prq_meta 512 (codes "u") no_files)
    × (read_prq_meta 512 (codes "u") (delete_table 512 table_name no_files).1
        ≡ read_prq_meta 512 (codes "u") no_files)
    × (read_prq_meta 512 table_name (delete_table 512 table_name no_files).1 ≡ none)
unfolding c_string
sidecars_apart_example =
    sidecars_apart 512 (λ p. true) table_name (codes "u") (some orders_path) no_files (omega arith)
      (omega arith) (λ e. omega (arith, ap length e))

abbrev asked : ℕ
asked = 7

store_lock_lem_example :
    ((asked ≡ lock_types.tl_ignore) ⊎ (ready.lock_type ≢ lock_types.tl_unlock))
      × (store_lock server false asked ready ≡ ready)
    ⊎ (got : ℕ) × (asked ≢ lock_types.tl_ignore)
      × (ready.lock_type ≡ lock_types.tl_unlock)
      × (store_lock server false asked ready ≡ record ready { lock_type = got })
      × Grants lock_types false asked got
store_lock_lem_example = store_lock_lem server false asked ready (omega arith)
