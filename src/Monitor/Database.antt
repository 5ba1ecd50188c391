-- ===== src/Monitor/Database.antt =====
-- `db_metric_get`. What libmysqlclient answers is a parameter. The handles and the results that are
-- open are counted.
pub mod Handles
pub mod Numerals
use devel_mysql_plugin.Common.{
  ℕ, ◌+◌, ◌-◌, ◌*◌, ℤ, pos, negsuc, ◌-ℤ◌, Bool, true, false, Option, none, some, List, [], ◌∷◌, leb,
  ltb, ◌==◌, ◌&&◌, ◌||◌, if◌then◌else◌,
}
use devel_mysql_plugin.Libc.Strings.{codes}

pub record DbMetric : Type 0 where
  pub connections : ℤ
  pub questions : ℤ

-- The system variables that name the server; `none` is a null pointer.
pub record Login : Type 0 where
  pub g_mon_socket : Option (List ℕ)
  pub g_mon_user : Option (List ℕ)
  pub g_mon_password : Option (List ℕ)

-- What a query gives: it fails; there is no result; the result has no row; the row's second column
-- is NULL; or it is a text.
pub data Reply : Type 0 where
  query_failed no_result no_row null_value : Reply
  value : List ℕ → Reply

pub data Query : Type 0 where
  threads_connected questions_asked : Query

-- Whether `mysql_init` gives a handle, and what `mysql_real_connect` does for a socket, a user and a
-- password: `none` is a failure.
pub record Client : Type 0 where
  pub handle_ok : Bool
  pub connect : List ℕ → List ℕ → List ℕ → Option (Query → Reply)

-- The result, `out`, the socket, user and password that it was asked with, and how many handles and
-- results were opened and closed.
pub record Tally : Type 0 where
  pub handles_opened : ℕ
  pub handles_closed : ℕ
  pub results_stored : ℕ
  pub results_freed : ℕ

abbrev pub nothing_yet : Tally
nothing_yet = record {
  handles_opened = 0;
  handles_closed = 0;
  results_stored = 0;
  results_freed = 0;
}

pub record Fetched : Type 0 where
  pub ok : Bool
  pub out : DbMetric
  pub tally : Tally

-- `atoll`: blanks, a sign, and the digits up to the first byte that is none. A number out of the
-- range of `long long`, where `atoll` is undefined, is given as it stands.
unfoldable pub digits_value : ℕ → List ℕ → ℕ
digits_value n [] = n
digits_value n (c ∷ s) =
    let rest = digits_value (n * 10 + (c - 48)) s in if leb 48 c && leb c 57 then rest else n

unfoldable pub signed_value : List ℕ → ℤ
unfolding digits_value ◌-ℤ◌
signed_value [] = pos 0
signed_value (c ∷ s) =
    if c == 45
    then pos 0 -ℤ pos (digits_value 0 s)
    else if c == 43
    then pos (digits_value 0 s)
    else pos (digits_value 0 (c ∷ s))

unfoldable pub atoll : List ℕ → ℤ
unfolding signed_value
atoll [] = pos 0
atoll (c ∷ s) =
    let rest = atoll s in if (c == 32) || (leb 9 c && leb c 13) then rest else signed_value (c ∷ s)

abbrev pub or_text : Option (List ℕ) → List ℕ → List ℕ
or_text none t = t
or_text (some s) t = s

-- The lambda `query_ll`, by the new `val` and the tally.
unfoldable pub query_ll : Reply → ℤ → Tally → ℤ × Tally
query_ll query_failed val t = (val, t)
query_ll no_result val t = (val, t)
query_ll no_row val t =
    (val, record t { results_stored = t.results_stored + 1; results_freed = t.results_freed + 1 })
query_ll null_value val t =
    (val, record t { results_stored = t.results_stored + 1; results_freed = t.results_freed + 1 })
query_ll (value text) val t = (
  atoll text,
  record t { results_stored = t.results_stored + 1; results_freed = t.results_freed + 1 },
)

abbrev pub close_handle : Tally → Tally
close_handle t = record t { handles_closed = t.handles_closed + 1 }

-- What follows the attempt to connect.
unfoldable pub converse : Option (Query → Reply) → Tally → Fetched
unfolding query_ll
converse none t = record {
  ok = false;
  out = record { connections = pos 0; questions = pos 0 };
  tally = close_handle t;
}
converse (some reply) t =
    let (connections, t1) = query_ll (reply threads_connected) (pos 0) t in
    let (questions, t2) = query_ll (reply questions_asked) (pos 0) t1 in
    record {
      ok = true;
      out = record { connections = connections; questions = questions };
      tally = close_handle t2;
    }

unfoldable pub db_metric_get : Login → Client → Fetched
db_metric_get login client =
    let sock = or_text login.g_mon_socket (codes "/tmp/mysql.sock") in
    let user = or_text login.g_mon_user (codes "root") in
    let pass = or_text login.g_mon_password (codes "p@ssw0rd!@") in
    if client.handle_ok
    then converse (client.connect sock user pass) (record nothing_yet { handles_opened = 1 })
    else record {
      ok = false;
      out = record { connections = pos 0; questions = pos 0 };
      tally = nothing_yet;
    }
