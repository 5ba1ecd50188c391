-- ===== src/Monitor/Loop/Rates.antt =====
-- The rates of a round.
use native.Mathlib.Nat.{div-div-eq-div-mul, div-add-mod', mod-lt}
use devel_mysql_plugin.Common.{
  ℕ, zero, suc, ◌+◌, ◌-◌, ◌*◌, ◌/◌, ◌%◌, ◌^◌, ◌≤◌, ◌<◌, ◌≡◌, ◌⊎◌, inl, inr, refl, arith, sym, ◌∷◌,
  ℤ, pos, ◌-ℤ◌, tdiv, word, signed, wrap_signed, Bool, true, false, Option, none, some, List,
  if◌then◌else◌,
}
use native.Mathlib.Decide.{dec_lt}
use devel_mysql_plugin.Monitor.Disk.{Drive, disk_stat_get}
use devel_mysql_plugin.Monitor.Database.{
  Login, Client, Fetched, Reply, Query, Tally, nothing_yet, converse, or_text, db_metric_get,
}
use devel_mysql_plugin.Libc.Strings.{codes}
use devel_mysql_plugin.Monitor.Database.Handles.{nothing}
use devel_mysql_plugin.Monitor.Loop.{Indicators, Monitor, Samples, kbps, qps, start, measure, round}

-- `rate` is how often `unit` goes into the growth from `prev` to `cur`, and 0 if the counter went
-- back.
unfoldable pub IsRate : ℕ → ℕ → ℕ → ℤ → Type 0
IsRate unit prev cur rate =
    ((cur < prev) × (rate ≡ pos 0))
    ⊎ ((k left : ℕ) × (rate ≡ pos k) × (left < unit) × (cur ≡ prev + k * unit + left))

quotient_le : (n d : ℕ) → 1 ≤ d → n / d ≤ n
quotient_le n zero h = absurd (omega arith)
quotient_le n (suc d) h = omega (arith, div-add-mod' n (suc d))

split_growth :
    (prev cur unit : ℕ)
    → 1 ≤ unit
    → prev ≤ cur
    → ((cur - prev) % unit < unit) × (cur ≡ prev + (cur - prev) / unit * unit + (cur - prev) % unit)
split_growth prev cur unit h on =
    (mod-lt (cur - prev) (omega arith), omega (arith, div-add-mod' (cur - prev) unit))

kbps-IsRate :
    (interval prev cur : ℕ)
    → 1 ≤ interval
    → cur < 2 ^ 64
    → IsRate (interval * 1024) prev cur (kbps interval prev cur)
unfolding IsRate kbps wrap_signed word signed
kbps-IsRate interval prev cur h c = elim (dec_lt cur prev) [
  | yes back ↦ inl (back, ground arith)
  | no on ↦
      let growth = split_growth prev cur (interval * 1024) (omega arith) (omega arith) in
      let small = quotient_le (cur - prev) interval h in
      let same = div-div-eq-div-mul (cur - prev) interval 1024 in
      inr (
        (cur - prev) / (interval * 1024),
        (cur - prev) % (interval * 1024),
        rw (sym same) (ground arith),
        growth.0,
        growth.1,
      )
]

pub qps-IsRate :
    (interval prev cur : ℕ) (db : Fetched)
    → 1 ≤ interval
    → db.ok ≡ true
    → db.out.questions ≡ pos cur
    → IsRate interval prev cur (qps interval (pos prev) db)
unfolding IsRate qps tdiv ◌-ℤ◌
qps-IsRate interval prev cur db h ok q = elim (dec_lt cur prev) [
  | yes back ↦ inl (back, rw (ok, q) (ground arith))
  | no on ↦
      let growth = split_growth prev cur interval h (omega arith) in
      inr (
        (cur - prev) / interval,
        (cur - prev) % interval,
        rw (ok, q) (ground arith),
        growth.0,
        growth.1,
      )
]

-- What a round of an interval of at least a second, whose disks and whose server answer, takes from
-- the counters that the last round kept, what it keeps, and what it logs.
pub round-IsRate :
    (login : Login) (interval : ℕ) (s : Samples) (running : List Bool) (m : Monitor) (p q : ℕ)
    → 1 ≤ interval
    → (disk_stat_get s.drives).1.bytes_read < 2 ^ 64
    → (disk_stat_get s.drives).1.bytes_written < 2 ^ 64
    → (db_metric_get login s.client).ok ≡ true
    → (db_metric_get login s.client).out.questions ≡ pos q
    → m.prev_questions ≡ pos p
    → IsRate
        (interval * 1024)
        m.prev_disk.bytes_read
        (disk_stat_get s.drives).1.bytes_read
        (round login interval s running m).indicators.g_disk_read_kbps
      × IsRate
          (interval * 1024)
          m.prev_disk.bytes_written
          (disk_stat_get s.drives).1.bytes_written
          (round login interval s running m).indicators.g_disk_write_kbps
      × IsRate interval p q (round login interval s running m).indicators.g_db_queries_ps
      × ((round login interval s running m).prev_disk ≡ (disk_stat_get s.drives).1)
      × ((round login interval s running m).prev_questions ≡ pos q)
      × ((round login interval s running m).log
          ≡ (round login interval s running m).indicators ∷ m.log)
unfolding round measure
round-IsRate login interval s running m p q h r w ok asked before =
    let db = db_metric_get login s.client in
    (
      kbps-IsRate interval m.prev_disk.bytes_read (disk_stat_get s.drives).1.bytes_read h r,
      kbps-IsRate interval m.prev_disk.bytes_written (disk_stat_get s.drives).1.bytes_written h w,
      rw before (qps-IsRate interval p q db h ok asked),
      refl,
      rw (ok, asked) refl,
      refl,
    )

abbrev pub read_rate : Monitor → ℤ
read_rate m = m.indicators.g_disk_read_kbps

abbrev pub query_rate : Monitor → ℤ
query_rate m = m.indicators.g_db_queries_ps

failed_answer :
    (answer : Option (Query → Reply)) (t : Tally)
    → (converse answer t).ok ≡ false
    → (converse answer t).out.connections ≡ pos 0
unfolding converse
failed_answer none t h = refl
failed_answer (some reply) t h = absurd (ground arith)

failed_handle :
    (handle_ok : Bool) (answer : Option (Query → Reply))
    → (if handle_ok
        then converse answer (record nothing_yet { handles_opened = 1 })
        else record { ok = false; out = nothing; tally = nothing_yet }).ok
      ≡ false
    → (if handle_ok
        then converse answer (record nothing_yet { handles_opened = 1 })
        else record { ok = false; out = nothing; tally = nothing_yet }).out.connections
      ≡ pos 0
failed_handle true answer h = failed_answer answer (record nothing_yet { handles_opened = 1 }) h
failed_handle false answer h = refl

failed_connections :
    (login : Login) (client : Client)
    → (db_metric_get login client).ok ≡ false
    → (db_metric_get login client).out.connections ≡ pos 0
unfolding db_metric_get
failed_connections login client h =
    failed_handle client.handle_ok
      (client.connect (or_text login.g_mon_socket (codes "/tmp/mysql.sock"))
        (or_text login.g_mon_user (codes "root"))
        (or_text login.g_mon_password (codes "p@ssw0rd!@")))
      h

-- A round whose server cannot be asked reports no connection and no query, and keeps the last count
-- of questions for the next round.
pub round_without_server :
    (login : Login) (interval : ℕ) (s : Samples) (running : List Bool) (m : Monitor)
    → (db_metric_get login s.client).ok ≡ false
    → ((round login interval s running m).indicators.g_db_connections ≡ pos 0)
      × ((round login interval s running m).indicators.g_db_queries_ps ≡ pos 0)
      × ((round login interval s running m).prev_questions ≡ m.prev_questions)
unfolding round measure qps
round_without_server login interval s running m failed =
    (failed_connections login s.client failed, rw failed refl, rw failed refl)

-- If the disks cannot be listed in one round, that round reports 0 but forgets the counters, so that
-- the next round reports as its rate all the bytes ever read, divided by the interval, and not those
-- of the round.
pub disk_spike :
    (login : Login) (interval : ℕ) (s t : Samples) (running running' : List Bool) (m : Monitor)
    → 0 < m.prev_disk.bytes_read
    → s.drives ≡ none
    → (read_rate (round login interval s running m) ≡ pos 0)
      × (read_rate (round login interval t running' (round login interval s running m))
          ≡ wrap_signed (2 ^ 64) (pos ((disk_stat_get t.drives).1.bytes_read / interval / 1024)))
unfolding round measure kbps disk_stat_get
disk_spike login interval s t running running' m h failed =
    (rw failed (ground arith), rw failed (ground arith))

-- If the server cannot be asked before the first round, the first round that can ask it reports as
-- its rate all the questions since the server started, divided by the interval.
pub first_round_spike :
    (login : Login) (interval q : ℕ) (drives : Option (List Drive)) (client : Client)
    (indicators : Indicators) (s : Samples) (running : List Bool)
    → (db_metric_get login client).ok ≡ false
    → (db_metric_get login s.client).ok ≡ true
    → (db_metric_get login s.client).out.questions ≡ pos q
    → query_rate (round login interval s running (start login drives client indicators))
      ≡ pos (q / interval)
unfolding round measure start qps tdiv ◌-ℤ◌
first_round_spike login interval q drives client indicators s running failed ok asked =
    rw (failed, ok, asked) (ground arith)
