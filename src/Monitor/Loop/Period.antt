-- ===== src/Monitor/Loop/Period.antt =====
-- How long a round takes.
use devel_mysql_plugin.Common.{
  ℕ, zero, suc, ◌+◌, ◌≤◌, ◌<◌, ◌≡◌, refl, arith, ap, Bool, true, false, Option, none, some, List,
  [], ◌∷◌, max, ◌++◌,
}
use devel_mysql_plugin.Monitor.Cpu.{CpuLoad, cpu_ticks_get, cpu_usage_measure}
use devel_mysql_plugin.Monitor.Database.{Login}
use devel_mysql_plugin.Monitor.Loop.{Monitor, Samples, naps, remain_of, round}

-- `n` readings of true.
unfoldable pub running_for : ℕ → List Bool
running_for zero = []
running_for (suc n) = true ∷ running_for n

pub naps-running_for : (n : ℕ) → naps n (running_for n) ≡ n
unfolding naps running_for
naps-running_for zero = refl
naps-running_for (suc n) = ap suc (naps-running_for n)

naps_stop : (n k : ℕ) (rest : List Bool) → k < n → naps n (running_for k ++ false ∷ rest) ≡ k
unfolding naps running_for
naps_stop zero k rest h = absurd (omega arith)
naps_stop (suc n) zero rest h = refl
naps_stop (suc n) (suc k) rest h = ap suc (naps_stop n k rest (omega arith))

pub sampled :
    (loads : List CpuLoad) (later : Option (List CpuLoad))
    → (cpu_usage_measure (some loads) later).1 ≡ 1
unfolding cpu_usage_measure cpu_ticks_get
sampled loads none = refl
sampled loads (some later) = refl

-- A round whose processor times can be read, and that is not stopped, sleeps for `interval` seconds,
-- but for two seconds where the interval is one, although it divides by the interval.
round_period :
    (login : Login) (interval : ℕ) (s : Samples) (loads : List CpuLoad) (m : Monitor)
    → 1 ≤ interval
    → s.first_loads ≡ some loads
    → (round login interval s (running_for (remain_of interval)) m).slept ≡ m.slept + max 2 interval
unfolding round remain_of
round_period login interval s loads m h e =
    let waits = naps-running_for (remain_of interval) in
    rw (e, sampled loads s.later_loads, waits) (ground arith)

-- A stop that comes while the round waits ends the wait at the next reading of `g_running`.
round_stops :
    (login : Login) (interval k : ℕ) (s : Samples) (loads : List CpuLoad) (rest : List Bool)
    (m : Monitor)
    → s.first_loads ≡ some loads
    → k < remain_of interval
    → (round login interval s (running_for k ++ false ∷ rest) m).slept ≡ m.slept + 1 + k
unfolding round
round_stops login interval k s loads rest m e h =
    rw (e, sampled loads s.later_loads, naps_stop (remain_of interval) k rest h) refl
