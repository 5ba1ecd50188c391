-- ===== src/Monitor/Plugin/Stop.antt =====
-- The thread is there as long as the plugin is loaded, and stops soon.
use devel_mysql_plugin.Common.{
  ℕ, zero, suc, ◌+◌, ◌≡◌, ◌≢◌, ◌∙◌, refl, ap, sym, subst, arith, Bool, true, false, ◌&&◌, ltb,
  if◌then◌else◌,
}
use devel_mysql_plugin.Monitor.Loop.{remain_of}
use devel_mysql_plugin.Monitor.Plugin.{
  Worker, absent, starting, testing, finished, napping, Phase, unloaded, loaded, joining, Daemon,
  plugin_init, plugin_deinit, joined, test_step, nap_step, work_at, work, Step, init_step,
  deinit_step, join_step, work_step, Reachable, at_start, by_step,
}

-- What goes together: no thread without the plugin, and a flag that is off when the server joins.
unfoldable pub Fits : Bool → Worker → Phase → Type 0
Fits running w unloaded = w ≡ absent
Fits running w loaded = w ≢ absent
Fits running w joining = (w ≢ absent) × (running ≡ false)

abbrev pub Inv : Daemon → Type 0
Inv t = Fits t.g_running t.worker t.phase

starting_there : starting ≢ absent
starting_there p = ground (arith, p)

testing_there : testing ≢ absent
testing_there p = ground (arith, p)

finished_there : finished ≢ absent
finished_there p = ground (arith, p)

napping_there : (i remain : ℕ) → napping i remain ≢ absent
napping_there i remain p = ground (arith, p)

moves :
    (running : Bool) (w w' : Worker) (p : Phase)
    → w ≢ absent
    → w' ≢ absent
    → Fits running w p
    → Fits running w' p
unfolding Fits
moves running w w' unloaded a a' v = absurd (a v)
moves running w w' loaded a a' v = a'
moves running w w' joining a a' v = (a', v.1)

-- A step from a place where there is a thread leads to another, and changes neither flag nor phase.
test-Inv :
    (c : Bool) (interval : ℕ) (t : Daemon)
    → Fits t.g_running testing t.phase
    → Inv (
        if c
        then record t { worker = napping 0 (remain_of interval); rounds = t.rounds + 1 }
        else record t { worker = finished })
test-Inv true interval t v =
    moves t.g_running testing (napping 0 (remain_of interval)) t.phase testing_there
      (napping_there 0 (remain_of interval)) v
test-Inv false interval t v =
    moves t.g_running testing finished t.phase testing_there finished_there v

nap-Inv :
    (c : Bool) (i remain : ℕ) (t : Daemon)
    → Fits t.g_running (napping i remain) t.phase
    → Inv (
        if c
        then record t { worker = napping (i + 1) remain; naps_slept = t.naps_slept + 1 }
        else record t { worker = testing })
nap-Inv true i remain t v =
    moves t.g_running (napping i remain) (napping (i + 1) remain) t.phase (napping_there i remain)
      (napping_there (i + 1) remain) v
nap-Inv false i remain t v =
    moves t.g_running (napping i remain) testing t.phase (napping_there i remain) testing_there v

work-Inv :
    (interval : ℕ) (t : Daemon) (w : Worker) → t.worker ≡ w → Inv t → Inv (work_at interval t w)
unfolding test_step nap_step
work-Inv interval t absent e v = v
work-Inv interval t finished e v = v
work-Inv interval t starting e v =
    moves t.g_running starting testing t.phase starting_there testing_there
      (subst (λ w. Fits t.g_running w t.phase) e v)
work-Inv interval t testing e v =
    test-Inv t.g_running interval t (subst (λ w. Fits t.g_running w t.phase) e v)
work-Inv interval t (napping i remain) e v =
    nap-Inv (ltb i remain && t.g_running) i remain t (subst (λ w. Fits t.g_running w t.phase) e v)

init-Inv : (rc : ℕ) (t : Daemon) → t.phase ≡ unloaded → Inv t → Inv (plugin_init rc t).1
unfolding Fits plugin_init
init-Inv zero t e v = starting_there
init-Inv (suc rc) t e v =
    subst (Fits false t.worker) (sym e) (subst (Fits t.g_running t.worker) e v)

Step-Inv : {t u : Daemon} → Step t u → Inv t → Inv u
unfolding Fits joined work plugin_deinit
Step-Inv (init_step t rc e) v = init-Inv rc t e v
Step-Inv (deinit_step t e) v = (subst (Fits t.g_running t.worker) e v, refl)
Step-Inv (join_step t e f) v = refl
Step-Inv (work_step t interval) v = work-Inv interval t t.worker refl v

Reachable-Inv : {t : Daemon} → Reachable t → Inv t
unfolding Fits
Reachable-Inv at_start = refl
Reachable-Inv (by_step t u r st) = Step-Inv st (Reachable-Inv r)

test_stops :
    (interval : ℕ) (t : Daemon)
    → t.worker ≡ testing
    → t.g_running ≡ false
    → work interval t ≡ record t { worker = finished }
unfolding work test_step
test_stops interval t e off = ap (work_at interval t) e ∙ rw off refl

nap_stops :
    (interval i remain : ℕ) (t : Daemon)
    → t.worker ≡ napping i remain
    → t.g_running ≡ false
    → work interval t ≡ record t { worker = testing }
unfolding work nap_step
nap_stops interval i remain t e off =
    let ends : (ltb i remain && t.g_running) ≡ false = ground (arith, off) in
    ap (work_at interval t) e ∙ rw ends refl

start_goes_on :
    (interval : ℕ) (t : Daemon)
    → t.worker ≡ starting
    → work interval t ≡ record t { worker = testing }
unfolding work
start_goes_on interval t e = ap (work_at interval t) e

stays : (interval : ℕ) (t : Daemon) → t.worker ≡ finished → work interval t ≡ t
unfolding work
stays interval t e = ap (work_at interval t) e

halts :
    (w : Worker) (interval interval' : ℕ) (t : Daemon)
    → t.worker ≡ w
    → t.g_running ≡ false
    → w ≢ absent
    → work interval' (work interval t) ≡ record t { worker = finished }
halts absent interval interval' t e off there = absurd (there refl)
halts starting interval interval' t e off there =
    ap (work interval') (start_goes_on interval t e)
    ∙ test_stops interval' (record t { worker = testing }) refl off
halts testing interval interval' t e off there =
    ap (work interval') (test_stops interval t e off)
    ∙ stays interval' (record t { worker = finished }) refl
halts (napping i remain) interval interval' t e off there =
    ap (work interval') (nap_stops interval i remain t e off)
    ∙ test_stops interval' (record t { worker = testing }) refl off
halts finished interval interval' t e off there =
    ap (work interval') (stays interval t e)
    ∙ stays interval' t e
    ∙ ap (λ w. record t { worker = w }) e

-- Once `plugin_deinit` waits, whatever calls and steps went before, there is a thread; it returns
-- after at most two more readings of `g_running`, and begins no more round and no more second of
-- waiting.
plugin_deinit_halts :
    (t : Daemon) (interval interval' : ℕ)
    → Reachable t
    → t.phase ≡ joining
    → (t.worker ≢ absent) × (work interval' (work interval t) ≡ record t { worker = finished })
unfolding Fits
plugin_deinit_halts t interval interval' r e =
    let v = subst (Fits t.g_running t.worker) e (Reachable-Inv r) in
    (v.0, halts t.worker interval interval' t refl v.1 v.0)
