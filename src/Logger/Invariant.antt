-- ===== src/Logger/Invariant.antt =====
-- The thread is there exactly as long as the plugin is loaded.
use devel_mysql_plugin.Common.{
  ℕ, ◌+◌, ◌≡◌, ◌≢◌, refl, arith, Bool, true, false, Option, ◌&&◌, not, subst, sym, if◌then◌else◌,
  ltb,
}
use devel_mysql_plugin.Logger.Ram.{SysInfo, sample}
use devel_mysql_plugin.Logger.System.{
  Worker, absent, testing, finished, waiting, Plugin, unloaded, loaded, joining, System,
  os_logger_init, os_logger_deinit, joined, print, test_step, wait_step, work, work_at, Step,
  init_step, deinit_step, join_step, work_step, Reachable, at_start, by_step,
}

-- Either the plugin is not loaded, and there is no thread; or it is loaded, has one thread, and has
-- not asked it to stop; or it is joining that thread and has asked it to stop.
unfoldable pub Fits : Bool → Bool → Worker → Plugin → Type 0
Fits stop running w unloaded = (running ≡ false) × (w ≡ absent)
Fits stop running w loaded = (running ≡ true) × (w ≢ absent) × (w ≢ finished) × (stop ≡ false)
Fits stop running w joining = (running ≡ true) × (w ≢ absent) × (stop ≡ true)

abbrev pub Inv : System → Type 0
Inv s = Fits s.stop_logger s.thread_running s.worker s.plugin

-- A thread that is not there or has returned is not where these are.
IsActive : Worker → Type 0
IsActive w = (w ≢ absent) × (w ≢ finished)

testing-IsActive : IsActive testing
unfolding IsActive
testing-IsActive = (λ p. ground (arith, p), λ p. ground (arith, p))

waiting-IsActive : (i : ℕ) → IsActive (waiting i)
unfolding IsActive
waiting-IsActive i = (λ p. ground (arith, p), λ p. ground (arith, p))

-- A thread that goes on keeps the invariant.
goes_on :
    (stop running : Bool) (w w' : Worker) (p : Plugin)
    → IsActive w
    → IsActive w'
    → Fits stop running w p
    → Fits stop running w' p
unfolding Fits IsActive
goes_on stop running w w' unloaded a a' v = absurd (a.0 v.1)
goes_on stop running w w' loaded a a' v = (v.0, a'.0, a'.1, v.3)
goes_on stop running w w' joining a a' v = (v.0, a'.0, v.2)

returns :
    (running : Bool) (w : Worker) (p : Plugin)
    → IsActive w
    → Fits true running w p
    → Fits true running finished p
unfolding Fits IsActive
returns running w unloaded a v = absurd (a.0 v.1)
returns running w loaded a v = absurd (ground (arith, v.3))
returns running w joining a v = (v.0, (λ p. ground (arith, p)), v.2)

wait-Inv :
    (c : Bool) (i : ℕ) (s : System)
    → Fits s.stop_logger s.thread_running (waiting i) s.plugin
    → Inv (
        if c
        then record s { worker = waiting (i + 1); slept = s.slept + 1 }
        else record s { worker = testing })
wait-Inv true i s v =
    goes_on s.stop_logger s.thread_running (waiting i) (waiting (i + 1)) s.plugin
      (waiting-IsActive i) (waiting-IsActive (i + 1)) v
wait-Inv false i s v =
    goes_on s.stop_logger s.thread_running (waiting i) testing s.plugin (waiting-IsActive i)
      testing-IsActive v

test-Inv :
    (stop : Bool) (info : Option SysInfo) (s : System)
    → s.stop_logger ≡ stop
    → Fits s.stop_logger s.thread_running testing s.plugin
    → Inv (
        if stop
        then record s { worker = finished }
        else record s { worker = waiting 0; log = print (sample info) s.log })
test-Inv true info s e v =
    subst (λ b. Fits b s.thread_running finished s.plugin) (sym e)
      (returns s.thread_running testing s.plugin testing-IsActive
        (subst (λ b. Fits b s.thread_running testing s.plugin) e v))
test-Inv false info s e v =
    goes_on s.stop_logger s.thread_running testing (waiting 0) s.plugin testing-IsActive
      (waiting-IsActive 0) v

work-Inv :
    (info : Option SysInfo) (s : System) (w : Worker)
    → s.worker ≡ w
    → Inv s
    → Inv (work_at info s w)
unfolding test_step wait_step
work-Inv info s absent e v = v
work-Inv info s finished e v = v
work-Inv info s testing e v =
    test-Inv s.stop_logger info s refl
      (subst (λ w. Fits s.stop_logger s.thread_running w s.plugin) e v)
work-Inv info s (waiting i) e v =
    wait-Inv (ltb i 5 && not s.stop_logger) i s
      (subst (λ w. Fits s.stop_logger s.thread_running w s.plugin) e v)

init-Inv :
    (created : Bool) (s : System) → s.plugin ≡ unloaded → Inv s → Inv (os_logger_init created s).1
unfolding Fits os_logger_init IsActive
init-Inv true s e v = (refl, testing-IsActive.0, testing-IsActive.1, refl)
init-Inv false s e v =
    let now = subst (Fits s.stop_logger s.thread_running s.worker) e v in
    subst (Fits false false s.worker) (sym e) (refl, now.1)

deinit-Inv : (s : System) → s.plugin ≡ loaded → Inv s → Inv (os_logger_deinit s)
unfolding Fits os_logger_deinit
deinit-Inv s e v =
    let now = subst (Fits s.stop_logger s.thread_running s.worker) e v in
    rw now.0 (refl, now.1, refl)

Step-Inv : {s t : System} → Step s t → Inv s → Inv t
unfolding Fits joined work
Step-Inv (init_step s created e) v = init-Inv created s e v
Step-Inv (deinit_step s e) v = deinit-Inv s e v
Step-Inv (join_step s e f) v = (refl, refl)
Step-Inv (work_step s info) v = work-Inv info s s.worker refl v

Reachable-Inv : {s : System} → Reachable s → Inv s
unfolding Fits
Reachable-Inv at_start = (refl, refl)
Reachable-Inv (by_step s t r st) = Step-Inv st (Reachable-Inv r)

-- However the calls of the server and the steps of the thread interleave: while the plugin is not
-- loaded there is no thread; while it is loaded there is one, which has not returned and has not been
-- asked to stop; and while it is being joined there is one, which has been asked to stop.
pub Reachable-Fits :
    (s : System) → Reachable s → Fits s.stop_logger s.thread_running s.worker s.plugin
Reachable-Fits s r = Reachable-Inv r
