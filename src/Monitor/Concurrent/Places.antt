-- ===== src/Monitor/Concurrent/Places.antt =====
-- Where the thread can be while the server is in a phase.
use devel_mysql_plugin.Common.{
  ℕ, zero, suc, ◌+◌, ◌≡◌, ℤ, refl, sym, ap, subst, Bool, true, false, ◌&&◌, ltb, arith,
  if◌then◌else◌,
}
use devel_mysql_plugin.Monitor.Database.{Login}
use devel_mysql_plugin.Monitor.Loop.{Indicators, Samples}
use devel_mysql_plugin.Monitor.Variables.{IntVar}
use devel_mysql_plugin.Monitor.Concurrent.{
  Prev, Field, cpu_pct, mem_used, mem_total, disk_read, disk_write, connections, queries_ps, Place,
  absent, entering, opening, ending, finished, testing, sampling, resting, reading, writing, asking,
  publishing, logging, napping, Phase, unloaded, initialising, loaded, joining, System,
  plugin_init_create, plugin_init_return, plugin_deinit_ask, plugin_deinit_return, assigned,
  work_at, work, Step, create_step, return_step, ask_step, join_step, set_step, work_step,
  Reachable, at_start, by_step,
}

-- There is a thread.
unfoldable pub is_there : Place → Bool
is_there absent = false
is_there _ = true

-- There is a thread, and it is not past its loop.
unfoldable pub is_looping : Place → Bool
is_looping absent = false
is_looping ending = false
is_looping finished = false
is_looping _ = true

unfoldable pub Fits : Bool → Place → Phase → Type 0
Fits running l unloaded = l ≡ absent
Fits running l initialising = (is_looping l ≡ true) × (running ≡ true)
Fits running l loaded = (is_looping l ≡ true) × (running ≡ true)
Fits running l joining = (is_there l ≡ true) × (running ≡ false)

-- A step within the loop fits in any phase where the place before it does.
within :
    (running : Bool) (l l' : Place) (p : Phase)
    → is_there l ≡ true
    → is_looping l' ≡ true
    → is_there l' ≡ true
    → Fits running l p
    → Fits running l' p
unfolding Fits is_there
within running l l' unloaded there loops there' v =
    let gone : is_there l ≡ false = ap is_there v in absurd (ground (arith, gone, there))
within running l l' initialising there loops there' v = (loops, v.1)
within running l l' loaded there loops there' v = (loops, v.1)
within running l l' joining there loops there' v = (there', v.1)

-- The loop is left only when the flag is off.
leaves :
    (running : Bool) (l l' : Place) (p : Phase)
    → running ≡ false
    → is_there l ≡ true
    → is_there l' ≡ true
    → Fits running l p
    → Fits running l' p
unfolding Fits is_there
leaves running l l' unloaded off there there' v =
    let gone : is_there l ≡ false = ap is_there v in absurd (ground (arith, gone, there))
leaves running l l' initialising off there there' v = absurd (ground (arith, off, v.1))
leaves running l l' loaded off there there' v = absurd (ground (arith, off, v.1))
leaves running l l' joining off there there' v = (there', v.1)

ends : (running : Bool) (p : Phase) → Fits running ending p → Fits running finished p
unfolding Fits is_there is_looping
ends running unloaded v = ground (arith, v)
ends running initialising v = ground (arith, v)
ends running loaded v = ground (arith, v)
ends running joining v = (refl, v.1)

choice-Fits :
    (c : Bool) (t u : System)
    → (c ≡ true → Fits t.g_running t.place t.phase)
    → (c ≡ false → Fits u.g_running u.place u.phase)
    → let r = if c then t else u in Fits r.g_running r.place r.phase
choice-Fits true t u v w = v refl
choice-Fits false t u v w = w refl

abbrev pub Placed : System → Type 0
Placed t = Fits t.g_running t.place t.phase

assigned_loops :
    (f : Field) (now : Indicators) (p : Prev)
    → (is_looping (assigned f now p) ≡ true) × (is_there (assigned f now p) ≡ true)
unfolding assigned is_looping is_there
assigned_loops cpu_pct now p = (refl, refl)
assigned_loops mem_used now p = (refl, refl)
assigned_loops mem_total now p = (refl, refl)
assigned_loops disk_read now p = (refl, refl)
assigned_loops disk_write now p = (refl, refl)
assigned_loops connections now p = (refl, refl)
assigned_loops queries_ps now p = (refl, refl)

module _ (login : Login) where
  work-Placed :
      (s : Samples) (t : System) (l : Place)
      → t.place ≡ l
      → Fits t.g_running l t.phase
      → Placed (work_at login s t l)
  unfolding work_at is_looping is_there
  work-Placed s t absent e v = subst (λ x. Fits t.g_running x t.phase) (sym e) v
  work-Placed s t finished e v = subst (λ x. Fits t.g_running x t.phase) (sym e) v
  work-Placed s t entering e v = within _ entering _ t.phase refl refl refl v
  work-Placed s t opening e v = within _ opening _ t.phase refl refl refl v
  work-Placed s t ending e v = ends t.g_running t.phase v
  work-Placed s t (testing p) e v =
      choice-Fits t.g_running (record t { place = sampling p }) (record t { place = ending })
        (λ on. within _ (testing p) _ t.phase refl refl refl v)
        (λ off. leaves _ (testing p) _ t.phase off refl refl v)
  work-Placed s t (sampling p) e v = within _ (sampling p) _ t.phase refl refl refl v
  work-Placed s t (resting p) e v = within _ (resting p) _ t.phase refl refl refl v
  work-Placed _ t (reading s p) e v = within _ (reading s p) _ t.phase refl refl refl v
  work-Placed _ t (writing s p r) e v = within _ (writing s p r) _ t.phase refl refl refl v
  work-Placed _ t (asking s p r w) e v = within _ (asking s p r w) _ t.phase refl refl refl v
  work-Placed s t (publishing f now p) e v =
      let next = assigned_loops f now p in
      within _ (publishing f now p) _ t.phase refl next.0 next.1 v
  work-Placed s t (logging now p) e v = within _ (logging now p) _ t.phase refl refl refl v
  work-Placed s t (napping i remain p) e v =
      choice-Fits (ltb i remain && t.g_running)
        (record t { place = napping (i + 1) remain p; slept = t.slept + 1 })
        (record t { place = testing p })
        (λ on. within _ (napping i remain p) _ t.phase refl refl refl v)
        (λ off. within _ (napping i remain p) _ t.phase refl refl refl v)

create-Placed :
    (rc : ℕ) (t : System) → t.phase ≡ unloaded → Placed t → Placed (plugin_init_create rc t)
unfolding plugin_init_create Fits is_looping
create-Placed zero t e v = (refl, refl)
create-Placed (suc rc) t e v =
    subst (Fits false t.place) (sym e) (subst (Fits t.g_running t.place) e v)

looping_there : (l : Place) → is_looping l ≡ true → is_there l ≡ true
unfolding is_looping is_there
looping_there l h = ground arith

module _ {login : Login} {store : IntVar → ℤ → ℕ} where
  Step-Placed : {t u : System} → Step login store t u → Placed t → Placed u
  unfolding Fits plugin_init_return plugin_deinit_ask plugin_deinit_return work
  Step-Placed (create_step t rc e) v = create-Placed rc t e v
  Step-Placed (return_step t e) v = subst (Fits t.g_running t.place) e v
  Step-Placed (ask_step t e) v =
      let there = subst (Fits t.g_running t.place) e v in (looping_there t.place there.0, refl)
  Step-Placed (join_step t e f) v = refl
  Step-Placed (set_step t z) v = v
  Step-Placed (work_step t s) v = work-Placed login s t t.place refl v

  -- In every state that can be reached the thread is where the phase of the server allows.
  pub Reachable-Placed : {t : System} → Reachable login store t → Placed t
  unfolding Fits
  Reachable-Placed at_start = refl
  Reachable-Placed (by_step t u r st) = Step-Placed st (Reachable-Placed r)
