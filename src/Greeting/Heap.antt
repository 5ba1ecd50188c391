-- ===== src/Greeting/Heap.antt =====
-- The block on the heap, over the whole life of a greeting.
use devel_mysql_plugin.Common.{
  ℕ, ◌+◌, ◌≤◌, ◌≡◌, refl, arith, Bool, true, false, Option, none, some, List, [], ◌∷◌,
}
use devel_mysql_plugin.Greeting.Mac.{
  ItemResult, string_result, other_result, Greeter, freed, allocate, helloworld_init, helloworld,
  helloworld_deinit,
}

-- The calls for the rows, each with whether `malloc` succeeds and with its argument.
unfoldable pub rows : List (Bool × Option (List ℕ)) → Greeter → Greeter
rows [] g = g
rows (c ∷ cs) g = rows cs (helloworld c.0 c.1 g).1

-- Of the blocks that are allocated, `n` are others'.
unfoldable pub Holds : ℕ → Option (List ℕ) → ℕ → Type 0
Holds n none live = live ≡ n
Holds n (some block) live = live ≡ n + 1

freed-Holds :
    (n : ℕ) (g : Greeter) (ptr : Option (List ℕ)) → Holds n ptr g.live → (freed g ptr).live ≡ n
unfolding Holds
freed-Holds n g none h = h
freed-Holds n g (some block) h = omega (arith, h)

allocate-Holds :
    (malloc_ok : Bool) (name : List ℕ) (n : ℕ) (g : Greeter)
    → g.live ≡ n
    → Holds n (allocate malloc_ok name g).1.ptr (allocate malloc_ok name g).1.live
unfolding Holds allocate
allocate-Holds true name n g h = omega (arith, h)
allocate-Holds false name n g h = h

helloworld-Holds :
    (malloc_ok : Bool) (arg : Option (List ℕ)) (n : ℕ) (g : Greeter)
    → Holds n g.ptr g.live
    → Holds n (helloworld malloc_ok arg g).1.ptr (helloworld malloc_ok arg g).1.live
unfolding helloworld
helloworld-Holds malloc_ok none n g h = h
helloworld-Holds malloc_ok (some name) n g h =
    allocate-Holds malloc_ok name n (freed g g.ptr) (freed-Holds n g g.ptr h)

rows-Holds :
    (cs : List (Bool × Option (List ℕ))) (n : ℕ) (g : Greeter)
    → Holds n g.ptr g.live
    → Holds n (rows cs g).ptr (rows cs g).live
unfolding rows
rows-Holds [] n g h = h
rows-Holds (c ∷ cs) n g h =
    rows-Holds cs n (helloworld c.0 c.1 g).1 (helloworld-Holds c.0 c.1 n g h)

started :
    (types : List ItemResult) (g : Greeter)
    → (helloworld_init types g).0 ≡ false
    → Holds g.live (helloworld_init types g).1.ptr (helloworld_init types g).1.live
unfolding helloworld_init Holds
started [] g ok = absurd (ground arith)
started (string_result ∷ []) g ok = refl
started (other_result ∷ []) g ok = absurd (ground arith)
started (t ∷ t' ∷ types) g ok = absurd (ground arith)

bounded : (ptr : Option (List ℕ)) (n live : ℕ) → Holds n ptr live → live ≤ n + 1
unfolding Holds
bounded none n live h = omega (arith, h)
bounded (some block) n live h = omega (arith, h)

-- Once `helloworld_init` has succeeded, after any rows, whether `malloc` succeeds in each or not, at
-- most one block more is allocated than before, and none after `helloworld_deinit`, which leaves a null
-- pointer.
pub rows-live :
    (types : List ItemResult) (cs : List (Bool × Option (List ℕ))) (g : Greeter)
    → (helloworld_init types g).0 ≡ false
    → ((rows cs (helloworld_init types g).1).live ≤ g.live + 1)
      × ((helloworld_deinit (rows cs (helloworld_init types g).1)).live ≡ g.live)
      × ((helloworld_deinit (rows cs (helloworld_init types g).1)).ptr ≡ none)
unfolding helloworld_deinit
rows-live types cs g ok =
    let last = rows cs (helloworld_init types g).1 in
    let h = rows-Holds cs g.live (helloworld_init types g).1 (started types g ok) in
    (bounded last.ptr g.live last.live h, freed-Holds g.live last last.ptr h, refl)
