-- ===== src/Parquet/Sessions/Opening/Serial.antt =====
-- A run of whole calls that stands for what the sessions have done.
use devel_mysql_plugin.Common.{
  ℕ, ◌≡◌, ◌≢◌, ◌⊎◌, ◌∙◌, ap, sym, refl, arith, true, false, ◌==◌, Option, none, some, List, [], ◌∷◌,
  ◌++◌, get_elem?,
}
use devel_mysql_plugin.Parquet.HaError.{ha_err_out_of_mem}
use devel_mysql_plugin.Parquet.Server.{Server}
use devel_mysql_plugin.Parquet.Handler.{Handler}
use devel_mysql_plugin.Parquet.Handler.Calls.{World, Call, opens}
use devel_mysql_plugin.Parquet.Handler.Cursor.{Answer}
use devel_mysql_plugin.Parquet.Handler.View.{reply}
use devel_mysql_plugin.Parquet.Sessions.{Table, Event, calls, seen, happen, happen_all}
use devel_mysql_plugin.Parquet.Sessions.Isolation.{own, heard, said, said_at, first_of}
use devel_mysql_plugin.Parquet.Sessions.Locking.{Place, outside, moved}
use devel_mysql_plugin.Parquet.Sessions.Locking.Exclusion.{each}
use devel_mysql_plugin.Parquet.Sessions.Opening.{Site, told}
use devel_mysql_plugin.Parquet.Sessions.Opening.Shown.{is_failed, all_shown, all_shown-moved}
use devel_mysql_plugin.Parquet.Sessions.Opening.Histories.{
  pending, everywhere, told_own, told_other, told_same, own_next, own_quiet, extended,
  happen_all_next, heard_next, moves_told,
}

-- The share of the run may still be missing where one has been made.
abbrev pub Behind : Option ℕ → Option ℕ → Type 0
Behind before now = (before ≡ none) ⊎ (before ≡ now)

module _ (srv : Server) (hton_can_recreate : ℕ) where
  -- The run goes through, and in it each session asks and hears this.
  pub record Tells (bare : Table) (es : List Event) (t : Table) (asked : ℕ → List Call)
      (answered : ℕ → List Answer) : Type 0 where
    pub went : happen_all srv hton_can_recreate es bare ≡ some t
    pub asks : (j : ℕ) → own j es ≡ asked j
    pub hears : (j : ℕ) → heard srv hton_can_recreate j es bare ≡ some (answered j)

  pub Tells-same :
      (bare : Table) (es : List Event) (t : Table) (asked asked' : ℕ → List Call)
      (answered answered' : ℕ → List Answer)
      → ((j : ℕ) → asked j ≡ asked' j)
      → ((j : ℕ) → answered j ≡ answered' j)
      → Tells bare es t asked answered
      → Tells bare es t asked' answered'
  Tells-same bare es t asked asked' answered answered' a b v = record {
    went = v.went;
    asks = λ j. v.asks j ∙ a j;
    hears = λ j. v.hears j ∙ ap some (b j);
  }

  said_own :
      (t : Table) (i : ℕ) (h : Handler) (call : Call) (a : Answer) (w : World)
      → get_elem? t.handlers i ≡ some h
      → reply srv (seen t h) call ≡ some (a, w)
      → said srv hton_can_recreate i t (calls i call) ≡ some a
  unfolding said
  said_own t i h call a w here r =
      let own : (i == i) ≡ true = ground arith in
      rw own (ap (λ o. said_at srv hton_can_recreate t o call) here ∙ ap first_of r)

  said_other :
      (t : Table) (i j : ℕ) (call : Call)
      → j ≢ i
      → said srv hton_can_recreate j t (calls i call) ≡ none
  unfolding said
  said_other t i j call ne = let other : (j == i) ≡ false = ground (arith, ne) in rw other refl

  -- After one more call of a session.
  pub Tells-call :
      (bare : Table) (es : List Event) (t t' : Table) (asked : ℕ → List Call)
      (answered : ℕ → List Answer) (i : ℕ) (h : Handler) (call : Call) (a : Answer) (w : World)
      → get_elem? t.handlers i ≡ some h
      → reply srv (seen t h) call ≡ some (a, w)
      → happen srv hton_can_recreate t (calls i call) ≡ some t'
      → Tells bare es t asked answered
      → Tells bare (es ++ calls i call ∷ []) t' (told asked i call) (told answered i a)
  Tells-call bare es t t' asked answered i h call a w here r next v = record {
    went = happen_all_next srv hton_can_recreate es (calls i call) bare t t' v.went next;
    asks = λ j. own_next i j call es ∙ told_same (λ k. own k es) asked i call j (v.asks j);
    hears = λ j.
        heard_next srv hton_can_recreate j es (calls i call) bare t t' v.went next
        ∙ ap (λ r. extended r (said srv hton_can_recreate j t (calls i call))) (v.hears j)
        ∙ everywhere
            (λ k. extended (some (answered k)) (said srv hton_can_recreate k t (calls i call)))
            (λ k. some (told answered i a k)) i
            (ap (extended (some (answered i))) (said_own t i h call a w here r)
              ∙ ap some (sym (told_own answered i a)))
            (λ k ne.
              ap (extended (some (answered k))) (said_other t i k call ne)
              ∙ ap some (sym (told_other answered i a k ne)))
            j;
  }

  -- After an event that is no session's.
  pub Tells-quiet :
      (bare : Table) (es : List Event) (t t' : Table) (asked : ℕ → List Call)
      (answered : ℕ → List Answer) (e : Event)
      → ((j : ℕ) → own j (e ∷ []) ≡ [])
      → ((j : ℕ) → said srv hton_can_recreate j t e ≡ none)
      → happen srv hton_can_recreate t e ≡ some t'
      → Tells bare es t asked answered
      → Tells bare (es ++ e ∷ []) t' asked answered
  Tells-quiet bare es t t' asked answered e none_own none_said next v = record {
    went = happen_all_next srv hton_can_recreate es e bare t t' v.went next;
    asks = λ j. own_quiet j e es (none_own j) ∙ v.asks j;
    hears = λ j.
        heard_next srv hton_can_recreate j es e bare t t' v.went next ∙ cc (v.hears j, none_said j);
  }

module _ (srv : Server) (hton_can_recreate : ℕ) (name : List ℕ) where
  -- What is kept of a site: it is the table of the run, but for the share that the run has yet to
  -- make, and for the opens that have yet to end without a share. A
  -- session without a handler is not in `open`.
  pub record Serial (bare : Table) (c : Site) (es : List Event) (t : Table) : Type 0 where
    pub hton : t.hton ≡ c.hton
    pub files : t.files ≡ c.files
    pub handlers : t.handlers ≡ all_shown c.locking.place c.handlers
    pub share : Behind t.ha_share c.locking.ha_share
    pub busy : (j : ℕ) → get_elem? c.handlers j ≡ none → c.locking.place j ≡ outside
    pub tells :
        Tells srv hton_can_recreate bare es t
          (λ j. pending (c.locking.place j) (opens name none) (c.asked j))
          (λ j. pending (c.locking.place j) (ha_err_out_of_mem, none) (c.answered j))

  -- A step in `get_share` that settles nothing.
  pub moves-Serial :
      (bare : Table) (c : Site) (es : List Event) (t : Table) (i : ℕ) (p : Place)
      (owner ha_share : Option ℕ) (made : ℕ)
      → is_failed p ≡ is_failed (c.locking.place i)
      → Behind t.ha_share ha_share
      → (get_elem? c.handlers i ≡ none → p ≡ outside)
      → Serial bare c es t
      → Serial bare
          (record c {
            locking = record {
              owner = owner;
              ha_share = ha_share;
              made = made;
              place = moved c.locking.place i p;
            };
          })
          es
          t
  moves-Serial bare c es t i p owner ha_share made same behind kept v = record {
    hton = v.hton;
    files = v.files;
    handlers = v.handlers ∙ sym (all_shown-moved c.locking.place i p c.handlers same);
    share = behind;
    busy =
        each c.locking.place i p (λ j l. get_elem? c.handlers j ≡ none → l ≡ outside) kept
          (λ j ne. v.busy j);
    tells =
        Tells-same srv hton_can_recreate bare es t _ _ _ _
          (moves_told c.asked i c.locking.place (opens name none) p same)
          (moves_told c.answered i c.locking.place (ha_err_out_of_mem, none) p same) v.tells;
  }
