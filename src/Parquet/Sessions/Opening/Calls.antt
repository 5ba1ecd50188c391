-- ===== src/Parquet/Sessions/Opening/Calls.antt =====
-- The moves outside `open`, as whole calls and events.
use devel_mysql_plugin.Common.{
  ℕ, zero, suc, ◌≡◌, ◌∙◌, ap, sym, refl, arith, Option, none, some, List, [], ◌∷◌, ◌++◌, get_elem?,
  get_elem?_past, length,
}
use devel_mysql_plugin.Parquet.HaError.{ha_err_out_of_mem}
use devel_mysql_plugin.Parquet.Row.{TableShare}
use devel_mysql_plugin.Parquet.Server.{Server}
use devel_mysql_plugin.Parquet.Registration.{parquet_init}
use devel_mysql_plugin.Parquet.Handler.{Handler, Outcome, rnd_next, rnd_pos}
use devel_mysql_plugin.Parquet.Handler.Calls.{
  World, Call, creates, drops, opens, closes, inits, nexts, ends, positions, poses, infos, locks,
  externals, extras, writes, updates, deletes, deletes_all, apply,
}
use devel_mysql_plugin.Parquet.Handler.Cursor.{Answer}
use devel_mysql_plugin.Parquet.Handler.View.{reply, on_row}
use devel_mysql_plugin.Parquet.Sessions.{
  Table, Event, installs, makes, calls, put, made, seen, happen,
}
use devel_mysql_plugin.Parquet.Sessions.Effects.{own_call}
use devel_mysql_plugin.Parquet.Sessions.Isolation.{own, said}
use devel_mysql_plugin.Parquet.Sessions.Locking.{outside}
use devel_mysql_plugin.Parquet.Sessions.Opening.{Site, table_of, settle, NoOpen}
use devel_mysql_plugin.Parquet.Sessions.Opening.Shown.{
  is_failed, shown, all_shown, all_shown-put, all_shown-append,
}
use devel_mysql_plugin.Parquet.Sessions.Opening.Histories.{pending, calls_told}
use devel_mysql_plugin.Parquet.Sessions.Opening.Serial.{
  Tells, Tells-same, Tells-call, Tells-quiet, Serial,
}
use devel_mysql_plugin.Parquet.Sessions.Opening.Shares.{Serialises, there}

-- What a call but `open` does has nothing to do with the share.
abbrev with_share : Option ℕ → Option (Answer × World) → Option (Answer × World)
with_share s none = none
with_share s (some (a, w)) = some (a, record w { ha_share = s })

on_row-with_share :
    (srv : Server) (w : World) (s : Option ℕ) (o : Option Outcome)
    → on_row srv (record w { ha_share = s }) o ≡ with_share s (on_row srv w o)
on_row-with_share srv w s none = refl
on_row-with_share srv w s (some o) = refl

reply-with_share :
    (srv : Server) (w : World) (s : Option ℕ) (call : Call)
    → NoOpen call
    → reply srv (record w { ha_share = s }) call ≡ with_share s (reply srv w call)
unfolding reply apply NoOpen
reply-with_share srv w s nexts plain = on_row-with_share srv w s (rnd_next srv w.handler)
reply-with_share srv w s (poses saved) plain =
    on_row-with_share srv w s (rnd_pos srv saved w.handler)
reply-with_share srv w s (opens name fresh) plain = absurd plain
reply-with_share srv w s (creates name comment) plain = refl
reply-with_share srv w s (drops name) plain = refl
reply-with_share srv w s closes plain = refl
reply-with_share srv w s inits plain = refl
reply-with_share srv w s ends plain = refl
reply-with_share srv w s positions plain = refl
reply-with_share srv w s (infos flag) plain = refl
reply-with_share srv w s (locks b lock_type) plain = refl
reply-with_share srv w s externals plain = refl
reply-with_share srv w s extras plain = refl
reply-with_share srv w s writes plain = refl
reply-with_share srv w s updates plain = refl
reply-with_share srv w s deletes plain = refl
reply-with_share srv w s deletes_all plain = refl

pub get_elem?-put-none :
    (hs : List Handler) (i j : ℕ) (g : Handler)
    → get_elem? (put i g hs) j ≡ none
    → get_elem? hs j ≡ none
get_elem?-put-none [] i j g e = refl
get_elem?-put-none (h ∷ hs) zero zero g e = ground (arith, e)
get_elem?-put-none (h ∷ hs) zero (suc j) g e = e
get_elem?-put-none (h ∷ hs) (suc i) zero g e = ground (arith, e)
get_elem?-put-none (h ∷ hs) (suc i) (suc j) g e = get_elem?-put-none hs i j g e

get_elem?-append-none :
    (hs gs : List Handler) (j : ℕ) → get_elem? (hs ++ gs) j ≡ none → get_elem? hs j ≡ none
get_elem?-append-none [] gs j e = refl
get_elem?-append-none (h ∷ hs) gs zero e = ground (arith, e)
get_elem?-append-none (h ∷ hs) gs (suc j) e = get_elem?-append-none hs gs j e

module _ (srv : Server) (hton_can_recreate : ℕ) (name : List ℕ) (bare : Table) (c : Site)
    (es : List Event) (t : Table) (v : Serial srv hton_can_recreate name bare c es t) where
  pub installs-Serialises :
      Serialises srv hton_can_recreate name bare
        (record c { hton = (parquet_init srv hton_can_recreate c.hton).1 })
  unfolding happen own said
  installs-Serialises = (
    es ++ installs ∷ [],
    record t { hton = (parquet_init srv hton_can_recreate t.hton).1 },
    record {
      hton = ap (λ p. (parquet_init srv hton_can_recreate p).1) v.hton;
      files = v.files;
      handlers = v.handlers;
      share = v.share;
      busy = v.busy;
      tells =
          Tells-quiet srv hton_can_recreate bare es t _ _ _ installs (λ j. refl) (λ j. refl) refl
            v.tells;
    },
  )

  made_busy :
      (create : Option (TableShare → Handler)) (j : ℕ)
      → get_elem? (made (table_of c) create srv.table_share).handlers j ≡ none
      → c.locking.place j ≡ outside
  made_busy none j e = v.busy j e
  made_busy (some create) j e = v.busy j (get_elem?-append-none c.handlers _ j e)

  made_shown :
      (new : Handler) → t.handlers ++ new ∷ [] ≡ all_shown c.locking.place (c.handlers ++ new ∷ [])
  unfolding shown is_failed
  made_shown new =
      let past = get_elem?_past c.handlers (length c.handlers) (omega arith) in
      let out = v.busy (length c.handlers) past in
      ap (λ hs. hs ++ new ∷ []) v.handlers
      ∙ sym (all_shown-append c.locking.place c.handlers new (ap (λ l. shown l new) out))

  made_Serial :
      (create : Option (TableShare → Handler)) (fs : List Event)
      → Tells srv hton_can_recreate bare fs
          (made t create srv.table_share)
          (λ j. pending (c.locking.place j) (opens name none) (c.asked j))
          (λ j. pending (c.locking.place j) (ha_err_out_of_mem, none) (c.answered j))
      → Serial srv hton_can_recreate name bare
          (record c { handlers = (made (table_of c) create srv.table_share).handlers })
          fs
          (made t create srv.table_share)
  made_Serial none fs tells = record {
    hton = v.hton;
    files = v.files;
    handlers = v.handlers;
    share = v.share;
    busy = v.busy;
    tells = tells;
  }
  made_Serial (some create) fs tells = record {
    hton = v.hton;
    files = v.files;
    handlers = made_shown (create srv.table_share);
    share = v.share;
    busy = made_busy (some create);
    tells = tells;
  }

  pub makes-Serialises :
      Serialises srv hton_can_recreate name bare
        (record c { handlers = (made (table_of c) c.hton.create srv.table_share).handlers })
  unfolding happen own said
  makes-Serialises =
      let same = ap (λ p. some (made t p.create srv.table_share)) v.hton in
      (
        es ++ makes ∷ [],
        made t c.hton.create srv.table_share,
        made_Serial c.hton.create (es ++ makes ∷ []) (
            Tells-quiet srv hton_can_recreate bare es t _ _ _ makes (λ j. refl) (λ j. refl) same
              v.tells),
      )

  pub calls-Serialises :
      (i : ℕ) (h : Handler) (call : Call) (a : Answer) (w : World)
      → get_elem? c.handlers i ≡ some h
      → c.locking.place i ≡ outside
      → NoOpen call
      → reply srv (seen (table_of c) h) call ≡ some (a, w)
      → Serialises srv hton_can_recreate name bare
          (record (settle c i call a) { handlers = put i w.handler c.handlers; files = w.files })
  unfolding shown is_failed
  calls-Serialises i h call a w here out plain r =
      let r' : reply srv (seen t h) call ≡ some (a, record w { ha_share = t.ha_share }) =
        ap (λ f. reply srv (record { handler = h; files = f; ha_share = t.ha_share }) call) v.files
        ∙ reply-with_share srv (seen (table_of c) h) t.ha_share call plain
        ∙ ap (with_share t.ha_share) r in
      let here' : get_elem? t.handlers i ≡ some h =
        there srv hton_can_recreate name bare c es t v i h here ∙ ap (λ l. some (shown l h)) out in
      let next = own_call srv hton_can_recreate t i h call a _ here' r' in
      (
        es ++ calls i call ∷ [],
        _,
        record {
          hton = v.hton;
          files = refl;
          handlers =
              ap (put i w.handler) v.handlers
              ∙ ap (λ l. put i (shown l w.handler) (all_shown c.locking.place c.handlers)) (sym out)
              ∙ sym (all_shown-put c.locking.place i w.handler c.handlers);
          share = v.share;
          busy = λ j e. v.busy j (get_elem?-put-none c.handlers i j w.handler e);
          tells =
              Tells-same srv hton_can_recreate bare _ _ _ _ _ _
                (calls_told c.asked i c.locking.place (opens name none) call out)
                (calls_told c.answered i c.locking.place (ha_err_out_of_mem, none) a out)
                (Tells-call srv hton_can_recreate bare es t _ _ _ i h call a _ here' r' next
                  v.tells);
        },
      )
