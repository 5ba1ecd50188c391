-- ===== src/Monitor/Database/Numerals.antt =====
-- The numbers that the server answers with, printed in decimal, and what `db_metric_get` reads.
use native.Mathlib.Nat.{div-add-mod', mod-lt}
use devel_mysql_plugin.Common.{
  ℕ, zero, suc, ◌+◌, ◌-◌, ◌*◌, ◌/◌, ◌%◌, ◌^◌, ◌≤◌, ◌<◌, ◌≡◌, ◌∙◌, ap, refl, sym, arith, pos, true,
  false, some, List, [], ◌∷◌, leb, ltb, ◌&&◌, if◌then◌else◌,
}
use mathlib.Core.Path.{ap₂}
use native.Mathlib.Decide.{dec_lt}
use devel_mysql_plugin.Libc.Strings.{codes}
use devel_mysql_plugin.Monitor.Database.{
  Login, Client, Reply, Query, value, threads_connected, questions_asked, or_text, digits_value,
  signed_value, atoll, query_ll, converse, db_metric_get,
}

-- The decimal digits of `n` in front of `rest`; the fuel `suc n` is enough.
unfoldable pub print : ℕ → ℕ → List ℕ → List ℕ
print zero n rest = rest
print (suc fuel) n rest =
    let more = print fuel (n / 10) ((48 + n % 10) ∷ rest) in
    if ltb n 10 then (48 + n) ∷ rest else more

abbrev numeral : ℕ → List ℕ
numeral n = print (suc n) n []

digit_step :
    (m n : ℕ) (rest : List ℕ)
    → n < 10
    → digits_value m ((48 + n) ∷ rest) ≡ digits_value (m * 10 + n) rest
unfolding digits_value
digit_step m n rest h =
    let inside : (leb 48 (48 + n) && leb (48 + n) 57) ≡ true = ground arith in
    let same : m * 10 + (48 + n - 48) ≡ m * 10 + n = omega arith in
    rw inside (ap (λ k. digits_value k rest) same)

-- The printed number is read back.
print-digits_value :
    (fuel n : ℕ) (rest : List ℕ)
    → n < fuel
    → digits_value 0 (print fuel n rest) ≡ digits_value n rest
unfolding print
print-digits_value zero n rest h = absurd (omega arith)
print-digits_value (suc fuel) n rest h = elim (dec_lt n 10) [
  | yes lt ↦
      let small : ltb n 10 ≡ true = ground arith in
      let same : 0 * 10 + n ≡ n = omega arith in
      rw small (digit_step 0 n rest lt ∙ ap (λ k. digits_value k rest) same)
  | no ge ↦
      let big : ltb n 10 ≡ false = ground arith in
      let same : n / 10 * 10 + n % 10 ≡ n = div-add-mod' n 10 in
      rw big (
        print-digits_value fuel (n / 10) ((48 + n % 10) ∷ rest) (omega (arith, same))
        ∙ digit_step (n / 10) (n % 10) rest (mod-lt n (omega arith))
        ∙ ap (λ k. digits_value k rest) same)
]

print_head :
    (fuel n : ℕ) (rest : List ℕ)
    → n < fuel
    → (c : ℕ) × (s : List ℕ) × (print fuel n rest ≡ c ∷ s) × (48 ≤ c) × (c ≤ 57)
unfolding print
print_head zero n rest h = absurd (omega arith)
print_head (suc fuel) n rest h = elim (dec_lt n 10) [
  | yes lt ↦
      let small : ltb n 10 ≡ true = ground arith in
      (48 + n, rest, rw small refl, omega arith, omega arith)
  | no ge ↦
      let big : ltb n 10 ≡ false = ground arith in
      let less : n / 10 < fuel = omega (arith, div-add-mod' n 10) in
      let (c, s, e, lo, hi) = print_head fuel (n / 10) ((48 + n % 10) ∷ rest) less in
      (c, s, rw big e, lo, hi)
]

-- A digit starts neither a blank nor a sign.
atoll-digit : (c : ℕ) (s : List ℕ) → 48 ≤ c → c ≤ 57 → atoll (c ∷ s) ≡ pos (digits_value 0 (c ∷ s))
unfolding atoll signed_value
atoll-digit c s lo hi = ground arith

atoll-numeral : (n : ℕ) → atoll (numeral n) ≡ pos n
unfolding digits_value
atoll-numeral n =
    let (c, s, e, lo, hi) = print_head (suc n) n [] (omega arith) in
    ap atoll e
    ∙ atoll-digit c s lo hi
    ∙ ap (λ t. pos (digits_value 0 t)) (sym e)
    ∙ ap pos (print-digits_value (suc n) n [] (omega arith))

-- A server that can be reached and that answers with the decimal numerals of two numbers: those two
-- numbers are the metric, and the call succeeds.
db_metric_get-numerals :
    (login : Login) (client : Client) (reply : Query → Reply) (c q : ℕ)
    → client.handle_ok ≡ true
    → client.connect
        (or_text login.g_mon_socket (codes "/tmp/mysql.sock"))
        (or_text login.g_mon_user (codes "root"))
        (or_text login.g_mon_password (codes "p@ssw0rd!@"))
      ≡ some reply
    → reply threads_connected ≡ value (numeral c)
    → reply questions_asked ≡ value (numeral q)
    → c < 2 ^ 63
    → q < 2 ^ 63
    → ((db_metric_get login client).ok ≡ true)
      × ((db_metric_get login client).out ≡ record { connections = pos c; questions = pos q })
unfolding db_metric_get converse query_ll
db_metric_get-numerals login client reply c q handle connected threads asked small small' = (
  rw (handle, connected) refl,
  rw (handle, connected, threads, asked)
      (ap₂ (λ x y. record { connections = x; questions = y }) (atoll-numeral c) (atoll-numeral q)),
)
