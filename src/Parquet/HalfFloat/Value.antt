-- ===== src/Parquet/HalfFloat/Value.antt =====
-- The number that a pattern stands for, before and after the conversion.
use mathlib.Core.Path.{ap₂}
use native.Mathlib.Nat.{pow-suc}
use devel_mysql_plugin.Common.{
  ℕ, zero, suc, ◌+◌, ◌-◌, ◌*◌, ◌/◌, ◌%◌, ◌^◌, ◌≤◌, ◌<◌, ◌≡◌, ◌≢◌, ◌↔◌, ◌⊎◌, inl, inr, refl, arith,
  ◌==◌, if◌then◌else◌,
}
use devel_mysql_plugin.Parquet.HalfFloat.{half_to_float}
use devel_mysql_plugin.Parquet.HalfFloat.Tables.{
  half_sign, half_exp, half_mant, assembled, half_to_float-assembled,
}

-- The fields of a binary32.
abbrev pub float_sign : ℕ → ℕ
float_sign f = f / 2 ^ 31

abbrev pub float_exp : ℕ → ℕ
float_exp f = f / 2 ^ 23 % 2 ^ 8

abbrev pub float_mant : ℕ → ℕ
float_mant f = f % 2 ^ 23

-- The size of a finite number: of a binary16 in units of 2 ^ -24, of a binary32 in units of 2 ^ -149.
unfoldable pub half_size : ℕ → ℕ
half_size hf =
    if half_exp hf == 0 then half_mant hf else (1024 + half_mant hf) * 2 ^ (half_exp hf - 1)

unfoldable pub float_size : ℕ → ℕ
float_size f =
    if float_exp f == 0 then float_mant f else (8388608 + float_mant f) * 2 ^ (float_exp f - 1)

pow_shift : (e : ℕ) → 2 ^ (e + 112) ≡ 2 ^ e * 2 ^ 112
pow_shift zero = refl
pow_shift (suc e) =
    let step : suc e + 112 ≡ suc (e + 112) = omega arith in
    rw (step, pow-suc 2 (e + 112), pow-suc 2 e) (omega (arith, pow_shift e))

float_fields :
    (hf : ℕ)
    → hf < 2 ^ 16
    → (float_sign (assembled hf) ≡ half_sign hf)
      × (float_exp (assembled hf)
          ≡ (if half_exp hf == 0 then 0 else if half_exp hf == 31 then 255 else half_exp hf + 112))
      × (float_mant (assembled hf) ≡ half_mant hf * 8192)
float_fields hf h = ground arith

-- A normal number keeps its size.
normal_size :
    (m e : ℕ)
    → 1 ≤ e
    → (8388608 + m * 8192) * 2 ^ (e + 112 - 1) ≡ (1024 + m) * 2 ^ (e - 1) * 2 ^ 125
normal_size m e h =
    let split : e + 112 - 1 ≡ e - 1 + 112 = omega arith in
    rw (split, pow_shift (e - 1)) (omega arith)

-- The sign is kept, and infinities and NaNs stay so, with the same leading bits.
pub half_to_float_special :
    (hf : ℕ)
    → hf < 2 ^ 16
    → (float_sign (half_to_float hf) ≡ half_sign hf)
      × ((float_exp (half_to_float hf) ≡ 255) ↔ (half_exp hf ≡ 31))
      × (float_mant (half_to_float hf) ≡ half_mant hf * 2 ^ 13)
half_to_float_special hf h = rw (half_to_float-assembled hf h) (ground (arith, float_fields hf h))

size_of : ℕ → ℕ → ℕ
size_of exp mant = if exp == 0 then mant else (8388608 + mant) * 2 ^ (exp - 1)

float_size-assembled :
    (hf : ℕ)
    → hf < 2 ^ 16
    → half_exp hf ≢ 31
    → float_size (assembled hf)
      ≡ size_of (if half_exp hf == 0 then 0 else half_exp hf + 112) (half_mant hf * 8192)
unfolding float_size size_of
float_size-assembled hf h finite =
    let fields = float_fields hf h in
    let exp : float_exp (assembled hf) ≡ (if half_exp hf == 0 then 0 else half_exp hf + 112) =
      ground (arith, fields.1) in
    ap₂ size_of exp fields.2

sizes_iff :
    (e m : ℕ)
    → (size_of (if e == 0 then 0 else e + 112) (m * 8192)
        ≡ (if e == 0 then m else (1024 + m) * 2 ^ (e - 1)) * 2 ^ 125)
      ↔ ((e ≢ 0) ⊎ (m ≡ 0))
unfolding size_of
sizes_iff zero m = (λ p. inr (omega arith), λ p. ground arith)
sizes_iff (suc e) m =
    (λ p. inl (omega arith), λ p. ground (arith, normal_size m (suc e) (omega arith)))

-- A finite number keeps its size exactly when it is normal or zero. So every subnormal is stored as
-- another number.
pub half_to_float_exact_iff :
    (hf : ℕ)
    → hf < 2 ^ 16
    → half_exp hf ≢ 31
    → (float_size (half_to_float hf) ≡ half_size hf * 2 ^ 125)
      ↔ ((half_exp hf ≢ 0) ⊎ (half_mant hf ≡ 0))
unfolding half_size
half_to_float_exact_iff hf h finite =
    rw (half_to_float-assembled hf h, float_size-assembled hf h finite)
      (sizes_iff (half_exp hf) (half_mant hf))
