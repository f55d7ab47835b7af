-- ===== src/Gguf/Half/Exact.antt =====
-- Widening is exact: both numbers as integers on one scale.
use mathlib.Core.Bool.{◌&&◌}
use fae.Prelude.{
  ℕ, zero, suc, ◌+◌, ◌-◌, ◌*◌, ◌/◌, ◌%◌, ◌^◌, ◌<◌, ◌≡◌, refl, arith, true, false, ◌==◌,
  if◌then◌else◌, all_below, all_below_sound,
}
use fae.Gguf.Half.{exponent_bits, magnitude_bits, fp16_to_fp32}

-- The magnitude of a finite half, in units of 2 ^ -24, and of a finite single, in units of
-- 2 ^ -149, from the fields.
abbrev pub half_units : ℕ → ℕ → ℕ
half_units exp mant = if exp == 0 then mant else (1024 + mant) * 2 ^ (exp - 1)

abbrev pub single_units : ℕ → ℕ → ℕ
single_units exp mant = if exp == 0 then mant else (2 ^ 23 + mant) * 2 ^ (exp - 1)

subnormal_table :
    all_below 1024 (λ m.
      single_units (magnitude_bits 0 m / 2 ^ 23) (magnitude_bits 0 m % 2 ^ 23)
        == half_units 0 m * 2 ^ 125
      && magnitude_bits 0 m / 2 ^ 31 == 0)
    ≡ true
unfolding all_below magnitude_bits
subnormal_table = refl

exponent_table :
    all_below 30
      (λ k. exponent_bits (k + 1) == (k + 113) * 2 ^ 23 && 2 ^ (k + 112) == 2 ^ k * 2 ^ 112)
    ≡ true
unfolding all_below
exponent_table = refl

-- The result's magnitude is below the sign bit and stands for the same number.
Widens : ℕ → ℕ → ℕ → Type 0
Widens exp mant bits =
    (bits < 2 ^ 31) × (single_units (bits / 2 ^ 23) (bits % 2 ^ 23) ≡ half_units exp mant * 2 ^ 125)

subnormal-Widens : (mant : ℕ) → mant < 1024 → Widens 0 mant (magnitude_bits 0 mant)
unfolding Widens
subnormal-Widens mant b =
    let table = all_below_sound 1024 _ mant subnormal_table b in
    let high : magnitude_bits 0 mant / 2 ^ 31 ≡ 0 = ground (arith, table) in
    (omega (arith, high), ground (arith, table))

normal_fields :
    (k mant : ℕ)
    → mant < 1024
    → (((k + 113) * 2 ^ 23 + mant * 2 ^ 13) / 2 ^ 23 ≡ k + 113)
      × (((k + 113) * 2 ^ 23 + mant * 2 ^ 13) % 2 ^ 23 ≡ mant * 2 ^ 13)
normal_fields k mant c = (omega arith, omega arith)

scale : (a b c : ℕ) → a ≡ b * 2 ^ 112 → (2 ^ 23 + c * 2 ^ 13) * a ≡ (1024 + c) * b * 2 ^ 125
scale a b c e = rw e (grind arith)

normal-Widens :
    (k mant : ℕ) → k < 30 → mant < 1024 → Widens (k + 1) mant ((k + 113) * 2 ^ 23 + mant * 2 ^ 13)
unfolding Widens
normal-Widens k mant b c =
    let table = all_below_sound 30 _ k exponent_table b in
    let p : 2 ^ (k + 112) ≡ 2 ^ k * 2 ^ 112 = ground (arith, table) in
    let (q, r) = normal_fields k mant c in
    let t : (k + 113 == 0) ≡ false = ground arith in
    let u : (k + 1 == 0) ≡ false = ground arith in
    let m : k + 113 - 1 ≡ k + 112 = omega arith in
    let n : k + 1 - 1 ≡ k = omega arith in
    (omega (arith, b, c), rw (q, r, t, u, m, n) (scale (2 ^ (k + 112)) (2 ^ k) mant p))

magnitude_bits-Widens :
    (exp mant : ℕ) → exp < 31 → mant < 1024 → Widens exp mant (magnitude_bits exp mant)
unfolding magnitude_bits
magnitude_bits-Widens zero mant b c = subnormal-Widens mant c
magnitude_bits-Widens (suc k) mant b c =
    let table = all_below_sound 30 _ k exponent_table (omega (arith, b)) in
    let e : exponent_bits (k + 1) ≡ (k + 113) * 2 ^ 23 = ground (arith, table) in
    let same : suc k ≡ k + 1 = omega arith in
    let t : (k + 1 == 0) ≡ false = ground arith in
    let u : (k + 1 == 31) ≡ false = ground arith in
    rw (same, t, u, e) (normal-Widens k mant (omega (arith, b)) c)

sign_apart :
    (s bits : ℕ)
    → s < 2
    → bits < 2 ^ 31
    → ((s * 2 ^ 31 + bits) / 2 ^ 31 ≡ s)
      × ((s * 2 ^ 31 + bits) / 2 ^ 23 % 2 ^ 8 ≡ bits / 2 ^ 23)
      × ((s * 2 ^ 31 + bits) % 2 ^ 23 ≡ bits % 2 ^ 23)
sign_apart s bits b c = (omega arith, omega arith, omega arith)

-- For a half of 16 bits that is finite, so that its exponent is not all ones: the result's sign is
-- the half's, and its exponent and fraction stand for the same number.
pub fp16_to_fp32-exact :
    (h : ℕ)
    → h < 2 ^ 16
    → h / 2 ^ 10 % 2 ^ 5 < 31
    → (fp16_to_fp32 h / 2 ^ 31 ≡ h / 2 ^ 15)
      × (single_units (fp16_to_fp32 h / 2 ^ 23 % 2 ^ 8) (fp16_to_fp32 h % 2 ^ 23)
          ≡ half_units (h / 2 ^ 10 % 2 ^ 5) (h % 2 ^ 10) * 2 ^ 125)
unfolding fp16_to_fp32 Widens
fp16_to_fp32-exact h b c =
    let (low, same) = magnitude_bits-Widens (h / 2 ^ 10 % 2 ^ 5) (h % 2 ^ 10) c (omega arith) in
    let (s, q, r) = sign_apart (h / 2 ^ 15) _ (omega (arith, b)) low in
    let sign : h / 2 ^ 15 % 2 ≡ h / 2 ^ 15 = omega (arith, b) in rw (sign, s, q, r) (refl, same)
