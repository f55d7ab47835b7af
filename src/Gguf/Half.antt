-- ===== src/Gguf/Half.antt =====
-- gguf.c and igpu.c, `fp16_to_fp32`: a half-precision number widened to the bits of a single.
-- `float` is known by its bits: sign, 8 bits of exponent, 23 of mantissa.
pub mod Exact
use fae.Prelude.{
  ℕ, zero, suc, ◌+◌, ◌-◌, ◌*◌, ◌/◌, ◌%◌, ◌^◌, Bool, true, false, ◌==◌, if◌then◌else◌, u32,
}

-- `((exp - 15 + 127) & 0xFF) << 23`: in 32 bits, where the subtraction may wrap.
abbrev pub exponent_bits : ℕ → ℕ
exponent_bits exp = u32 (exp + (2 ^ 32 - 15) + 127) % 256 * 2 ^ 23

-- The loop that shifts a subnormal's mantissa up to bit 10: it runs ten times at most for a
-- mantissa that is not 0. The exponent wraps below 0.
pub normalise : ℕ → ℕ → ℕ → ℕ × ℕ
normalise zero mant exp = (mant, exp)
normalise (suc fuel) mant exp =
    let next = normalise fuel (u32 (mant * 2)) (u32 (exp + (2 ^ 32 - 1))) in
    if mant / 1024 % 2 == 0 then next else (mant, exp)

-- The widened bits without the sign, of a mantissa and an exponent. The fields do not overlap, so
-- that `|` is a sum; `mant &= ~0x0400` leaves the ten bits below, the mantissa being below 2 ^ 11.
pub magnitude_bits : ℕ → ℕ → ℕ
unfolding normalise
magnitude_bits exp mant =
    if exp == 0
    then if mant == 0
      then 0
      else (let (mant', exp') = normalise 11 mant 0 in
          exponent_bits (u32 (exp' + 1)) + mant' % 1024 * 2 ^ 13)
    else if exp == 31
    then 0x7F800000 + mant * 2 ^ 13
    else exponent_bits exp + mant * 2 ^ 13

-- `fp16_to_fp32`
pub fp16_to_fp32 : ℕ → ℕ
unfolding magnitude_bits
fp16_to_fp32 h = h / 2 ^ 15 % 2 * 2 ^ 31 + magnitude_bits (h / 2 ^ 10 % 2 ^ 5) (h % 2 ^ 10)
