-- ===== src/Gguf/Context/Fits.antt =====
-- The context that is left keeps the caches within 2 GB, and is not smaller than it has to be.
use native.Mathlib.Nat.{div-add-mod, mod-lt, mul-le-mul_right}
use fae.Prelude.{
  ℕ, zero, suc, ◌+◌, ◌*◌, ◌/◌, ◌%◌, ◌^◌, ◌<◌, ◌≤◌, ◌≡◌, ◌⊎◌, inl, inr, refl, ap, arith, Bool-cases,
  false, Option, none, some, ltb, leb, ◌==◌, if◌then◌else◌, u32, u64, max,
}
use fae.Gguf.Context.{double_up, limit_context, max_kv_cache}

-- The loop ends with the last doubling that is not above the bound.
double_up_lem :
    (fuel pow2 n : ℕ)
    → 0 < pow2
    → n < fuel + pow2
    → (n < 2 * double_up fuel pow2 n)
      × (double_up fuel pow2 n ≤ max pow2 n)
      × (0 < double_up fuel pow2 n)
unfolding double_up
double_up_lem zero pow2 n some_ f = (omega arith, omega arith, some_)
double_up_lem (suc fuel) pow2 n some_ f = elim (Bool-cases (leb (pow2 * 2) n)) [
  | inl e ↦
      let below : pow2 * 2 ≤ n = ground (arith, e) in
      let (a, b, c) =
        double_up_lem fuel (pow2 * 2) n (omega (arith, some_)) (omega (arith, f, some_)) in
      rw e (a, omega (arith, b, below), c)
  | inr e ↦
      let above : n < pow2 * 2 = ground (arith, e) in
      rw e (omega (arith, above), omega arith, some_)
]

-- The power of two below the quotient, or 256.
rounded_lem :
    (unit : ℕ)
    → 0 < unit
    → (context : ℕ) × ((let pow2 = double_up (max_kv_cache / unit) 1 (max_kv_cache / unit) in
          if ltb pow2 256 then 256 else pow2)
        ≡ context)
      × ((context * unit ≤ 2 ^ 31) ⊎ ((context ≡ 256) × (2 ^ 31 < 256 * unit)))
      × (2 ^ 31 < 2 * context * unit)
rounded_lem unit positive =
    let n : ℕ = max_kv_cache / unit in
    let pow2 : ℕ = double_up n 1 n in
    let (above, below, some_) = double_up_lem n 1 n (omega arith) (omega arith) in
    let split : unit * n + max_kv_cache % unit ≡ max_kv_cache = div-add-mod max_kv_cache unit in
    let rest : max_kv_cache % unit < unit = mod-lt max_kv_cache positive in
    elim (Bool-cases (ltb pow2 256)) [
      | inl e ↦
          let small : pow2 < 256 = ground (arith, e) in
          let next : suc n * unit ≤ 512 * unit =
            mul-le-mul_right unit (omega (arith, above, small)) in
          rw e (
            256,
            refl,
            elim (Bool-cases (leb (256 * unit) (2 ^ 31))) [
              | inl fits ↦ inl (ground (arith, fits))
              | inr over ↦ inr (refl, ground (arith, over))
            ],
            omega (arith, split, rest, next),
          )
      | inr e ↦
          let large : 256 ≤ pow2 = ground (arith, e) in
          let within : pow2 * unit ≤ n * unit =
            mul-le-mul_right unit (omega (arith, below, large)) in
          let next : suc n * unit ≤ 2 * pow2 * unit =
            mul-le-mul_right unit (omega (arith, above)) in
          rw e (pow2, refl, inl (omega (arith, split, within)), omega (arith, split, rest, next))
    ]

unit_positive : (b c k : ℕ) → 2 ^ 31 < b * c * k * 4 * 2 → 0 < b * k * 8
unit_positive zero c k h = absurd (omega (arith, h))
unit_positive (suc b) c zero h = absurd (omega (arith, h))
unit_positive (suc b) c (suc k) h = omega arith

-- With products that do not wrap, a context length always results. The caches fit into 2 GB with it,
-- unless it is the minimum of 256 and they do not fit; and it is the file's, or twice as much would not
-- fit.
pub limit_context-Fits :
    (block_count context_length kv_hidden_dim : ℕ)
    → block_count * kv_hidden_dim < 2 ^ 32
    → block_count * context_length * kv_hidden_dim * 4 * 2 < 2 ^ 64
    → (context : ℕ) × (limit_context block_count context_length kv_hidden_dim ≡ some context)
      × ((context * (block_count * kv_hidden_dim * 8) ≤ 2 ^ 31)
          ⊎ ((context ≡ 256) × (2 ^ 31 < 256 * (block_count * kv_hidden_dim * 8))))
      × ((context ≡ context_length) ⊎ (2 ^ 31 < 2 * context * (block_count * kv_hidden_dim * 8)))
unfolding limit_context
limit_context-Fits block_count context_length kv_hidden_dim small fits =
    elim (Bool-cases
      (ltb max_kv_cache (u64 (block_count * context_length * kv_hidden_dim * 4 * 2)))) [
        | inl e ↦
            let over : 2 ^ 31 < block_count * context_length * kv_hidden_dim * 4 * 2 =
              ground (arith, e, fits) in
            let unit : ℕ = block_count * kv_hidden_dim * 8 in
            let positive : 0 < unit = unit_positive block_count context_length kv_hidden_dim over in
            let (context, is, fitting, tight) = rounded_lem unit positive in
            let whole : u32 (block_count * kv_hidden_dim) * 4 * 2 ≡ unit = omega (arith, small) in
            let ne : (unit == 0) ≡ false = ground (arith, positive) in
            rw (e, whole, ne) (context, ap some is, fitting, inr tight)
        | inr e ↦
            let within : block_count * context_length * kv_hidden_dim * 4 * 2 ≤ 2 ^ 31 =
              ground (arith, e, fits) in
            rw e (context_length, refl, inl (omega (arith, within)), inl refl)
      ]

-- What the limit comes to, by the size of the caches that the code computes, in 64 bits, and by
-- `unit`, the bytes per position that it divides by, whose first product wraps in 32 bits.
abbrev pub Limits : ℕ → ℕ → ℕ → Option ℕ → Type 0
Limits size unit context_length none = (2 ^ 31 < size) × (unit ≡ 0)
Limits size unit context_length (some context) =
    ((size ≤ 2 ^ 31) × (context ≡ context_length))
    ⊎ ((2 ^ 31 < size)
        × ((context * unit ≤ 2 ^ 31) ⊎ ((context ≡ 256) × (2 ^ 31 < 256 * unit)))
        × (2 ^ 31 < 2 * context * unit))

-- For any block count, context length and dimension: the limit stops with the exception of a
-- division by 0 just when the computed size is over 2 GB and the computed bytes per position are 0,
-- as they are after a wrap. Otherwise it results in a context. That is the file's when the
-- computed size is within 2 GB. When it is not, the context times the computed bytes per position
-- is within 2 GB, or the context is 256 and that product is over 2 GB; and for twice the context
-- the product is over 2 GB.
pub limit_context-Limits :
    (block_count context_length kv_hidden_dim : ℕ)
    → Limits
        (u64 (block_count * context_length * kv_hidden_dim * 4 * 2))
        (u32 (block_count * kv_hidden_dim) * 4 * 2)
        context_length
        (limit_context block_count context_length kv_hidden_dim)
unfolding limit_context
limit_context-Limits block_count context_length kv_hidden_dim =
    let size : ℕ = u64 (block_count * context_length * kv_hidden_dim * 4 * 2) in
    let unit : ℕ = u32 (block_count * kv_hidden_dim) * 4 * 2 in
    elim (Bool-cases (ltb max_kv_cache size)) [
      | inr e ↦ rw e (inl (ground (arith, e), refl))
      | inl e ↦ elim (Bool-cases (unit == 0)) [
        | inl z ↦ rw (e, z) (ground (arith, e), ground (arith, z))
        | inr z ↦
            let positive : 0 < unit = ground (arith, z) in
            let (context, is, fitting, tight) = rounded_lem unit positive in
            rw (e, z, is) (inr (ground (arith, e), fitting, tight))
      ]
    ]
