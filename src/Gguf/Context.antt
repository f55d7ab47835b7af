-- ===== src/Gguf/Context.antt =====
-- gguf.c, the limit that `gguf_init` sets to the context length, so that the caches stay below 2 GB.
pub mod Fits
use fae.Prelude.{
  ℕ, zero, suc, ◌*◌, ◌/◌, ◌^◌, Option, none, some, ltb, leb, ◌==◌, if◌then◌else◌, ◌>>=◌, u32, u64,
}

-- `a / b`, with the exception when `b` is 0.
abbrev pub divide : ℕ → ℕ → Option ℕ
divide a b = if b == 0 then none else some (a / b)

-- `while (pow2 * 2 <= new_ctx) pow2 *= 2;` with fuel: `pow2` grows every round.
pub double_up : ℕ → ℕ → ℕ → ℕ
double_up zero pow2 new_ctx = pow2
double_up (suc fuel) pow2 new_ctx =
    let rest = double_up fuel (pow2 * 2) new_ctx in if leb (pow2 * 2) new_ctx then rest else pow2

-- `max_kv_cache`
abbrev pub max_kv_cache : ℕ
max_kv_cache = 2 ^ 31

-- The context length that the key and value caches leave. A product of `uint32_t` wraps, and it is
-- what the second division divides by.
unfoldable pub limit_context : ℕ → ℕ → ℕ → Option ℕ
unfolding double_up
limit_context block_count context_length kv_hidden_dim =
    if ltb max_kv_cache (u64 (block_count * context_length * kv_hidden_dim * 4 * 2))
    then (do
      new_ctx ← divide max_kv_cache (u32 (block_count * kv_hidden_dim) * 4 * 2)
      let pow2 = double_up new_ctx 1 new_ctx
      some (if ltb pow2 256 then 256 else pow2))
    else some context_length
