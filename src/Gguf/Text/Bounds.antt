-- ===== src/Gguf/Text/Bounds.antt =====
-- `preprocess_text` stays inside its buffer.
use fae.Prelude.{
  ℕ, ◌+◌, ◌<◌, ◌≤◌, arith, Bool, true, false, List, [], ◌∷◌, ◌&&◌, ltb, leb, length, length-append,
  Bool-cases, inl, inr,
}
use fae.Gguf.Text.{
  byte_to_unicode_cp, bpe_bytes, preprocess_bpe, preprocess_sp, preprocess_text, sp_bytes,
  word_start,
}

length-bpe_bytes : (b : ℕ) → length (bpe_bytes b) ≤ 2
unfolding bpe_bytes
length-bpe_bytes b = elim (Bool-cases (leb (byte_to_unicode_cp b) 127)) [
  | inl one ↦ rw one (omega arith)
  | inr two ↦ rw two (omega arith)
]

length-sp_bytes : (b : ℕ) → length (sp_bytes b) ≤ 3
length-sp_bytes b = ground arith

preprocess_bpe-lt :
    (max_len j : ℕ) (src : List ℕ)
    → j < max_len
    → j + length (preprocess_bpe max_len j src) < max_len
unfolding preprocess_bpe
preprocess_bpe-lt max_len j [] h = omega arith
preprocess_bpe-lt max_len j (b ∷ src) h = elim (Bool-cases (ltb (j + 3) max_len)) [
  | inr full ↦ rw full (omega arith)
  | inl room ↦
      let room' : j + 3 < max_len = ground arith in
      rw room (
        omega (
          arith,
          length-append (bpe_bytes b) (preprocess_bpe max_len (j + length (bpe_bytes b)) src),
          preprocess_bpe-lt max_len (j + length (bpe_bytes b)) src
              (omega (arith, length-bpe_bytes b)),
        ))
]

preprocess_sp-lt :
    (max_len j : ℕ) (src : List ℕ)
    → j < max_len
    → j + length (preprocess_sp max_len j src) < max_len
unfolding preprocess_sp
preprocess_sp-lt max_len j [] h = omega arith
preprocess_sp-lt max_len j (b ∷ src) h = elim (Bool-cases (ltb (j + 4) max_len)) [
  | inr full ↦ rw full (omega arith)
  | inl room ↦
      let room' : j + 4 < max_len = ground arith in
      rw room (
        omega (
          arith,
          length-append (sp_bytes b) (preprocess_sp max_len (j + length (sp_bytes b)) src),
          preprocess_sp-lt max_len (j + length (sp_bytes b)) src (omega (arith, length-sp_bytes b)),
        ))
]

-- Whatever the text and the tokenizer, `preprocess_text` with a buffer of `max_len` bytes writes
-- fewer than `max_len`, so that the terminator fits behind them.
pub preprocess_text-lt :
    (sp : Bool) (max_len : ℕ) (src : List ℕ)
    → 0 < max_len
    → length (preprocess_text sp max_len src) < max_len
unfolding preprocess_text
preprocess_text-lt false max_len src h = omega (arith, preprocess_bpe-lt max_len 0 src h)
preprocess_text-lt true max_len src h = elim (Bool-cases (word_start src && ltb 3 max_len)) [
  | inl marked ↦
      let room : 3 < max_len = ground arith in
      rw marked (omega (arith, preprocess_sp-lt max_len 3 src room))
  | inr plain ↦ rw plain (omega (arith, preprocess_sp-lt max_len 0 src h))
]
