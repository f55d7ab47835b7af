-- ===== src/Gguf/Text/Unicode.antt =====
-- The byte-level mapping loses nothing.
use fae.Prelude.{
  ℕ, ◌+◌, ◌*◌, ◌<◌, ◌≤◌, ◌≡◌, ◌∙◌, refl, sym, ap, ap₂, arith, false, List, [], ◌∷◌, ◌++◌, lt→ltb,
  leb, length, Bool-cases, inl, inr, All,
}
use fae.Gguf.Text.{byte_to_unicode_cp, utf8, bpe_bytes, preprocess_bpe, preprocess_text}

-- Different bytes have different code points, all of two UTF-8 bytes at most.
pub byte_to_unicode_cp-injective :
    (a b : ℕ) → a < 256 → b < 256 → byte_to_unicode_cp a ≡ byte_to_unicode_cp b → a ≡ b
unfolding byte_to_unicode_cp
byte_to_unicode_cp-injective a b ha hb e = ground arith

byte_to_unicode_cp-lt : (b : ℕ) → b < 256 → byte_to_unicode_cp b < 324
unfolding byte_to_unicode_cp
byte_to_unicode_cp-lt b h = ground arith

-- UTF-8 is a prefix code.
utf8-append :
    (u v : ℕ) (xs ys : List ℕ)
    → u < 2048
    → v < 2048
    → utf8 u ++ xs ≡ utf8 v ++ ys
    → (u ≡ v) × (xs ≡ ys)
unfolding utf8
utf8-append u v xs ys hu hv e = elim (Bool-cases (leb u 127)) [
  | inl one ↦ elim (Bool-cases (leb v 127)) [
    | inl uno ↦ let e' = rw (one, uno) at e in (ground arith, ground arith)
    | inr due ↦ let e' = rw (one, due) at e in absurd (ground arith)
  ]
  | inr two ↦ elim (Bool-cases (leb v 127)) [
    | inl uno ↦ let e' = rw (two, uno) at e in absurd (ground arith)
    | inr due ↦ let e' = rw (two, due) at e in (ground arith, ground arith)
  ]
]

length-bpe_bytes : (b : ℕ) → length (bpe_bytes b) ≤ 2
unfolding bpe_bytes
length-bpe_bytes b = elim (Bool-cases (leb (byte_to_unicode_cp b) 127)) [
  | inl one ↦ rw one (omega arith)
  | inr two ↦ rw two (omega arith)
]

preprocess_bpe-nil : (max_len j : ℕ) → length (preprocess_bpe max_len j []) ≡ 0
unfolding preprocess_bpe
preprocess_bpe-nil max_len j = refl

preprocess_bpe-cons :
    (max_len j b : ℕ) (src : List ℕ)
    → j + 3 < max_len
    → preprocess_bpe max_len j (b ∷ src)
      ≡ utf8 (byte_to_unicode_cp b) ++ preprocess_bpe max_len (j + length (bpe_bytes b)) src
unfolding preprocess_bpe bpe_bytes
preprocess_bpe-cons max_len j b src h = rw (lt→ltb _ _ h)

utf8-nonempty : (u : ℕ) (xs : List ℕ) → 0 < length (utf8 u ++ xs)
unfolding utf8
utf8-nonempty u xs = elim (Bool-cases (leb u 127)) [
  | inl one ↦ rw one (omega arith)
  | inr two ↦ rw two (omega arith)
]

preprocess_bpe-injective :
    (max_len j : ℕ) (xs ys : List ℕ)
    → All (λ b. b < 256) xs
    → All (λ b. b < 256) ys
    → j + 2 * length xs + 2 ≤ max_len
    → j + 2 * length ys + 2 ≤ max_len
    → preprocess_bpe max_len j xs ≡ preprocess_bpe max_len j ys
    → xs ≡ ys
preprocess_bpe-injective max_len j [] [] hx hy fx fy e = refl
preprocess_bpe-injective max_len j [] (y ∷ ys) hx hy fx fy e = absurd (
    omega (
      arith,
      ap length (e ∙ preprocess_bpe-cons max_len j y ys (omega arith)),
      preprocess_bpe-nil max_len j,
      utf8-nonempty (byte_to_unicode_cp y) (preprocess_bpe max_len (j + length (bpe_bytes y)) ys),
    ))
preprocess_bpe-injective max_len j (x ∷ xs) [] hx hy fx fy e = absurd (
    omega (
      arith,
      ap length (sym e ∙ preprocess_bpe-cons max_len j x xs (omega arith)),
      preprocess_bpe-nil max_len j,
      utf8-nonempty (byte_to_unicode_cp x) (preprocess_bpe max_len (j + length (bpe_bytes x)) xs),
    ))
preprocess_bpe-injective max_len j (x ∷ xs) (y ∷ ys) hx hy fx fy e =
    let (u, rest) =
      utf8-append (byte_to_unicode_cp x) (byte_to_unicode_cp y)
        (preprocess_bpe max_len (j + length (bpe_bytes x)) xs)
        (preprocess_bpe max_len (j + length (bpe_bytes y)) ys)
        (omega (arith, byte_to_unicode_cp-lt x hx.0)) (omega (arith, byte_to_unicode_cp-lt y hy.0))
        (sym (preprocess_bpe-cons max_len j x xs (omega arith))
          ∙ e
          ∙ preprocess_bpe-cons max_len j y ys (omega arith)) in
    let same : x ≡ y = byte_to_unicode_cp-injective x y hx.0 hy.0 u in
    let step : j + length (bpe_bytes y) ≡ j + length (bpe_bytes x) =
      ap (λ z. j + length (bpe_bytes z)) (sym same) in
    ap₂ ◌∷◌ same (
      preprocess_bpe-injective max_len (j + length (bpe_bytes x)) xs ys hx.1 hy.1
        (omega (arith, length-bpe_bytes x)) (omega (arith, length-bpe_bytes x))
        (rest ∙ ap (λ k. preprocess_bpe max_len k ys) step))

-- Two texts of bytes, each of which fits into the buffer with two bytes for each of its own and two
-- more, that have the same byte-level form are the same.
pub preprocess_text-injective :
    (max_len : ℕ) (xs ys : List ℕ)
    → All (λ b. b < 256) xs
    → All (λ b. b < 256) ys
    → 2 * length xs + 2 ≤ max_len
    → 2 * length ys + 2 ≤ max_len
    → preprocess_text false max_len xs ≡ preprocess_text false max_len ys
    → xs ≡ ys
unfolding preprocess_text
preprocess_text-injective max_len xs ys hx hy fx fy e =
    preprocess_bpe-injective max_len 0 xs ys hx hy (omega arith) (omega arith) e
