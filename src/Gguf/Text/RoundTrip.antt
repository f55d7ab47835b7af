-- ===== src/Gguf/Text/RoundTrip.antt =====
-- What is printed for a preprocessed text, and for a byte token.
use fae.Prelude.{
  ℕ, ◌<◌, ◌≡◌, ◌≢◌, refl, arith, true, ◌&&◌, some, all_below, all_below_sound, [], ◌∷◌, ltb, ◌==◌,
  length, get_or,
}
use fae.Gguf.Vocab.{Vocab}
use fae.Gguf.Text.{is_byte_token, byte_of_token, print_token}
use fae.Gguf.Tokenize.{hex_token}

-- Not the first byte of the mark, which no ASCII character is.
abbrev pub IsPlain : ℕ → Type 0
IsPlain b = b ≢ 0xE2

byte_token_table :
    all_below 256 (λ c. is_byte_token (hex_token c) && byte_of_token (hex_token c) == c) ≡ true
unfolding all_below is_byte_token byte_of_token hex_token
byte_token_table = refl

-- The fallback token that `tokenize` stores for a byte prints as that byte.
pub print_token-hex_token :
    (v : Vocab) (id c : ℕ)
    → id < length v
    → get_or v id [] ≡ hex_token c
    → c < 256
    → print_token v id ≡ some (c ∷ [])
unfolding print_token
print_token-hex_token v id c h e b =
    let table = all_below_sound 256 _ c byte_token_table b in
    let is : is_byte_token (hex_token c) ≡ true = ground (arith, table) in
    let byte : byte_of_token (hex_token c) ≡ c = ground (arith, table) in
    let inside : ltb id (length v) ≡ true = ground arith in rw (inside, e, is, byte)
