-- ===== src/Gguf/Tokenize.antt =====
-- gguf.c, `tokenize`: greedy longest match over the vocabulary.
-- The text is the list of its bytes, none of them 0; `text + i` is what is left of it. The tokens
-- are the ids in the order in which they are stored.
pub mod Greedy
pub mod Spelling
use fae.Prelude.{
  ℕ, zero, suc, ◌+◌, ◌/◌, ◌%◌, Bool, true, false, Option, none, some, List, [], ◌∷◌, ◌++◌, ◌==◌,
  if◌then◌else◌, get_or, length, take, drop, min, codes,
}
use fae.Gguf.Vocab.{Vocab, Table, find_token}

-- The globals that the tokenizer reads.
pub record Tokenizer : Type 0 where
  pub vocab : Vocab
  pub table : Option Table
  pub is_sentencepiece : Bool
  pub bos_token_id : ℕ
  pub unk_token_id : ℕ
  pub add_bos_token : Bool

abbrev pub lookup : Tokenizer → List ℕ → Option ℕ
lookup z s = find_token z.vocab z.table s

-- The `for` loop over the lengths, from `l` on with `left` to try: the last hit wins.
pub longest_from : Tokenizer → List ℕ → ℕ → ℕ → Option (ℕ × ℕ) → Option (ℕ × ℕ)
longest_from z text l zero best = best
longest_from z text l (suc left) best =
    longest_from z text (l + 1) left
      (elim (lookup z (take l text)) [ none ↦ best | some tok ↦ some (tok, l) ])

-- The longest prefix of 64 bytes at most that is a token, with its length.
pub longest : Tokenizer → List ℕ → Option (ℕ × ℕ)
unfolding longest_from
longest z text = longest_from z text 1 (min (length text) 64) none

abbrev pub hex_digits : List ℕ
hex_digits = codes "0123456789ABCDEF"

-- The byte fallback token, `<0xXX>`.
unfoldable pub hex_token : ℕ → List ℕ
hex_token c =
    b'<' ∷ b'0' ∷ b'x' ∷ get_or hex_digits (c / 16) 0 ∷ get_or hex_digits (c % 16) 0 ∷ b'>' ∷ []

-- The token for a byte at which nothing matches.
pub fallback : Tokenizer → ℕ → ℕ
unfolding hex_token
fallback z c =
    if z.is_sentencepiece
    then elim (lookup z (hex_token c)) [ none ↦ z.unk_token_id | some tok ↦ tok ]
    else z.unk_token_id

abbrev pub prepend : ℕ → Option (List ℕ) → Option (List ℕ)
prepend t none = none
prepend t (some ts) = some (t ∷ ts)

-- The `while` loop; `none` is running out of fuel.
pub tokenize_from : Tokenizer → ℕ → List ℕ → Option (List ℕ)
tokenize_from z fuel [] = some []
tokenize_from z zero (c ∷ text) = none
tokenize_from z (suc fuel) (c ∷ text) = elim (longest z (c ∷ text)) [
  | some (tok, l) ↦ prepend tok (tokenize_from z fuel (drop l (c ∷ text)))
  | none ↦ prepend (fallback z c) (tokenize_from z fuel text)
]

-- `tokenize`. Every round takes a byte at least, so the text's length is fuel enough.
pub tokenize : Tokenizer → List ℕ → Option (List ℕ)
unfolding tokenize_from
tokenize z text =
    if z.add_bos_token
    then prepend z.bos_token_id (tokenize_from z (length text) text)
    else tokenize_from z (length text) text
