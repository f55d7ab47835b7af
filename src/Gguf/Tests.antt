-- ===== src/Gguf/Tests.antt =====
-- The theorems on gguf.c at concrete vocabularies, texts and numbers.
use fae.Prelude.{
  ◌⊎◌, ◌++◌, starts_with, ℕ, ◌*◌, ◌/◌, ◌%◌, ◌^◌, ◌<◌, ◌≤◌, ◌≡◌, refl, inl, arith, true, false, none,
  some, List, [], ◌∷◌, length, codes,
}
use fae.Gguf.Vocab.{Vocab, build, find_token, scan_from}
use fae.Gguf.Vocab.Lookup.{IsLast, IsFirst, find_token_table, find_token_scan}
use fae.Gguf.Tokenize.{Tokenizer, tokenize, hex_token}
use fae.Gguf.Tokenize.Greedy.{Greedy, tokenize-Greedy}
use fae.Gguf.Tokenize.Spelling.{spell, HasBytes, spell-tokenize, MatchesNowhere, tokenize_unmatched}
use fae.Gguf.Text.{preprocess_text, print_token}
use fae.Gguf.Text.Unicode.{preprocess_text-injective}
use fae.Gguf.Text.Bounds.{preprocess_text-lt}
use fae.Gguf.Text.RoundTrip.{print_token-hex_token}
use fae.Gguf.Half.{fp16_to_fp32}
use fae.Gguf.Half.Exact.{half_units, single_units, fp16_to_fp32-exact}
use fae.Gguf.Names.{key_match}
use fae.Gguf.Names.Match.{key_match-split, make_layer_tensor_name-injective}

abbrev words : Vocab
words = codes "a" ∷ codes "b" ∷ codes "ab" ∷ codes "a" ∷ []

abbrev reader : Tokenizer
reader = record {
  vocab = words;
  table = none;
  is_sentencepiece = false;
  bos_token_id = 1;
  unk_token_id = 0;
  add_bos_token = true;
}

tokenize-Greedy_example :
    (ts : List ℕ) × (tokenize reader (codes "aba") ≡ some (1 ∷ ts))
    × Greedy reader (codes "aba") ts
    × (length ts ≤ 3)
tokenize-Greedy_example = tokenize-Greedy reader (codes "aba")

reader-HasBytes : HasBytes reader (codes "aba")
unfolding find_token scan_from
reader-HasBytes = (ground arith, (ground arith, (ground arith, tt)))

spell-tokenize_example :
    (ts : List ℕ) × (tokenize reader (codes "aba") ≡ some (1 ∷ ts)) × (spell words ts ≡ codes "aba")
spell-tokenize_example = spell-tokenize reader (codes "aba") (inl refl) reader-HasBytes

find_token_table_example :
    IsLast words (codes "a") (find_token words (some (build words)) (codes "a"))
find_token_table_example = find_token_table words (codes "a")

find_token_scan_example : IsFirst words (codes "a") (find_token words none (codes "a"))
find_token_scan_example = find_token_scan words (codes "a")

abbrev no_words : Tokenizer
no_words = record {
  vocab = [];
  table = none;
  is_sentencepiece = false;
  bos_token_id = 1;
  unk_token_id = 0;
  add_bos_token = true;
}

no_words_match : MatchesNowhere no_words (codes "xyz")
unfolding find_token scan_from
no_words_match = (λ l p. refl, (λ l p. refl, (λ l p. refl, tt)))

tokenize_unmatched_example :
    (ts : List ℕ) × (tokenize no_words (codes "xyz") ≡ some (1 ∷ ts)) × (length ts ≡ 3)
tokenize_unmatched_example = tokenize_unmatched no_words (codes "xyz") no_words_match

abbrev odd_bytes : List ℕ
odd_bytes = 0x20 ∷ 0xFF ∷ []

preprocess_text-injective_example : odd_bytes ≡ odd_bytes
preprocess_text-injective_example =
    preprocess_text-injective 1024 odd_bytes odd_bytes (omega arith, (omega arith, tt))
      (omega arith, (omega arith, tt)) (omega arith) (omega arith) refl

preprocess_text-lt_example : length (preprocess_text true 8 (codes "a b c d")) < 8
preprocess_text-lt_example = preprocess_text-lt true 8 (codes "a b c d") (omega arith)

print_token-hex_token_example : print_token (hex_token 0xC3 ∷ []) 0 ≡ some (0xC3 ∷ [])
print_token-hex_token_example =
    print_token-hex_token (hex_token 0xC3 ∷ []) 0 0xC3 (omega arith) refl (omega arith)

-- The smallest subnormal half, negated.
fp16_to_fp32-exact_example :
    (fp16_to_fp32 0x8001 / 2 ^ 31 ≡ 0x8001 / 2 ^ 15)
    × (single_units (fp16_to_fp32 0x8001 / 2 ^ 23 % 2 ^ 8) (fp16_to_fp32 0x8001 % 2 ^ 23)
        ≡ half_units (0x8001 / 2 ^ 10 % 2 ^ 5) (0x8001 % 2 ^ 10) * 2 ^ 125)
fp16_to_fp32-exact_example = fp16_to_fp32-exact 0x8001 (omega arith) (omega arith)

abbrev block_key : List ℕ
block_key = codes "qwen2.block_count"

abbrev block_name : List ℕ
block_name = codes "llama.block_count"

block_key-matches : key_match block_key block_name ≡ true
unfolding key_match starts_with
block_key-matches = refl

key_match-split_example :
    (block_key ≡ block_name)
    ⊎ ((pre suffix : List ℕ) × (block_name ≡ codes "llama." ++ suffix)
        × (block_key ≡ pre ++ (0x2E ∷ suffix)))
key_match-split_example = key_match-split block_key block_name block_key-matches

abbrev norm : List ℕ
norm = codes "attn_norm.weight"

abbrev twelve : ℕ
twelve = 12

make_layer_tensor_name-injective_example : (twelve ≡ twelve) × (norm ≡ norm)
make_layer_tensor_name-injective_example =
    make_layer_tensor_name-injective twelve twelve norm norm (omega arith) (omega arith) refl
