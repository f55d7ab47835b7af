-- ===== src/Gguf/Vocab.antt =====
-- gguf.c, the vocabulary and its hash table: `hash_str`, `build_vocab_hash_table`,
-- `find_token_by_str`. A token is its bytes, and its id its index.
-- A text handed to `find_token_by_str` holds no 0 byte, so that `strncmp` over its whole length is
-- equality of the bytes.
pub mod Lookup
pub mod Detect
use fae.Prelude.{
  ℕ, zero, suc, ◌+◌, ◌*◌, ◌%◌, Bool, true, false, Option, none, some, List, [], ◌∷◌, ◌==◌,
  if◌then◌else◌, u32, eq_bytes, get_or,
}

-- HASH_SIZE
abbrev pub hash_size : ℕ
hash_size = 32768

abbrev pub Vocab : Type 0
Vocab = List (List ℕ)

-- `hash = ((hash << 5) + hash) + byte`, in 32 bits.
hash_from : ℕ → List ℕ → ℕ
hash_from hash [] = hash
hash_from hash (b ∷ bs) = hash_from (u32 (u32 (hash * 32 + hash) + b)) bs

-- `hash_str`
pub hash_str : List ℕ → ℕ
unfolding hash_from
hash_str bs = hash_from 5381 bs % hash_size

-- `vocab_hash`: each bucket's chain of token ids, the head first.
abbrev pub Table : Type 0
Table = ℕ → List ℕ

-- One round of the last loop of `build_vocab_hash_table`: the entry becomes the head of its chain.
pub add_entry : Table → ℕ → List ℕ → Table
unfolding hash_str
add_entry t id token h = if h == hash_str token then id ∷ t h else t h

-- The loop, from the token of id `i` on.
pub build_from : Table → ℕ → Vocab → Table
unfolding add_entry
build_from t i [] = t
build_from t i (token ∷ tokens) = build_from (add_entry t i token) (i + 1) tokens

abbrev pub empty_table : Table
empty_table h = []

-- `build_vocab_hash_table`, when its allocation succeeds.
pub build : Vocab → Table
unfolding build_from
build v = build_from empty_table 0 v

-- The walk along a chain: the first entry whose token is the text.
pub walk : Vocab → List ℕ → List ℕ → Option ℕ
walk v s [] = none
walk v s (id ∷ ids) = if eq_bytes (get_or v id []) s then some id else walk v s ids

-- The sequential scan, used when there is no table.
unfoldable pub scan_from : ℕ → Vocab → List ℕ → Option ℕ
scan_from i [] s = none
scan_from i (token ∷ tokens) s = if eq_bytes token s then some i else scan_from (i + 1) tokens s

-- `find_token_by_str`; `none` is -1. The table is there or not.
unfoldable pub find_token : Vocab → Option Table → List ℕ → Option ℕ
unfolding walk scan_from hash_str
find_token v none s = scan_from 0 v s
find_token v (some t) s = walk v s (t (hash_str s))
