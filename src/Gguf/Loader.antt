-- ===== src/Gguf/Loader.antt =====
-- gguf.c, the metadata of a model file: `parse_string`, `parse_value` and the first loop of
-- `gguf_init`. The file lies in memory at its address, and an address is a number that does not wrap.
-- `grants` says whether a call of malloc, by its number, has room for a size, and `junk` what a new
-- block holds. A float is its 32 bits, and so is an `int`.
pub mod Encoding
pub mod Texts
pub mod View
pub mod Arrays
pub mod Metadata
use fae.Prelude.{
  ℕ, zero, suc, ◌+◌, ◌*◌, ◌/◌, Bool, true, false, ◌&&◌, length, Option, none, some, List, [], ◌∷◌,
  ◌==◌, ltb, if◌then◌else◌, codes, Memory, load8, load32, load64, u32, u64, set, get_or,
}
pub use fae.Prelude.Layout.{bytes_at}
use fae.Gguf.Names.{key_match}

-- The numbers that the metadata sets.
pub record Params : Type 0 where
  pub block_count : ℕ
  pub context_length : ℕ
  pub embedding_length : ℕ
  pub feed_forward_length : ℕ
  pub head_count : ℕ
  pub head_count_kv : ℕ
  pub vocab_size : ℕ
  pub bos_token_id : ℕ
  pub eos_token_id : ℕ
  pub unk_token_id : ℕ
  pub layer_norm_rms_epsilon : ℕ
  pub add_bos_token : ℕ
  pub alignment : ℕ

-- `struct vocab_token`
pub record Slot : Type 0 where
  pub str : ℕ
  pub len : ℕ
  pub score : ℕ

-- The globals: the numbers, and the array `vocab`, none for NULL. `is_overrun` is not one of them: it
-- says that a store has gone behind the end of the array, whose effect on the heap is left out.
pub record Loaded : Type 0 where
  pub params : Params
  pub vocab : Option (List Slot)
  pub is_overrun : Bool

-- Whether a loop that stores `n` entries into an array, if there is one, goes behind its end.
abbrev pub is_behind : {A : Type 0} → Option (List A) → ℕ → Bool
is_behind none n = false
is_behind (some xs) n = ltb (length xs) n

-- The branch of type UINT32.
pub set_uint32 : List ℕ → ℕ → Params → Params
set_uint32 key val p =
    if key_match key (codes "llama.block_count")
    then record p { block_count = val }
    else if key_match key (codes "llama.context_length")
    then record p { context_length = val }
    else if key_match key (codes "llama.embedding_length")
    then record p { embedding_length = val }
    else if key_match key (codes "llama.feed_forward_length")
    then record p { feed_forward_length = val }
    else if key_match key (codes "llama.attention.head_count")
    then record p { head_count = val }
    else if key_match key (codes "llama.attention.head_count_kv")
    then record p { head_count_kv = val }
    else if key_match key (codes "llama.vocab_size")
    then record p { vocab_size = val }
    else if key_match key (codes "tokenizer.ggml.bos_token_id")
    then record p { bos_token_id = val }
    else if key_match key (codes "tokenizer.ggml.eos_token_id")
    then record p { eos_token_id = val }
    else if key_match key (codes "tokenizer.ggml.unknown_token_id")
    then record p { unk_token_id = val }
    else if key_match key (codes "tokenizer.ggml.unk_token_id")
    then record p { unk_token_id = val }
    else p

-- The branch of type INT32.
pub set_int32 : List ℕ → ℕ → Params → Params
set_int32 key val p =
    if key_match key (codes "tokenizer.ggml.bos_token_id")
    then record p { bos_token_id = val }
    else if key_match key (codes "tokenizer.ggml.eos_token_id")
    then record p { eos_token_id = val }
    else if key_match key (codes "tokenizer.ggml.unknown_token_id")
    then record p { unk_token_id = val }
    else if key_match key (codes "tokenizer.ggml.unk_token_id")
    then record p { unk_token_id = val }
    else p

-- The branch of type FLOAT32.
pub set_float32 : List ℕ → ℕ → Params → Params
set_float32 key val p =
    if key_match key (codes "llama.attention.layer_norm_rms_epsilon")
    then record p { layer_norm_rms_epsilon = val }
    else p

-- The branch of type BOOL.
pub set_bool : List ℕ → ℕ → Params → Params
set_bool key val p =
    if key_match key (codes "tokenizer.ggml.add_bos_token")
    then record p { add_bos_token = val }
    else p

-- `sizes[]`, and 1 behind its end.
pub elem_size : ℕ → ℕ
elem_size type =
    if ltb type 13
    then get_or (1 ∷ 1 ∷ 2 ∷ 2 ∷ 4 ∷ 4 ∷ 4 ∷ 1 ∷ 0 ∷ 0 ∷ 8 ∷ 8 ∷ 8 ∷ []) type 1
    else 1

pub is_tokens : List ℕ → Bool
is_tokens key = key_match key (codes "tokenizer.ggml.tokens")

abbrev pub no_slot : Slot
no_slot = record { str = 0; len = 0; score = 0 }

-- `vocab[i].str = ptr; vocab[i].len = (uint32_t)len;`, if there is an array. A store behind its end
-- changes no entry; the branch notes it in `is_overrun`.
pub put_token : Option (List Slot) → ℕ → ℕ → ℕ → Option (List Slot)
put_token none i str len = none
put_token (some slots) i str len =
    some (set slots i (record (get_or slots i no_slot) { str = str; len = u32 len }))

-- `vocab[i].score = scores[i];`, if there is an array. A store behind its end changes no entry; the
-- branch notes it in `is_overrun`.
pub put_score : Option (List Slot) → ℕ → ℕ → Option (List Slot)
put_score none i score = none
put_score (some slots) i score =
    some (set slots i (record (get_or slots i no_slot) { score = score }))

-- What a new array of some slots holds.
pub fresh_slots : (ℕ → Slot) → ℕ → List Slot
fresh_slots junk zero = []
fresh_slots junk (suc n) = junk n ∷ fresh_slots junk n

module _ (m : Memory) where
  -- `parse_string`: the text's address, its length in 32 bits, and the address behind it.
  abbrev pub parse_string : ℕ → ℕ × ℕ × ℕ
  parse_string ptr = let len = load64 m ptr in (ptr + 8, u32 len, ptr + 8 + len)

  -- The loop over an array of strings.
  pub strings_from : Bool → ℕ → ℕ → ℕ → Option (List Slot) → ℕ × Option (List Slot)
  unfolding put_token
  strings_from keep zero i ptr v = (ptr, v)
  strings_from keep (suc n) i ptr v =
      let len = load64 m ptr in
      strings_from keep n (i + 1) (ptr + 8 + len) (if keep then put_token v i (ptr + 8) len else v)

  -- The loop over the scores.
  pub scores_from : ℕ → ℕ → ℕ → Option (List Slot) → Option (List Slot)
  unfolding put_score
  scores_from zero i ptr v = v
  scores_from (suc n) i ptr v = scores_from n (i + 1) (ptr + 4) (put_score v i (load32 m ptr))

module _ (grants : ℕ → ℕ → Bool) (junk : ℕ → Slot) (m : Memory) where
  -- `vocab = malloc(arr_len * sizeof(struct vocab_token)); vocab_size = arr_len;`: the product is taken
  -- in 64 bits, and the block holds what fits into it.
  pub allocate_vocab : ℕ → Loaded → Loaded
  unfolding fresh_slots
  allocate_vocab arr_len s =
      let size = u64 (arr_len * 16) in
      record {
        params = record (Loaded.params s) { vocab_size = u32 arr_len };
        vocab = if grants 0 size then some (fresh_slots junk (size / 16)) else none;
        is_overrun = Loaded.is_overrun s;
      }

  -- The branch of strings.
  pub parse_strings : ℕ → List ℕ → ℕ → Loaded → ℕ × Loaded
  unfolding is_tokens strings_from allocate_vocab
  parse_strings arr_len key ptr s =
      let t : Loaded = if is_tokens key then allocate_vocab arr_len s else s in
      let r = strings_from m (is_tokens key) arr_len 0 ptr (Loaded.vocab t) in
      (
        r.0,
        record {
          params = Loaded.params t;
          vocab = r.1;
          is_overrun =
              if is_tokens key && is_behind (Loaded.vocab t) arr_len
              then true
              else Loaded.is_overrun t;
        },
      )

  -- The branch of floats.
  pub parse_floats : ℕ → List ℕ → ℕ → Loaded → ℕ × Loaded
  unfolding scores_from
  parse_floats arr_len key ptr s = (
    ptr + u64 (arr_len * 4),
    record {
      params = Loaded.params s;
      vocab =
          if key_match key (codes "tokenizer.ggml.scores")
          then scores_from m arr_len 0 ptr (Loaded.vocab s)
          else Loaded.vocab s;
      is_overrun =
          if key_match key (codes "tokenizer.ggml.scores") && is_behind (Loaded.vocab s) arr_len
          then true
          else Loaded.is_overrun s;
    },
  )

  -- The branch of type ARRAY, behind the element type and the length.
  pub parse_array : ℕ → ℕ → List ℕ → ℕ → Loaded → ℕ × Loaded
  unfolding elem_size parse_strings parse_floats
  parse_array elem_type arr_len key ptr s =
      if elem_type == 8
      then parse_strings arr_len key ptr s
      else if elem_type == 6
      then parse_floats arr_len key ptr s
      else (ptr + u64 (arr_len * elem_size elem_type), s)

  -- `parse_value`
  pub parse_value : ℕ → List ℕ → ℕ → Loaded → ℕ × Loaded
  unfolding set_uint32 set_int32 set_float32 set_bool parse_array
  parse_value type key ptr s =
      let p = Loaded.params s in
      let with_params : Params → Loaded = λ q. record s { params = q } in
      if type == 0
      then (ptr + 1, s)
      else if type == 1
      then (ptr + 1, s)
      else if type == 2
      then (ptr + 2, s)
      else if type == 3
      then (ptr + 2, s)
      else if type == 4
      then (ptr + 4, with_params (set_uint32 key (load32 m ptr) p))
      else if type == 5
      then (ptr + 4, with_params (set_int32 key (load32 m ptr) p))
      else if type == 6
      then (ptr + 4, with_params (set_float32 key (load32 m ptr) p))
      else if type == 7
      then (ptr + 1, with_params (set_bool key (load8 m ptr) p))
      else if type == 8
      then (ptr + 8 + load64 m ptr, s)
      else if type == 9
      then parse_array (load32 m ptr) (load64 m (ptr + 4)) key (ptr + 12) s
      else if type == 10
      then (ptr + 8, s)
      else if type == 11
      then (ptr + 8, s)
      else if type == 12
      then (ptr + 8, s)
      else (ptr, s)

  -- `alignment = *(uint32_t*)ptr;`, whatever the type of the value.
  pub set_alignment : List ℕ → ℕ → Loaded → Loaded
  set_alignment key ptr s =
      if key_match key (codes "general.alignment")
      then record s { params = record (Loaded.params s) { alignment = load32 m ptr } }
      else s

  -- The loop over the key-value pairs.
  unfoldable pub parse_pairs : ℕ → ℕ → Loaded → ℕ × Loaded
  unfolding parse_value set_alignment
  parse_pairs zero ptr s = (ptr, s)
  parse_pairs (suc n) ptr s =
      let text = parse_string m ptr in
      let key = bytes_at m text.0 text.1 in
      let at = text.2 + 4 in
      let r = parse_value (load32 m text.2) key at (set_alignment key at s) in parse_pairs n r.0 r.1
