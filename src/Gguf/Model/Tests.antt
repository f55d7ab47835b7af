-- ===== src/Gguf/Model/Tests.antt =====
-- A small model file in memory, as an example.
use fae.Prelude.{
  ℕ, ◌+◌, ◌-◌, ◌*◌, ◌^◌, ◌<◌, ◌≤◌, ◌≡◌, ◌⊎◌, refl, inl, inr, ap, arith, Bool, true, false, none,
  some, List, [], ◌∷◌, length, get_elem?, get_or, codes, starts_with, Memory, All, u32, u64,
}
use fae.Prelude.Layout.{image, Holds-image}
use fae.Gguf.Names.{key_match, Tensor, make_layer_tensor_name}
use fae.Gguf.Loader.{Params, Slot, no_slot, Loaded, parse_pairs}
use fae.Gguf.Loader.Encoding.{
  Entry, number, string, strings, numbers, uint32, float32, encode_entries, Holds,
}
use fae.Gguf.Loader.View.{view, note_entries, IsEntry}
use fae.Gguf.Loader.Metadata.{parse_pairs-view}
use fae.Gguf.Tensors.{Info, parse_infos}
use fae.Gguf.Tensors.Infos.{IsInfo, encode_infos, parse_infos-Holds}
use fae.Gguf.Context.{limit_context}
use fae.Gguf.Context.Fits.{Limits, limit_context-Fits, limit_context-Limits}
use fae.Gguf.Weights.{Layer, link_layers}
use fae.Gguf.Weights.Linked.{Distinct, fields, link_layers-own}
use fae.Gguf.Model.{gguf_init, conclude}
use fae.Gguf.Model.Init.{encode_file, gguf_init-encode_file}

abbrev entries : List Entry
entries =
    record { key = codes "general.alignment"; value = number uint32 64 }
    ∷ record { key = codes "m.embedding_length"; value = number uint32 8 }
    ∷ record { key = codes "m.attention.head_count"; value = number uint32 2 }
    ∷ record { key = codes "tokenizer.ggml.tokens"; value = strings (codes "ab" ∷ codes "c" ∷ []) }
    ∷ record { key = codes "tokenizer.ggml.scores"; value = numbers float32 (7 ∷ 9 ∷ []) }
    ∷ record { key = codes "name"; value = string (codes "x") }
    ∷ []

abbrev infos : List Info
infos =
    record { name = codes "output_norm.weight"; dims = 8 ∷ []; type = 0; offset = 0 }
    ∷ record { name = codes "blk.0.attn_q.weight"; dims = 8 ∷ 8 ∷ []; type = 8; offset = 64 }
    ∷ []

abbrev unset : Params
unset = record {
  block_count = 0;
  context_length = 0;
  embedding_length = 0;
  feed_forward_length = 0;
  head_count = 0;
  head_count_kv = 0;
  vocab_size = 0;
  bos_token_id = 1;
  eos_token_id = 2;
  unk_token_id = 0;
  layer_norm_rms_epsilon = 0x3727C5AC;
  add_bos_token = 2 ^ 32 - 1;
  alignment = 32;
}

abbrev start : Loaded
start = record { params = unset; vocab = none; is_overrun = false }

abbrev granted : ℕ → ℕ → Bool
granted call n = true

abbrev junk : ℕ → Slot
junk n = no_slot

abbrev file : Memory
file = image 1000 (encode_file 3 entries infos)

not_both : (b : Bool) {P : Type 0} → b ≡ false → b ≡ true → P
not_both true e f = cc
not_both false e f = cc

entries-IsEntry : All IsEntry entries
unfolding key_match starts_with
entries-IsEntry = (
  (omega arith, omega arith, λ e. (64, refl)),
  (
    (omega arith, omega arith, λ e. not_both false refl e),
    (
      (omega arith, omega arith, λ e. not_both false refl e),
      (
        (omega arith, (omega arith, (omega arith, (omega arith, tt))), λ e. not_both false refl e),
        (
          (
            omega arith,
            (omega arith, (omega arith, (omega arith, tt))),
            λ e. not_both false refl e,
          ),
          ((omega arith, omega arith, λ e. not_both false refl e), tt),
        ),
      ),
    ),
  ),
)

infos-IsInfo : All IsInfo infos
infos-IsInfo = (
  (omega arith, omega arith, (omega arith, tt), omega arith, omega arith),
  ((omega arith, omega arith, (omega arith, (omega arith, tt)), omega arith, omega arith), tt),
)

file-Holds : Holds file 1000 (encode_file 3 entries infos)
file-Holds = Holds-image 1000 [] (encode_file 3 entries infos) refl

abbrev pairs : Memory
pairs = image 500 (encode_entries entries)

pairs-Holds : Holds pairs 500 (encode_entries entries)
pairs-Holds = Holds-image 500 [] (encode_entries entries) refl

abbrev shapes : Memory
shapes = image 500 (encode_infos infos)

shapes-Holds : Holds shapes 500 (encode_infos infos)
shapes-Holds = Holds-image 500 [] (encode_infos infos) refl

gguf_init-encode_file_example :
    (t : Loaded) × (gguf_init granted junk file 1000 start
      ≡ conclude granted 1000 t infos (1000 + length (encode_file 3 entries infos)))
    × (view file t ≡ note_entries granted junk entries (view file start))
gguf_init-encode_file_example =
    gguf_init-encode_file granted junk file 1000 3 entries infos start (omega arith) (omega arith)
      entries-IsEntry infos-IsInfo file-Holds

parse_pairs-view_example :
    ((parse_pairs granted junk pairs (length entries) 500 start).0
      ≡ 500 + length (encode_entries entries))
    × (view pairs (parse_pairs granted junk pairs (length entries) 500 start).1
        ≡ note_entries granted junk entries (view pairs start))
parse_pairs-view_example =
    parse_pairs-view granted junk pairs entries 500 start entries-IsEntry pairs-Holds

parse_infos-Holds_example :
    parse_infos shapes (length infos) 500 ≡ (500 + length (encode_infos infos), infos)
parse_infos-Holds_example = parse_infos-Holds shapes 500 infos infos-IsInfo shapes-Holds

-- The cache of this model would take 4 GB.
limit_context-Fits_example :
    (context : ℕ) × (limit_context 32 131072 128 ≡ some context)
    × ((context * (32 * 128 * 8) ≤ 2 ^ 31) ⊎ ((context ≡ 256) × (2 ^ 31 < 256 * (32 * 128 * 8))))
    × ((context ≡ 131072) ⊎ (2 ^ 31 < 2 * context * (32 * 128 * 8)))
limit_context-Fits_example = limit_context-Fits 32 131072 128 (omega arith) (omega arith)

-- The bytes per position of this one wrap to 0.
limit_context-Limits_example :
    Limits
      (u64 (65536 * 1024 * 65536 * 4 * 2))
      (u32 (65536 * 65536) * 4 * 2)
      1024
      (limit_context 65536 1024 65536)
limit_context-Limits_example = limit_context-Limits 65536 1024 65536

limited : limit_context 32 131072 128 ≡ some 65536
unfolding limit_context
limited = refl

abbrev norm_tensor : Tensor
norm_tensor = record { name = codes "output_norm.weight"; type = 0; data_ = 64 }

abbrev query_tensor : Tensor
query_tensor = record { name = codes "blk.1.attn_q.weight"; type = 8; data_ = 128 }

abbrev two_tensors : List Tensor
two_tensors = norm_tensor ∷ query_tensor ∷ []

names_differ : Distinct two_tensors
names_differ = (
  (λ e. let first : 98 ≡ 111 = ap (λ l. get_or l 0 0) e in absurd (omega (arith, first)), tt),
  (tt, tt),
)

link_layers-own_example :
    (ls : List Layer) × (w : Layer) × (link_layers two_tensors 0 2 ≡ some ls)
    × (length ls ≡ 2)
    × (get_elem? ls 1 ≡ some w)
    × All (λ f. f.0 ≡ codes "attn_q.weight" → f.1 ≡ some 128) (fields w)
unfolding make_layer_tensor_name
link_layers-own_example =
    link_layers-own two_tensors 2 1 (codes "attn_q.weight") query_tensor names_differ (omega arith)
      (omega arith) (inr (inl refl)) refl
