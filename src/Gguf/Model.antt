-- ===== src/Gguf/Model.antt =====
-- gguf.c, the rest of `gguf_init`: the dimensions of the heads, the links to the weights, the limit of
-- the context and the buffers. `fault` is the exception of a division by 0, or a store behind
-- the array for the layers.
pub mod Init
pub mod Tests
use fae.Prelude.{
  ℕ, zero, suc, ◌+◌, ◌-◌, ◌*◌, ◌/◌, ◌^◌, Bool, true, false, not, ◌&&◌, Option, none, some, List, [],
  ◌∷◌, ◌++◌, ltb, leb, ◌==◌, if◌then◌else◌, ◌>>=◌, codes, eq_bytes, Memory, load32, load64, u32,
  u64,
}
use fae.Gguf.Names.{Tensor, key_match, find_tensor_data, find_tensor_type, make_layer_tensor_name}
use fae.Gguf.Context.{divide, limit_context}
use fae.Gguf.Weights.{Weights, link_weights}
use fae.Gguf.Loader.{Params, Slot, Loaded, bytes_at, parse_pairs}
use fae.Gguf.Tensors.{Info, tensor_rounds, parse_infos, aligned_offset, located}

-- The first dimension of the first tensor of a name, in 32 bits, if it has one.
pub first_dim : List Info → List ℕ → Option ℕ
first_dim [] name = none
first_dim (i ∷ is) name =
    let rest = first_dim is name in
    if key_match (Info.name i) name
    then elim (Info.dims i) [ [] ↦ none | d ∷ ds ↦ some (u32 d) ]
    else rest

-- The dimension that a norm tensor shows, divided when it is for all heads.
abbrev pub shown_dim : Option ℕ → ℕ → ℕ → ℕ → Option ℕ
shown_dim none default embedding heads = some default
shown_dim (some d) default embedding heads = if ltb embedding d then divide d heads else some d

pub record Heads : Type 0 where
  pub head_dim : ℕ
  pub head_dim_q : ℕ
  pub q_hidden_dim : ℕ
  pub kv_hidden_dim : ℕ

-- `if (head_count_kv == 0) head_count_kv = head_count;`
abbrev pub kv_heads : Params → ℕ
kv_heads p = if Params.head_count_kv p == 0 then Params.head_count p else Params.head_count_kv p

-- `head_dim`, `head_dim_q`, `q_hidden_dim`, `kv_hidden_dim`
pub find_heads : Params → List Info → Option Heads
unfolding first_dim
find_heads p is = do
  default ← divide (Params.embedding_length p) (Params.head_count p)
  head_dim_q ←
      shown_dim (first_dim is (make_layer_tensor_name 0 (codes "attn_q_norm.weight"))) default
        (Params.embedding_length p) (Params.head_count p)
  head_dim ←
      shown_dim (first_dim is (make_layer_tensor_name 0 (codes "attn_k_norm.weight"))) default
        (Params.embedding_length p) (kv_heads p)
  some (record {
    head_dim = head_dim;
    head_dim_q = head_dim_q;
    q_hidden_dim = u32 (Params.head_count p * head_dim_q);
    kv_hidden_dim = u32 (kv_heads p * head_dim);
  })

-- What a call of `gguf_init` comes to: it returns 0, it stops with an exception, or it returns 1.
pub record Model : Type 0 where
  pub loaded : Loaded
  pub heads : Heads
  pub tensors : List Tensor
  pub weights : Weights

pub data Result : Type 0 where
  failed : Result
  fault : Result
  ready : Model → Result

-- An `int` as a `size_t`.
abbrev pub sign_extend : ℕ → ℕ
sign_extend n = if ltb n (2 ^ 31) then n else n + (2 ^ 64 - 2 ^ 32)

-- The allocations that are tested: `d_x`, `d_logits` and the two caches, with their sizes in 64 bits,
-- where `embedding_length * sizeof(float)` does not wrap.
pub has_buffers : (ℕ → ℕ → Bool) → Params → ℕ → ℕ → Bool
has_buffers grants p context kv_hidden_dim =
    let cache = u64 (Params.block_count p * context * kv_hidden_dim * 4) in
    grants 1 (Params.embedding_length p * 4)
    && grants 2 (u64 (sign_extend (Params.vocab_size p) * 4))
    && grants 3 cache
    && grants 4 cache

-- Behind the divisions: `head_count_kv` and `context_length` have their final values.
abbrev finish : (ℕ → ℕ → Bool) → Loaded → List Tensor → Weights → Heads → ℕ → Result
finish grants s tensors weights heads context =
    let p = Loaded.params s in
    if has_buffers grants p context (Heads.kv_hidden_dim heads)
    then ready (record {
      loaded = record s {
        params = record p { head_count_kv = kv_heads p; context_length = context };
      };
      heads = heads;
      tensors = tensors;
      weights = weights;
    })
    else failed

abbrev or_fault : Option Result → Result
or_fault none = fault
or_fault (some r) = r

-- What follows the two parsing loops, which end at an address: the data, the heads, the weights and the
-- context.
pub conclude : (ℕ → ℕ → Bool) → ℕ → Loaded → List Info → ℕ → Result
unfolding link_weights has_buffers limit_context find_heads
conclude grants buffer s infos end =
    let p = Loaded.params s in
    let block = buffer + aligned_offset (end - buffer) (Params.alignment p) in
    or_fault do
      heads ← find_heads p infos
      weights ← link_weights (located block infos) (Params.block_count p)
      context ←
          limit_context (Params.block_count p) (Params.context_length p) (Heads.kv_hidden_dim heads)
      some (finish grants s (located block infos) weights heads context)

-- `gguf_init`
pub gguf_init : (ℕ → ℕ → Bool) → (ℕ → Slot) → Memory → ℕ → Loaded → Result
unfolding parse_pairs parse_infos conclude
gguf_init grants junk m buffer s =
    let pairs = parse_pairs grants junk m (load64 m (buffer + 16)) (buffer + 24) s in
    let infos = parse_infos m (tensor_rounds (load64 m (buffer + 8))) pairs.0 in
    if eq_bytes (bytes_at m buffer 4) (codes "GGUF")
    then conclude grants buffer pairs.1 infos.1 infos.0
    else failed
