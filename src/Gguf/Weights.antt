-- ===== src/Gguf/Weights.antt =====
-- gguf.c, the links of `gguf_init` from `struct model_weights` to the tensors; `none` is NULL.
pub mod Linked
use mathlib.Core.Option
use fae.Prelude.{ℕ, zero, suc, ◌+◌, Option, none, some, List, [], ◌∷◌, ltb, if◌then◌else◌, codes}
use fae.Gguf.Names.{Tensor, find_tensor_data, find_tensor_type, make_layer_tensor_name}

-- `struct layer_weights`
pub record Layer : Type 0 where
  pub attn_q : Option ℕ
  pub type_q : ℕ
  pub attn_k : Option ℕ
  pub type_k : ℕ
  pub attn_v : Option ℕ
  pub type_v : ℕ
  pub attn_output : Option ℕ
  pub type_output : ℕ
  pub attn_norm : Option ℕ
  pub attn_q_norm : Option ℕ
  pub attn_k_norm : Option ℕ
  pub attn_q_bias : Option ℕ
  pub attn_k_bias : Option ℕ
  pub attn_v_bias : Option ℕ
  pub ffn_gate : Option ℕ
  pub type_gate : ℕ
  pub ffn_up : Option ℕ
  pub type_up : ℕ
  pub ffn_down : Option ℕ
  pub type_down : ℕ
  pub ffn_norm : Option ℕ

-- One round of the loop over the layers.
pub link_layer : List Tensor → ℕ → Layer
unfolding find_tensor_data find_tensor_type make_layer_tensor_name
link_layer ts l =
    let data_ : List ℕ → Option ℕ =
      λ suffix. find_tensor_data ts (make_layer_tensor_name l suffix) in
    let type : List ℕ → ℕ = λ suffix. find_tensor_type ts (make_layer_tensor_name l suffix) in
    record {
      attn_q = data_ (codes "attn_q.weight");
      type_q = type (codes "attn_q.weight");
      attn_k = data_ (codes "attn_k.weight");
      type_k = type (codes "attn_k.weight");
      attn_v = data_ (codes "attn_v.weight");
      type_v = type (codes "attn_v.weight");
      attn_output = data_ (codes "attn_output.weight");
      type_output = type (codes "attn_output.weight");
      attn_norm = data_ (codes "attn_norm.weight");
      attn_q_norm = data_ (codes "attn_q_norm.weight");
      attn_k_norm = data_ (codes "attn_k_norm.weight");
      attn_q_bias = data_ (codes "attn_q.bias");
      attn_k_bias = data_ (codes "attn_k.bias");
      attn_v_bias = data_ (codes "attn_v.bias");
      ffn_gate = data_ (codes "ffn_gate.weight");
      type_gate = type (codes "ffn_gate.weight");
      ffn_up = data_ (codes "ffn_up.weight");
      type_up = type (codes "ffn_up.weight");
      ffn_down = data_ (codes "ffn_down.weight");
      type_down = type (codes "ffn_down.weight");
      ffn_norm = data_ (codes "ffn_norm.weight");
    }

-- The room of `layers`.
abbrev pub max_layers : ℕ
max_layers = 64

-- The loop, from a layer on: `none` where it stores behind the array, which it does not check.
unfoldable pub link_layers : List Tensor → ℕ → ℕ → Option (List Layer)
unfolding link_layer
link_layers ts l zero = some []
link_layers ts l (suc n) =
    let rest = link_layers ts (l + 1) n in
    if ltb l max_layers then Option.map (λ ls. link_layer ts l ∷ ls) rest else none

-- `struct model_weights`
pub record Weights : Type 0 where
  pub token_embd : Option ℕ
  pub type_embd : ℕ
  pub output : Option ℕ
  pub type_output : ℕ
  pub output_norm : Option ℕ
  pub layers : List Layer

-- The output is tied to the embedding when it is missing.
unfoldable pub link_weights : List Tensor → ℕ → Option Weights
unfolding link_layers
link_weights ts block_count =
    let embd = find_tensor_data ts (codes "token_embd.weight") in
    let type_embd = find_tensor_type ts (codes "token_embd.weight") in
    let output = find_tensor_data ts (codes "output.weight") in
    Option.map
      (λ layers. record {
        token_embd = embd;
        type_embd = type_embd;
        output = elim output [ none ↦ embd | some d ↦ some d ];
        type_output = elim output [
          | none ↦ type_embd
          | some d ↦ find_tensor_type ts (codes "output.weight")
        ];
        output_norm = find_tensor_data ts (codes "output_norm.weight");
        layers = layers;
      })
      (link_layers ts 0 block_count)
