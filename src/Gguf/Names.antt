-- ===== src/Gguf/Names.antt =====
-- gguf.c, the names of tensors and metadata keys: `key_match`, `find_tensor_data`,
-- `find_tensor_type`, `make_layer_tensor_name`. A name is the list of its bytes, none of them 0.
pub mod Match
use fae.Prelude.{
  ℕ, zero, suc, ◌+◌, ◌-◌, ◌/◌, ◌%◌, Bool, true, false, ◌&&◌, Option, none, some, List, [], ◌∷◌,
  ◌++◌, ltb, leb, ◌==◌, if◌then◌else◌, length, drop, get_or, codes, starts_with, eq_bytes,
}

-- `key_len > suff_len`, the byte before the suffix a dot, and the suffix itself.
pub ends_with_part : List ℕ → List ℕ → Bool
ends_with_part key suffix =
    ltb (length suffix) (length key)
    && get_or key (length key - length suffix - 1) 0 == 0x2E
    && eq_bytes (drop (length key - length suffix) key) suffix

-- `key_match`
unfoldable pub key_match : List ℕ → List ℕ → Bool
unfolding ends_with_part
key_match key name =
    if starts_with (codes "llama.") name && ends_with_part key (drop 6 name)
    then true
    else if length name == length key
    then eq_bytes key name
    else false

-- `struct gguf_tensor_info`, its name, its type and its data.
pub record Tensor : Type 0 where
  pub name : List ℕ
  pub type : ℕ
  pub data_ : ℕ

-- `find_tensor_data`; `none` is NULL.
unfoldable pub find_tensor_data : List Tensor → List ℕ → Option ℕ
unfolding key_match
find_tensor_data [] name = none
find_tensor_data (t ∷ ts) name =
    if key_match (Tensor.name t) name then some (Tensor.data_ t) else find_tensor_data ts name

-- `find_tensor_type`: Q8_0 when there is none.
unfoldable pub find_tensor_type : List Tensor → List ℕ → ℕ
unfolding key_match
find_tensor_type [] name = 8
find_tensor_type (t ∷ ts) name =
    if key_match (Tensor.name t) name then Tensor.type t else find_tensor_type ts name

-- `make_layer_tensor_name`: "blk.", the layer in one digit or two, a dot and the suffix; a digit is
-- stored as a byte.
unfoldable pub make_layer_tensor_name : ℕ → List ℕ → List ℕ
make_layer_tensor_name layer suffix =
    codes "blk."
    ++ ((if leb 10 layer
          then (0x30 + layer / 10) % 256 ∷ (0x30 + layer % 10) ∷ []
          else (0x30 + layer) ∷ [])
        ++ 0x2E ∷ suffix)
