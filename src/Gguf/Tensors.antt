-- ===== src/Gguf/Tensors.antt =====
-- gguf.c, the second loop of `gguf_init`: the tensor infos of a model file, and where their data lie.
-- An info has at most 4 dimensions, and a file at most 512 tensors: the arrays that hold them are no
-- larger, and the code does not check it.
pub mod Infos
use fae.Prelude.{
  ℕ, zero, suc, ◌+◌, ◌-◌, ◌^◌, Bool, true, Option, none, some, List, [], ◌∷◌, ltb, if◌then◌else◌,
  Memory, load32, load64, u32, u64, align_down,
}
use fae.Gguf.Loader.{parse_string, bytes_at}
use fae.Gguf.Names.{Tensor}

-- `struct gguf_tensor_info`, as it is read.
pub record Info : Type 0 where
  pub name : List ℕ
  pub dims : List ℕ
  pub type : ℕ
  pub offset : ℕ

-- `tensor_count = (int)header->tensor_count`, as the rounds of a loop up to it.
abbrev pub tensor_rounds : ℕ → ℕ
tensor_rounds count = if ltb (u32 count) (2 ^ 31) then u32 count else 0

module _ (m : Memory) where
  -- The loop over the dimensions.
  pub parse_dims : ℕ → ℕ → ℕ × List ℕ
  parse_dims zero ptr = (ptr, [])
  parse_dims (suc n) ptr = let r = parse_dims n (ptr + 8) in (r.0, load64 m ptr ∷ r.1)

  -- One round.
  pub parse_info : ℕ → ℕ × Info
  unfolding parse_dims
  parse_info ptr =
      let text = parse_string m ptr in
      let dims = parse_dims (load32 m text.2) (text.2 + 4) in
      (
        dims.0 + 12,
        record {
          name = bytes_at m text.0 text.1;
          dims = dims.1;
          type = load32 m dims.0;
          offset = load64 m (dims.0 + 4);
        },
      )

  -- The loop.
  unfoldable pub parse_infos : ℕ → ℕ → ℕ × List Info
  unfolding parse_info
  parse_infos zero ptr = (ptr, [])
  parse_infos (suc n) ptr =
      let first = parse_info ptr in let r = parse_infos n first.0 in (r.0, first.1 ∷ r.1)

-- `(current_offset + alignment - 1) & ~(alignment - 1)`, for an alignment that is a power of two or 0.
abbrev pub aligned_offset : ℕ → ℕ → ℕ
aligned_offset current alignment = align_down alignment (u64 (current + alignment + (2 ^ 64 - 1)))

-- `tensors[i].data = tensor_data_block + tensors[i].offset`, for every tensor.
pub located : ℕ → List Info → List Tensor
located block [] = []
located block (i ∷ is) =
    record { name = Info.name i; type = Info.type i; data_ = block + Info.offset i }
    ∷ located block is
