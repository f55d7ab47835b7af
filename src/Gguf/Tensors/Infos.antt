-- ===== src/Gguf/Tensors/Infos.antt =====
-- The infos that a writer has put into a file are the infos that the loop finds.
use fae.Prelude.{
  ℕ, ◌+◌, ◌-◌, ◌*◌, ◌/◌, ◌%◌, ◌^◌, ◌<◌, ◌≤◌, ◌≡◌, refl, ap, ap₂, ◌∙◌, arith, List, [], ◌∷◌, ◌++◌,
  length, length-append, Memory, load32, load64, u32, All,
}
use native.Mathlib.Nat.{div-add-mod', mod-lt, mul-mod_left}
use fae.Gguf.Loader.{bytes_at}
use fae.Gguf.Loader.Encoding.{
  encode_string, encode_numbers, little, Holds, Holds-append, load32-little, load64-little,
}
use fae.Gguf.Loader.Texts.{bytes_at-Holds, Holds-string}
use fae.Gguf.Tensors.{Info, parse_dims, parse_info, parse_infos, aligned_offset}

abbrev pub encode_info : Info → List ℕ
encode_info i =
    encode_string (Info.name i)
    ++ (little 4 (length (Info.dims i))
        ++ (encode_numbers 8 (Info.dims i) ++ (little 4 (Info.type i) ++ little 8 (Info.offset i))))

abbrev pub encode_infos : List Info → List ℕ
encode_infos [] = []
encode_infos (i ∷ is) = encode_info i ++ encode_infos is

-- What an entry of `tensors` can hold.
abbrev pub IsInfo : Info → Type 0
IsInfo i =
    (length (Info.name i) < 2 ^ 32)
    × (length (Info.dims i) ≤ 4)
    × All (λ d. d < 2 ^ 64) (Info.dims i)
    × (Info.type i < 2 ^ 32)
    × (Info.offset i < 2 ^ 64)

module _ (m : Memory) where
  parse_dims-Holds :
      (p : ℕ) (ds : List ℕ)
      → All (λ d. d < 2 ^ 64) ds
      → Holds m p (encode_numbers 8 ds)
      → parse_dims m (length ds) p ≡ (p + length (encode_numbers 8 ds), ds)
  unfolding parse_dims
  parse_dims-Holds p [] b h = ap (λ q. (q, [])) (omega arith)
  parse_dims-Holds p (d ∷ ds) (b, bs) h =
      let (word, rest) = Holds-append m p (little 8 d) (encode_numbers 8 ds) h in
      let next = parse_dims-Holds (p + 8) ds bs rest in
      ap₂ (λ r w. (r.0, w ∷ r.1)) next (load64-little m p d b word)
      ∙ ap (λ q. (q, d ∷ ds)) (omega arith)

  parse_info-Holds :
      (p : ℕ) (i : Info)
      → IsInfo i
      → Holds m p (encode_info i)
      → parse_info m p ≡ (p + length (encode_info i), i)
  unfolding parse_info
  parse_info-Holds p i (k, few, b, c, d) h =
      let name : List ℕ = Info.name i in
      let dims : List ℕ = Info.dims i in
      let last : List ℕ = little 4 (Info.type i) ++ little 8 (Info.offset i) in
      let shape : List ℕ = encode_numbers 8 dims ++ last in
      let (len, text, tail) = Holds-string m p name (little 4 (length dims) ++ shape) k h in
      let q : ℕ = p + 8 + length name in
      let (count, more) = Holds-append m q (little 4 (length dims)) shape tail in
      let (numbers, end) = Holds-append m (q + 4) (encode_numbers 8 dims) last more in
      let r : ℕ = q + 4 + length (encode_numbers 8 dims) in
      let (type, rest) = Holds-append m r (little 4 (Info.type i)) (little 8 (Info.offset i)) end in
      let found : parse_dims m (load32 m q) (q + 4) ≡ (r, dims) =
        ap (λ n. parse_dims m n (q + 4))
          (load32-little m q (length dims) (omega (arith, few)) count)
        ∙ parse_dims-Holds (q + 4) dims b numbers in
      let whole : bytes_at m (p + 8) (u32 (length name)) ≡ name =
        ap (bytes_at m (p + 8)) (omega (arith, k)) ∙ bytes_at-Holds m (p + 8) name text in
      let size : r + 12 ≡ p + length (encode_info i) = omega (
        arith,
        length-append (encode_string name) (little 4 (length dims) ++ shape),
        length-append (encode_numbers 8 dims) last,
      ) in
      let result : ℕ × List ℕ → List ℕ → ℕ → ℕ → ℕ × Info =
        λ ds n t o. (ds.0 + 12, record { name = n; dims = ds.1; type = t; offset = o }) in
      ap
        (λ l.
          result (parse_dims m (load32 m (p + 8 + l)) (p + 8 + l + 4)) (bytes_at m (p + 8) (u32 l))
            (load32 m (parse_dims m (load32 m (p + 8 + l)) (p + 8 + l + 4)).0)
            (load64 m ((parse_dims m (load32 m (p + 8 + l)) (p + 8 + l + 4)).0 + 4)))
        len
      ∙ ap₂ (λ ds n. result ds n (load32 m ds.0) (load64 m (ds.0 + 4))) found whole
      ∙ ap₂ (result (r, dims) name) (load32-little m r (Info.type i) c type)
          (load64-little m (r + 4) (Info.offset i) d rest)
      ∙ ap (λ e. (e, i)) size

  -- The infos of a file in memory: the loop ends behind them and returns them.
  pub parse_infos-Holds :
      (p : ℕ) (is : List Info)
      → All IsInfo is
      → Holds m p (encode_infos is)
      → parse_infos m (length is) p ≡ (p + length (encode_infos is), is)
  unfolding parse_infos
  parse_infos-Holds p [] b h = ap (λ q. (q, [])) (omega arith)
  parse_infos-Holds p (i ∷ is) (b, bs) h =
      let (first, rest) = Holds-append m p (encode_info i) (encode_infos is) h in
      let next = parse_infos-Holds (p + length (encode_info i)) is bs rest in
      ap (λ r. ((parse_infos m (length is) r.0).0, r.1 ∷ (parse_infos m (length is) r.0).1))
        (parse_info-Holds p i b first)
      ∙ ap (λ r. (r.0, i ∷ r.1)) next
      ∙ ap (λ q. (q, i ∷ is)) (omega (arith, length-append (encode_info i) (encode_infos is)))

-- With a power of two that the sum does not carry out of 64 bits, the data begin at the first multiple
-- of the alignment that is not before the end of the infos.
pub aligned_offset_lem :
    (current alignment : ℕ)
    → 0 < alignment
    → current + alignment < 2 ^ 64
    → (current ≤ aligned_offset current alignment)
      × (aligned_offset current alignment < current + alignment)
      × (aligned_offset current alignment % alignment ≡ 0)
aligned_offset_lem current alignment positive h =
    let sum : ℕ = current + alignment - 1 in
    let wrapped : (current + alignment + (2 ^ 64 - 1)) % 2 ^ 64 ≡ sum = omega arith in
    let split : sum / alignment * alignment + sum % alignment ≡ sum = div-add-mod' sum alignment in
    let small : sum % alignment < alignment = mod-lt sum positive in
    rw wrapped (
      omega (arith, split, small),
      omega (arith, split, small),
      rw (mul-mod_left (sum / alignment) alignment) refl,
    )
