-- ===== src/Gguf/Names/Match.antt =====
-- What `key_match` accepts, and that layers have names of their own.
use fae.Prelude.{
  ℕ, zero, suc, ◌-◌, ◌<◌, ◌≡◌, ◌⊎◌, inl, inr, refl, ap, ap₂, ◌∙◌, arith, true, ◌&&◌, List, [], ◌∷◌,
  ◌++◌, leb, length, drop, take, get_or, codes, starts_with, eq_bytes-eq, Bool-cases,
}
use fae.Gguf.Names.{ends_with_part, key_match, make_layer_tensor_name}

-- Both layers below 100: the same name of a layer's tensor is the same layer and the same suffix.
pub make_layer_tensor_name-injective :
    (a b : ℕ) (s t : List ℕ)
    → a < 100
    → b < 100
    → make_layer_tensor_name a s ≡ make_layer_tensor_name b t
    → (a ≡ b) × (s ≡ t)
unfolding make_layer_tensor_name
make_layer_tensor_name-injective a b s t h k e = elim (Bool-cases (leb 10 a)) [
  | inl x ↦ elim (Bool-cases (leb 10 b)) [
    | inl y ↦ (ground (arith, e, x, y, h, k), ground (arith, e, x, y))
    | inr y ↦ absurd (ground (arith, e, x, y, h, k))
  ]
  | inr x ↦ elim (Bool-cases (leb 10 b)) [
    | inl y ↦ absurd (ground (arith, e, x, y, h, k))
    | inr y ↦ (ground (arith, e, x, y, h, k), ground (arith, e, x, y))
  ]
]

split_at_dot :
    (key : List ℕ) (n : ℕ)
    → n < length key
    → key ≡ take n key ++ (get_or key n 0 ∷ drop (suc n) key)
split_at_dot [] n h = absurd (omega arith)
split_at_dot (x ∷ key) zero h = refl
split_at_dot (x ∷ key) (suc n) h = ap (λ l. x ∷ l) (split_at_dot key n (omega arith))

ends_with_part-split :
    (key suffix : List ℕ)
    → ends_with_part key suffix ≡ true
    → (pre : List ℕ) × (key ≡ pre ++ (0x2E ∷ suffix))
unfolding ends_with_part
ends_with_part-split key suffix e =
    let longer : length suffix < length key = ground (arith, e) in
    let dot : get_or key (length key - length suffix - 1) 0 ≡ 0x2E = ground (arith, e) in
    let rest : drop (length key - length suffix) key ≡ suffix =
      eq_bytes-eq _ _ (ground (arith, e)) in
    let at : suc (length key - length suffix - 1) ≡ length key - length suffix =
      omega (arith, longer) in
    (
      take (length key - length suffix - 1) key,
      split_at_dot key (length key - length suffix - 1) (omega (arith, longer))
          ∙ rw (dot, at, rest) refl,
    )

starts_with-split : (xs ys : List ℕ) → starts_with xs ys ≡ true → ys ≡ xs ++ drop (length xs) ys
unfolding starts_with
starts_with-split [] ys e = refl
starts_with-split (x ∷ xs) [] e = cc
starts_with-split (x ∷ xs) (y ∷ ys) e =
    ap₂ ◌∷◌ (ground (arith, e)) (starts_with-split xs ys (ground (arith, e)))

-- A key that matches a name is the name, or the name is "llama." with a suffix, and the key ends with
-- a dot and that suffix.
pub key_match-split :
    (key name : List ℕ)
    → key_match key name ≡ true
    → (key ≡ name)
      ⊎ ((pre suffix : List ℕ) × (name ≡ codes "llama." ++ suffix) × (key ≡ pre ++ (0x2E ∷ suffix)))
unfolding key_match
key_match-split key name e =
    elim (Bool-cases (starts_with (codes "llama.") name && ends_with_part key (drop 6 name))) [
      | inl both ↦
          let prefix : starts_with (codes "llama.") name ≡ true = ground (arith, both) in
          let end : ends_with_part key (drop 6 name) ≡ true = ground (arith, both) in
          let (pre, split) = ends_with_part-split key (drop 6 name) end in
          inr (pre, drop 6 name, starts_with-split (codes "llama.") name prefix, split)
      | inr other ↦ inl (eq_bytes-eq key name (ground (arith, rw other at e)))
    ]
