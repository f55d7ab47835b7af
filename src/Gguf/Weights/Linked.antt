-- ===== src/Gguf/Weights/Linked.antt =====
-- Every field of a layer is the tensor of that layer and that name.
use fae.Prelude.{
  ℕ, zero, suc, ◌+◌, ◌<◌, ◌≤◌, ◌≡◌, ◌≢◌, inl, inr, refl, ap, sym, ◌∙◌, arith, true, false, Option,
  none, some, List, [], ◌∷◌, codes, All, Member, All-Member, get_elem?, length, ltb, Bool-cases,
  Option-cases, starts_with, eq_bytes_refl,
}
use fae.Gguf.Names.{Tensor, key_match, find_tensor_data, make_layer_tensor_name}
use fae.Gguf.Names.Match.{key_match-split}
use fae.Gguf.Weights.{Layer, max_layers, link_layer, link_layers}

-- No two tensors have the same name.
abbrev pub Distinct : List Tensor → Type 0
Distinct [] = Unit
Distinct (t ∷ ts) = All (λ u. Tensor.name u ≢ Tensor.name t) ts × Distinct ts

key_match_plain :
    (key name : List ℕ)
    → starts_with (codes "llama.") name ≡ false
    → key_match key name ≡ true
    → key ≡ name
unfolding starts_with
key_match_plain key name plain e = elim (key_match-split key name e) [
  | inl same ↦ same
  | inr (pre, suffix, is, _) ↦
      let llama : starts_with (codes "llama.") name ≡ true = ap (starts_with (codes "llama.")) is in
      cc
]

key_match_self :
    (name : List ℕ) → starts_with (codes "llama.") name ≡ false → key_match name name ≡ true
unfolding key_match
key_match_self name plain = ground (arith, plain, eq_bytes_refl name)

find_tensor-head :
    (u : Tensor) (ts : List Tensor) (name : List ℕ)
    → starts_with (codes "llama.") name ≡ false
    → Tensor.name u ≡ name
    → find_tensor_data (u ∷ ts) name ≡ some (Tensor.data_ u)
unfolding find_tensor_data
find_tensor-head u ts name plain e = rw (e, key_match_self name plain) refl

-- A search for the name of a tensor of the list finds it.
pub find_tensor_data-Member :
    (ts : List Tensor) (t : Tensor)
    → Distinct ts
    → Member t ts
    → starts_with (codes "llama.") (Tensor.name t) ≡ false
    → find_tensor_data ts (Tensor.name t) ≡ some (Tensor.data_ t)
unfolding find_tensor_data
find_tensor_data-Member [] t d r plain = absurd r
find_tensor_data-Member (u ∷ ts) t (d, ds) (inl e) plain =
    find_tensor-head u ts (Tensor.name t) plain (ap Tensor.name (sym e))
    ∙ ap (λ v. some (Tensor.data_ v)) (sym e)
find_tensor_data-Member (u ∷ ts) t (d, ds) (inr r) plain =
    elim (Bool-cases (key_match (Tensor.name u) (Tensor.name t))) [
      | inl e ↦ absurd (
          All-Member (λ v. Tensor.name v ≢ Tensor.name u) t ts d r
            (sym (key_match_plain (Tensor.name u) (Tensor.name t) plain e)))
      | inr e ↦ rw e (find_tensor_data-Member ts t ds r plain)
    ]

-- The fields of a layer that point to data, with the ends of their names.
abbrev pub fields : Layer → List (List ℕ × Option ℕ)
fields w =
    (codes "attn_q.weight", Layer.attn_q w)
    ∷ (codes "attn_k.weight", Layer.attn_k w)
    ∷ (codes "attn_v.weight", Layer.attn_v w)
    ∷ (codes "attn_output.weight", Layer.attn_output w)
    ∷ (codes "attn_norm.weight", Layer.attn_norm w)
    ∷ (codes "attn_q_norm.weight", Layer.attn_q_norm w)
    ∷ (codes "attn_k_norm.weight", Layer.attn_k_norm w)
    ∷ (codes "attn_q.bias", Layer.attn_q_bias w)
    ∷ (codes "attn_k.bias", Layer.attn_k_bias w)
    ∷ (codes "attn_v.bias", Layer.attn_v_bias w)
    ∷ (codes "ffn_gate.weight", Layer.ffn_gate w)
    ∷ (codes "ffn_up.weight", Layer.ffn_up w)
    ∷ (codes "ffn_down.weight", Layer.ffn_down w)
    ∷ (codes "ffn_norm.weight", Layer.ffn_norm w)
    ∷ []

fields-link_layer :
    (ts : List Tensor) (l : ℕ)
    → All (λ f. f.1 ≡ find_tensor_data ts (make_layer_tensor_name l f.0)) (fields (link_layer ts l))
unfolding link_layer
fields-link_layer ts l = (
  refl,
  (
    refl,
    (
      refl,
      (refl, (refl, (refl, (refl, (refl, (refl, (refl, (refl, (refl, (refl, (refl, tt))))))))))),
    ),
  ),
)

link_layers-some :
    (ts : List Tensor) (first n : ℕ)
    → first + n ≤ max_layers
    → (ls : List Layer) × (link_layers ts first n ≡ some ls) × (length ls ≡ n)
unfolding link_layers
link_layers-some ts first zero room = ([], refl, refl)
link_layers-some ts first (suc n) room =
    let (ls, e, size) = link_layers-some ts (first + 1) n (omega (arith, room)) in
    let inside : ltb first max_layers ≡ true = ground (arith, room) in
    (link_layer ts first ∷ ls, rw (inside, e) refl, omega (arith, size))

stored : {ls ms : List Layer} → some ls ≡ some ms → ls ≡ ms
stored {ls} e = ap (λ o. elim o [ none ↦ ls | some l ↦ l ]) e

-- The layers that a loop stores, one by one.
uncons_layers :
    (ts : List Tensor) (first n : ℕ) (ls : List Layer)
    → link_layers ts first (suc n) ≡ some ls
    → (rest : List Layer) × (ls ≡ link_layer ts first ∷ rest)
      × (link_layers ts (first + 1) n ≡ some rest)
unfolding link_layers
uncons_layers ts first n ls e = elim (Bool-cases (ltb first max_layers)) [
  | inr behind ↦ absurd (cc (rw behind at e))
  | inl inside ↦ elim (Option-cases (link_layers ts (first + 1) n)) [
    | inl empty ↦ absurd (cc (rw (inside, empty) at e))
    | inr (rest, r) ↦ (rest, stored (sym (rw (inside, r) at e)), r)
  ]
]

get_elem?-link_layers :
    (ts : List Tensor) (first n l : ℕ) (ls : List Layer)
    → link_layers ts first n ≡ some ls
    → l < n
    → get_elem? ls l ≡ some (link_layer ts (first + l))
get_elem?-link_layers ts first zero l ls e h = absurd (omega (arith, h))
get_elem?-link_layers ts first (suc n) zero ls e h =
    let (rest, is, r) = uncons_layers ts first n ls e in
    rw is (ap (λ k. some (link_layer ts k)) (omega arith))
get_elem?-link_layers ts first (suc n) (suc l) ls e h =
    let (rest, is, r) = uncons_layers ts first n ls e in
    rw is (
      get_elem?-link_layers ts (first + 1) n l rest r (omega (arith, h))
      ∙ ap (λ k. some (link_layer ts k)) (omega arith))

named_fields :
    (ts : List Tensor) (l : ℕ) (suffix : List ℕ) (d : ℕ)
    → find_tensor_data ts (make_layer_tensor_name l suffix) ≡ some d
    → (fs : List (List ℕ × Option ℕ))
    → All (λ f. f.1 ≡ find_tensor_data ts (make_layer_tensor_name l f.0)) fs
    → All (λ f. f.0 ≡ suffix → f.1 ≡ some d) fs
named_fields ts l suffix d found [] h = tt
named_fields ts l suffix d found (f ∷ fs) (e, h) = (
  λ same. e ∙ ap (λ s. find_tensor_data ts (make_layer_tensor_name l s)) same ∙ found,
  named_fields ts l suffix d found fs h,
)

-- For a model of 64 layers at most, no two of whose tensors have the same name, the loop stores that
-- many layers, and for each layer `l` of them and each tensor that is named for `l` and the end of
-- a field's name, that field of the layer points to the tensor's data.
pub link_layers-own :
    (ts : List Tensor) (n l : ℕ) (suffix : List ℕ) (t : Tensor)
    → Distinct ts
    → n ≤ max_layers
    → l < n
    → Member t ts
    → Tensor.name t ≡ make_layer_tensor_name l suffix
    → (ls : List Layer) × (w : Layer) × (link_layers ts 0 n ≡ some ls)
      × (length ls ≡ n)
      × (get_elem? ls l ≡ some w)
      × All (λ f. f.0 ≡ suffix → f.1 ≡ some (Tensor.data_ t)) (fields w)
unfolding make_layer_tensor_name starts_with
link_layers-own ts n l suffix t distinct room h member named =
    let (ls, e, size) = link_layers-some ts 0 n (omega (arith, room)) in
    let found : find_tensor_data ts (make_layer_tensor_name l suffix) ≡ some (Tensor.data_ t) =
      ap (find_tensor_data ts) (sym named)
      ∙ find_tensor_data-Member ts t distinct member
          (ap (starts_with (codes "llama.")) named ∙ refl) in
    (
      ls,
      link_layer ts l,
      e,
      size,
      get_elem?-link_layers ts 0 n l ls e h ∙ ap (λ k. some (link_layer ts k)) (omega arith),
      named_fields ts l suffix (Tensor.data_ t) found (fields (link_layer ts l))
          (fields-link_layer ts l),
    )
