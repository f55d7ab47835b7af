-- ===== src/Gguf/Generate.antt =====
-- gguf.c, the control of `gguf_generate`: the prefill, the loop over new tokens, its stops and the
-- visibility of the screen. The forward pass and the choice of a token work on floating point numbers:
-- `next` is the token that they come to in
-- the step with that many steps behind it, which may be any.
pub mod Stops
pub mod Choice
pub mod Tests
use fae.Prelude.{
  ℕ, zero, suc, ◌+◌, ◌-◌, Bool, true, false, Option, none, some, List, [], ◌∷◌, ◌++◌, ltb, leb,
  ◌==◌, if◌then◌else◌, length, map, get_elem?,
}

-- What a call does, in order.
pub data Event : Type 0 where
  set_visible : Bool → Event
  forward : ℕ → ℕ → Event
  print : ℕ → Event

-- `for (int i = 0; i < n_tokens - 1; i++) transformer_forward(tokens[i], i);`
pub prefill : ℕ → List ℕ → List Event
prefill i [] = []
prefill i (t ∷ []) = []
prefill i (t ∷ u ∷ ts) = forward t i ∷ prefill (i + 1) (u ∷ ts)

-- `last_token` behind the prefill.
abbrev pub last_token : ℕ → List ℕ → ℕ
last_token t [] = t
last_token t (u ∷ ts) = last_token u ts

module _ (next : ℕ → ℕ) (eos_token_id context_length : ℕ) where
  -- The loop, with the steps left, at a token and a position.
  pub generate_from : ℕ → ℕ → ℕ → List Event
  generate_from zero last pos = []
  generate_from (suc steps) last pos =
      let token = next steps in
      let rest = generate_from steps token (pos + 1) in
      forward last pos
      ∷ (if token == eos_token_id
          then []
          else set_visible true
            ∷ print token
            ∷ set_visible false
            ∷ (if leb context_length (pos + 1) then [] else rest))

  -- `gguf_generate`, on the tokens of its prompt.
  pub generate : ℕ → List ℕ → List Event
  unfolding prefill generate_from
  generate max_tokens [] = []
  generate max_tokens (t ∷ ts) =
      set_visible false
      ∷ (prefill 0 (t ∷ ts)
          ++ (generate_from max_tokens (last_token t ts) (length ts) ++ set_visible true ∷ []))

-- The choice among the sorted tokens: `add` and `reaches` are the sum and `>=` of `float`.
module _ {S : Type 0} (add : S → S → S) (reaches : S → S → Bool) where
  -- The loop that counts the candidates up to `top_p`, with their sum.
  pub candidates : S → List S → S → ℕ × S
  candidates top_p [] cumsum = (0, cumsum)
  candidates top_p (p ∷ ps) cumsum =
      let sum = add cumsum p in
      let r = candidates top_p ps sum in if reaches sum top_p then (1, sum) else (suc r.0, r.1)

  -- The loop that picks one of them: the first whose sum reaches `r`, and `default` when there is none.
  pub pick : ℕ → S → List (S × ℕ) → S → ℕ → ℕ
  pick zero r ps sum default = default
  pick (suc n) r [] sum default = default
  pick (suc n) r (p ∷ ps) sum default =
      let rest = pick n r ps (add sum p.0) default in if reaches (add sum p.0) r then p.1 else rest

  -- The token that is sampled: `scale` is the product with the random number, and the first of no tokens is
  -- read from before the array, which is no answer.
  pub choose : (S → S) → S → S → List (S × ℕ) → Option ℕ
  unfolding candidates pick
  choose scale top_p nothing ps =
      let c = candidates top_p (map (λ p. p.0) ps) nothing in
      elim (get_elem? ps (c.0 - 1)) [
        | none ↦ none
        | some last ↦ some (pick c.0 (scale c.1) ps nothing last.1)
      ]
