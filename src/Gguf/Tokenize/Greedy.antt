-- ===== src/Gguf/Tokenize/Greedy.antt =====
-- The tokenizer ends, and its tokens are the greedy segmentation of the text.
use fae.Prelude.{
  ℕ, zero, suc, ◌+◌, ◌<◌, ◌≤◌, ◌≡◌, refl, subst, inl, inr, arith, Option, none, some, List, [], ◌∷◌,
  ◌++◌, length, take, drop, min, length-drop, Option-cases, if◌then◌else◌,
}
use native.Mathlib.Decide.{dec_lt}
use fae.Gguf.Tokenize.{Tokenizer, lookup, longest_from, longest, fallback, tokenize_from, tokenize}

-- What a search for the longest token says: the token of the longest prefix of 64 bytes at most
-- that is one, or that no such prefix is.
abbrev pub IsLongest : Tokenizer → List ℕ → Option (ℕ × ℕ) → Type 0
IsLongest z text none = (l : ℕ) → 1 ≤ l → l ≤ min (length text) 64 → lookup z (take l text) ≡ none
IsLongest z text (some (tok, l)) =
    (1 ≤ l)
    × (l ≤ min (length text) 64)
    × (lookup z (take l text) ≡ some tok)
    × ((k : ℕ) → l < k → k ≤ min (length text) 64 → lookup z (take k text) ≡ none)

-- The same with the lengths below `m` tried.
Tried : Tokenizer → List ℕ → ℕ → Option (ℕ × ℕ) → Type 0
Tried z text m none = (l : ℕ) → 1 ≤ l → l < m → lookup z (take l text) ≡ none
Tried z text m (some (tok, l)) =
    (1 ≤ l)
    × (l < m)
    × (lookup z (take l text) ≡ some tok)
    × ((k : ℕ) → l < k → k < m → lookup z (take k text) ≡ none)

at_or_below :
    (z : Tokenizer) (text : List ℕ) (k l : ℕ)
    → k < l + 1
    → (k < l → lookup z (take k text) ≡ none)
    → lookup z (take l text) ≡ none
    → lookup z (take k text) ≡ none
at_or_below z text k l h below at_l = elim (dec_lt k l) [
  | yes less ↦ below less
  | no stop ↦ let same : l ≡ k = omega arith in subst (λ x. lookup z (take x text) ≡ none) same at_l
]

Tried-miss :
    (z : Tokenizer) (text : List ℕ) (l : ℕ) (b : Option (ℕ × ℕ))
    → lookup z (take l text) ≡ none
    → Tried z text l b
    → Tried z text (l + 1) b
unfolding Tried
Tried-miss z text l none e t = λ k p q. at_or_below z text k l q (t k p) e
Tried-miss z text l (some (tok, j)) e t =
    (t.0, omega (arith, t.1), t.2, λ k p q. at_or_below z text k l q (t.3 k p) e)

Tried-hit :
    (z : Tokenizer) (text : List ℕ) (l tok : ℕ)
    → 1 ≤ l
    → lookup z (take l text) ≡ some tok
    → Tried z text (l + 1) (some (tok, l))
unfolding Tried
Tried-hit z text l tok p e = (p, omega arith, e, λ k a b. absurd (omega arith))

longest_from-Tried :
    (z : Tokenizer) (text : List ℕ) (l left m : ℕ) (best : Option (ℕ × ℕ))
    → 1 ≤ l
    → l + left ≡ m
    → Tried z text l best
    → Tried z text m (longest_from z text l left best)
unfolding longest_from
longest_from-Tried z text l zero m best p e h =
    let same : l ≡ m = omega arith in subst (λ k. Tried z text k best) same h
longest_from-Tried z text l (suc left) m best p e h =
    longest_from-Tried z text (l + 1) left m _ (omega arith) (omega arith)
      (elim (Option-cases (lookup z (take l text))) [
        | inl miss ↦ rw miss (Tried-miss z text l best miss h)
        | inr (tok, hit) ↦ rw hit (Tried-hit z text l tok p hit)
      ])

Tried-IsLongest :
    (z : Tokenizer) (text : List ℕ) (r : Option (ℕ × ℕ))
    → Tried z text (1 + min (length text) 64) r
    → IsLongest z text r
unfolding Tried
Tried-IsLongest z text none t = λ l p q. t l p (omega arith)
Tried-IsLongest z text (some (tok, l)) t =
    (t.0, omega (arith, t.1), t.2, λ k p q. t.3 k p (omega arith))

-- The search of `tokenize` for the longest prefix that is a token finds it.
pub longest-IsLongest : (z : Tokenizer) (text : List ℕ) → IsLongest z text (longest z text)
unfolding longest
longest-IsLongest z text = Tried-IsLongest z text _ (
    longest_from-Tried z text 1 (min (length text) 64) _ none (omega arith) refl
      (unfold Tried in λ l p q. absurd (omega arith)))

-- The greedy segmentation of a text: at each place the token of the longest prefix that is one, or,
-- where no prefix is a token, the fallback token of one byte.
pub data Greedy (z : Tokenizer) : List ℕ → List ℕ → Type 0 where
  done : Greedy z [] []
  match :
      {c : ℕ} {text ts : List ℕ} (tok l : ℕ)
      → IsLongest z (c ∷ text) (some (tok, l))
      → Greedy z (drop l (c ∷ text)) ts
      → Greedy z (c ∷ text) (tok ∷ ts)
  miss :
      {c : ℕ} {text ts : List ℕ}
      → IsLongest z (c ∷ text) none
      → Greedy z text ts
      → Greedy z (c ∷ text) (fallback z c ∷ ts)

-- A run of the loop that ends with a segmentation of the text into at most as many tokens as bytes.
abbrev Segments : Tokenizer → List ℕ → Option (List ℕ) → Type 0
Segments z text r = (ts : List ℕ) × (r ≡ some ts) × Greedy z text ts × (length ts ≤ length text)

step_miss :
    (z : Tokenizer) (fuel c : ℕ) (text ts : List ℕ)
    → longest z (c ∷ text) ≡ none
    → tokenize_from z fuel text ≡ some ts
    → tokenize_from z (suc fuel) (c ∷ text) ≡ some (fallback z c ∷ ts)
unfolding tokenize_from
step_miss z fuel c text ts n r = rw (n, tokenize_from, r)

step_match :
    (z : Tokenizer) (fuel c : ℕ) (text ts : List ℕ) (tok l : ℕ)
    → longest z (c ∷ text) ≡ some (tok, l)
    → tokenize_from z fuel (drop l (c ∷ text)) ≡ some ts
    → tokenize_from z (suc fuel) (c ∷ text) ≡ some (tok ∷ ts)
unfolding tokenize_from
step_match z fuel c text ts tok l n r = rw (n, tokenize_from, r)

tokenize_from-Segments :
    (z : Tokenizer) (fuel : ℕ) (text : List ℕ)
    → length text ≤ fuel
    → Segments z text (tokenize_from z fuel text)
unfolding tokenize_from
tokenize_from-Segments z fuel [] h = ([], refl, done, omega arith)
tokenize_from-Segments z zero (c ∷ text) h = absurd (omega arith)
tokenize_from-Segments z (suc fuel) (c ∷ text) h = elim (Option-cases (longest z (c ∷ text))) [
  | inl none_ ↦
      let (ts, r, g, s) = tokenize_from-Segments z fuel text (omega arith) in
      (
        fallback z c ∷ ts,
        step_miss z fuel c text ts none_ r,
        miss (subst (IsLongest z (c ∷ text)) none_ (longest-IsLongest z (c ∷ text))) g,
        omega arith,
      )
  | inr ((tok, l), some_) ↦
      let is = subst (IsLongest z (c ∷ text)) some_ (longest-IsLongest z (c ∷ text)) in
      let (ts, r, g, s) =
        tokenize_from-Segments z fuel (drop l (c ∷ text))
          (omega (arith, length-drop l (c ∷ text), is.0)) in
      (
        tok ∷ ts,
        step_match z fuel c text ts tok l some_ r,
        match tok l is g,
        omega (arith, length-drop l (c ∷ text), is.0),
      )
]

abbrev pub bos : Tokenizer → List ℕ
bos z = if z.add_bos_token then z.bos_token_id ∷ [] else []

with_bos :
    (z : Tokenizer) (text ts : List ℕ)
    → tokenize_from z (length text) text ≡ some ts
    → tokenize z text ≡ some (bos z ++ ts)
unfolding tokenize
with_bos z text ts r = ground (arith, r)

-- `tokenize` always returns: the start token, if it is to be added, and behind it the greedy
-- segmentation of the text. That takes, at each place, the token of the longest prefix of 64 bytes
-- at most that is one, and the fallback token of one byte where no such prefix is. The
-- segmentation, without the start token, has no more tokens than the text has bytes.
pub tokenize-Greedy :
    (z : Tokenizer) (text : List ℕ)
    → (ts : List ℕ) × (tokenize z text ≡ some (bos z ++ ts))
      × Greedy z text ts
      × (length ts ≤ length text)
unfolding tokenize
tokenize-Greedy z text =
    let (ts, r, g, s) = tokenize_from-Segments z (length text) text (omega arith) in
    (ts, with_bos z text ts r, g, s)
