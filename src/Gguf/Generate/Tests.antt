-- ===== src/Gguf/Generate/Tests.antt =====
-- A generation of at most five tokens in a context of four, and a choice among three.
use fae.Prelude.{
  ℕ, ◌+◌, ◌<◌, ◌≤◌, ◌≡◌, ◌≢◌, ◌↔◌, ◌⊎◌, refl, arith, Bool, true, false, some, List, [], ◌∷◌, ◌++◌,
  leb, length, take, map, All, Member, codes,
}
use fae.Prelude.Int.{negsuc}
use fae.Gguf.Generate.{generate, candidates, choose}
use fae.Gguf.Generate.Stops.{
  positions, printed, Counts, Shows, screen, generate-Works, generate-Prints,
}
use fae.Gguf.Generate.Choice.{choose-Member}
use fae.Gguf.Vocab.Detect.{mark, set_tokenizer, IsMarked, BosAfter, set_tokenizer_lem}

abbrev next : ℕ → ℕ
next steps = steps + 10

generate-Works_example :
    Counts 0 (positions (generate next 2 4 5 (7 ∷ 8 ∷ [])))
    × All (λ p. p < 4) (positions (generate next 2 4 5 (7 ∷ 8 ∷ [])))
generate-Works_example = generate-Works next 2 4 5 7 (8 ∷ []) (omega arith)

-- The context is full after three of them.
three_tokens : printed (generate next 2 4 5 (7 ∷ 8 ∷ [])) ≡ 14 ∷ 13 ∷ 12 ∷ []
unfolding generate
three_tokens = refl

generate-Prints_example :
    (length (printed (generate next 13 4 5 (7 ∷ 8 ∷ []))) ≤ 5)
    × All (λ u. u ≢ 13) (printed (generate next 13 4 5 (7 ∷ 8 ∷ [])))
    × Shows true (generate next 13 4 5 (7 ∷ 8 ∷ []))
    × (screen true (generate next 13 4 5 (7 ∷ 8 ∷ [])) ≡ true)
generate-Prints_example = generate-Prints next 13 4 5 7 (8 ∷ []) true

abbrev reaches : ℕ → ℕ → Bool
reaches a b = leb b a

abbrev tokens : List (ℕ × ℕ)
tokens = (60, 5) ∷ (35, 2) ∷ (5, 9) ∷ []

abbrev drawn : ℕ → ℕ
drawn n = 70

choose-Member_example :
    (token : ℕ) × (choose ◌+◌ reaches drawn 90 0 tokens ≡ some token)
    × Member token
        (map (λ q. q.1) (take (candidates ◌+◌ reaches 90 (map (λ q. q.0) tokens) 0).0 tokens))
choose-Member_example = choose-Member ◌+◌ reaches drawn 90 0 (60, 5) ((35, 2) ∷ (5, 9) ∷ [])

set_tokenizer_lem_example :
    (((set_tokenizer true false (negsuc 0) (codes "a" ∷ (mark ++ codes "b") ∷ [])).0 ≡ true) ↔ (
      ((true ≡ true) × IsMarked (codes "a" ∷ (mark ++ codes "b") ∷ []))
      ⊎ ((true ≡ false) × (false ≡ true))))
    × BosAfter true
        (negsuc 0)
        (codes "a" ∷ (mark ++ codes "b") ∷ [])
        (set_tokenizer true false (negsuc 0) (codes "a" ∷ (mark ++ codes "b") ∷ [])).1
set_tokenizer_lem_example =
    set_tokenizer_lem true false (negsuc 0) (codes "a" ∷ (mark ++ codes "b") ∷ [])
