-- ===== src/Gguf/Generate/Choice.antt =====
-- What the sampling chooses from.
use fae.Prelude.{
  subst, ℕ, zero, suc, ◌-◌, ◌<◌, ◌≤◌, ◌≡◌, ◌⊎◌, inl, inr, refl, ap, sym, arith, Bool, if_cases,
  none, some, List, [], ◌∷◌, length, length-map, take, map, get_elem?, Member,
}
use fae.Gguf.Generate.{candidates, pick, choose}

module _ {S : Type 0} (add : S → S → S) (reaches : S → S → Bool) where
  -- There are as many candidates as tokens at most, and one at least where there is a token.
  candidates-le :
      (top_p cumsum p : S) (ps : List S)
      → (0 < (candidates add reaches top_p (p ∷ ps) cumsum).0)
        × ((candidates add reaches top_p (p ∷ ps) cumsum).0 ≤ length (p ∷ ps))
  unfolding candidates
  candidates-le top_p cumsum p [] =
      if_cases (λ (c : ℕ × S). (0 < c.0) × (c.0 ≤ 1)) (reaches (add cumsum p) top_p)
        (1, add cumsum p) (1, add cumsum p) (λ e. (omega arith, omega arith))
        (λ e. (omega arith, omega arith))
  candidates-le top_p cumsum p (q ∷ qs) =
      let rest = candidates-le top_p (add cumsum p) q qs in
      let more = candidates add reaches top_p (q ∷ qs) (add cumsum p) in
      if_cases (λ (c : ℕ × S). (0 < c.0) × (c.0 ≤ suc (suc (length qs))))
        (reaches (add cumsum p) top_p) (1, add cumsum p) (suc more.0, more.1)
        (λ e. (omega arith, omega arith)) (λ e. (omega arith, omega (arith, rest.1)))

  -- The pick is the default or one of the candidates.
  pick-Member :
      (n : ℕ) (r sum : S) (ps : List (S × ℕ)) (default : ℕ)
      → (pick add reaches n r ps sum default ≡ default)
        ⊎ Member (pick add reaches n r ps sum default) (map (λ p. p.1) (take n ps))
  unfolding pick
  pick-Member zero r sum ps default = inl refl
  pick-Member (suc n) r sum [] default = inl refl
  pick-Member (suc n) r sum (p ∷ ps) default =
      if_cases (λ t. (t ≡ default) ⊎ Member t (map (λ q. q.1) (take (suc n) (p ∷ ps))))
        (reaches (add sum p.0) r) p.1 (pick add reaches n r ps (add sum p.0) default)
        (λ e. inr (inl refl))
        (λ e. elim (pick-Member n r (add sum p.0) ps default) [
          | inl d ↦ inl d
          | inr q ↦ inr (inr q)
        ])

  get_elem?-take :
      (ps : List (S × ℕ)) (n : ℕ)
      → n < length ps
      → (last : S × ℕ) × (get_elem? ps n ≡ some last)
        × Member (last.1) (map (λ p. p.1) (take (suc n) ps))
  get_elem?-take [] n k = absurd (omega (arith, k))
  get_elem?-take (p ∷ ps) zero k = (p, refl, inl refl)
  get_elem?-take (p ∷ ps) (suc n) k =
      let (last, is, member) = get_elem?-take ps n (omega (arith, k)) in (last, is, inr member)

  -- Where there is a token to choose from, a token is chosen and is one of the candidates, whatever
  -- the sums, their order and the number that is drawn are.
  pub choose-Member :
      (scale : S → S) (top_p nothing : S) (p : S × ℕ) (ps : List (S × ℕ))
      → (token : ℕ) × (choose add reaches scale top_p nothing (p ∷ ps) ≡ some token)
        × Member token (
            map
              (λ q. q.1)
              (take (candidates add reaches top_p (map (λ q. q.0) (p ∷ ps)) nothing).0 (p ∷ ps)))
  unfolding choose
  choose-Member scale top_p nothing p ps =
      let c = candidates add reaches top_p (map (λ q. q.0) (p ∷ ps)) nothing in
      let (some_, few) = candidates-le top_p nothing (p.0) (map (λ q. q.0) ps) in
      let size = length-map ps (λ (q : S × ℕ). q.0) in
      let (last, is, found) = get_elem?-take (p ∷ ps) (c.0 - 1) (omega (arith, some_, few, size)) in
      let count : suc (c.0 - 1) ≡ c.0 = omega (arith, some_) in
      let member = subst (λ n. Member (last.1) (map (λ q. q.1) (take n (p ∷ ps)))) count found in
      let token : ℕ = pick add reaches c.0 (scale c.1) (p ∷ ps) nothing last.1 in
      (
        token,
        ap
            (λ o. elim o [
              | none ↦ none
              | some l ↦ some (pick add reaches c.0 (scale c.1) (p ∷ ps) nothing l.1)
            ])
            is,
        elim (pick-Member c.0 (scale c.1) nothing (p ∷ ps) last.1) [
          | inl d ↦ subst (λ t. Member t (map (λ q. q.1) (take c.0 (p ∷ ps)))) (sym d) member
          | inr q ↦ q
        ],
      )
