-- ===== src/Gguf/Generate/Stops.antt =====
-- Where a generation works, when it stops, and what the screen shows.
use fae.Prelude.{
  ℕ, zero, suc, ◌+◌, ◌<◌, ◌≤◌, ◌≡◌, ◌≢◌, refl, ap, sym, ◌∙◌, arith, Bool, true, false, if_cases,
  List, [], ◌∷◌, ◌++◌, append-nil, subst, leb, ◌==◌, if◌then◌else◌, length, All, All-append,
}
use fae.Gguf.Generate.{
  Event, set_visible, forward, print, prefill, last_token, generate_from, generate,
}

-- The positions of the forward passes, and the tokens that are printed.
abbrev pub positions : List Event → List ℕ
positions [] = []
positions (forward t p ∷ es) = p ∷ positions es
positions (set_visible v ∷ es) = positions es
positions (print t ∷ es) = positions es

abbrev pub printed : List Event → List ℕ
printed [] = []
printed (print t ∷ es) = t ∷ printed es
printed (forward t p ∷ es) = printed es
printed (set_visible v ∷ es) = printed es

-- One after the other, from a number on.
abbrev pub Counts : ℕ → List ℕ → Type 0
Counts n [] = Unit
Counts n (p ∷ ps) = (p ≡ n) × Counts (n + 1) ps

-- What the screen's switch is after the events, when it is `v` before, and that tokens are printed only
-- where it is on.
abbrev pub screen : Bool → List Event → Bool
screen v [] = v
screen v (set_visible w ∷ es) = screen w es
screen v (forward t p ∷ es) = screen v es
screen v (print t ∷ es) = screen v es

abbrev pub Shows : Bool → List Event → Type 0
Shows v [] = Unit
Shows v (set_visible w ∷ es) = Shows w es
Shows v (forward t p ∷ es) = Shows v es
Shows v (print t ∷ es) = (v ≡ true) × Shows v es

positions-append : (es fs : List Event) → positions (es ++ fs) ≡ positions es ++ positions fs
positions-append [] fs = refl
positions-append (forward t p ∷ es) fs = ap (λ l. p ∷ l) (positions-append es fs)
positions-append (set_visible v ∷ es) fs = positions-append es fs
positions-append (print t ∷ es) fs = positions-append es fs

printed-append : (es fs : List Event) → printed (es ++ fs) ≡ printed es ++ printed fs
printed-append [] fs = refl
printed-append (forward t p ∷ es) fs = printed-append es fs
printed-append (set_visible v ∷ es) fs = printed-append es fs
printed-append (print t ∷ es) fs = ap (λ l. t ∷ l) (printed-append es fs)

screen-append : (v : Bool) (es fs : List Event) → screen v (es ++ fs) ≡ screen (screen v es) fs
screen-append v [] fs = refl
screen-append v (forward t p ∷ es) fs = screen-append v es fs
screen-append v (set_visible w ∷ es) fs = screen-append w es fs
screen-append v (print t ∷ es) fs = screen-append v es fs

Shows-append :
    (v : Bool) (es fs : List Event) → Shows v es → Shows (screen v es) fs → Shows v (es ++ fs)
Shows-append v [] fs h k = k
Shows-append v (forward t p ∷ es) fs h k = Shows-append v es fs h k
Shows-append v (set_visible w ∷ es) fs h k = Shows-append w es fs h k
Shows-append v (print t ∷ es) fs (e, h) k = (e, Shows-append v es fs h k)

-- The prefill prints nothing and leaves the screen as it is.
prefill-printed : (i : ℕ) (ts : List ℕ) → printed (prefill i ts) ≡ []
unfolding prefill
prefill-printed i [] = refl
prefill-printed i (t ∷ []) = refl
prefill-printed i (t ∷ u ∷ ts) = prefill-printed (i + 1) (u ∷ ts)

prefill-screen :
    (v : Bool) (i : ℕ) (ts : List ℕ) → (screen v (prefill i ts) ≡ v) × Shows v (prefill i ts)
unfolding prefill
prefill-screen v i [] = (refl, tt)
prefill-screen v i (t ∷ []) = (refl, tt)
prefill-screen v i (t ∷ u ∷ ts) = prefill-screen v (i + 1) (u ∷ ts)

Counts-append :
    (n : ℕ) (xs ys : List ℕ) → Counts n xs → Counts (n + length xs) ys → Counts n (xs ++ ys)
Counts-append n [] ys h k = subst (λ m. Counts m ys) (omega arith) k
Counts-append n (x ∷ xs) ys (e, h) k =
    (e, Counts-append (n + 1) xs ys h (subst (λ m. Counts m ys) (omega arith) k))

prefill-Counts :
    (limit i t : ℕ) (ts : List ℕ)
    → i + length ts ≤ limit
    → Counts i (positions (prefill i (t ∷ ts)))
      × All (λ p. p < limit) (positions (prefill i (t ∷ ts)))
      × (length (positions (prefill i (t ∷ ts))) ≡ length ts)
unfolding prefill
prefill-Counts limit i t [] h = (tt, tt, refl)
prefill-Counts limit i t (u ∷ ts) h =
    let (counts, below, size) = prefill-Counts limit (i + 1) u ts (omega (arith, h)) in
    ((refl, counts), (omega (arith, h), below), ap suc size)

module _ (next : ℕ → ℕ) (eos_token_id context_length : ℕ) where
  -- The parts of a step's events behind its forward pass.
  abbrev after_print : ℕ → ℕ → List Event
  after_print steps pos =
      generate_from next eos_token_id context_length steps (next steps) (pos + 1)

  abbrev after_limit : ℕ → ℕ → List Event
  after_limit steps pos = if leb context_length (pos + 1) then [] else after_print steps pos

  abbrev after_token : ℕ → ℕ → List Event
  after_token steps pos =
      set_visible true ∷ print (next steps) ∷ set_visible false ∷ after_limit steps pos

  abbrev after_forward : ℕ → ℕ → List Event
  after_forward steps pos = if next steps == eos_token_id then [] else after_token steps pos

  abbrev Works : ℕ → List Event → Type 0
  Works pos es = Counts pos (positions es) × All (λ p. p < context_length) (positions es)

  -- A run of the loop from a position below the limit.
  generate_from-Works :
      (steps last pos : ℕ)
      → pos < context_length
      → Works pos (generate_from next eos_token_id context_length steps last pos)
  unfolding generate_from
  generate_from-Works zero last pos h = (tt, tt)
  generate_from-Works (suc steps) last pos h =
      let rest : Works (pos + 1) (after_forward steps pos) =
        if_cases (Works (pos + 1)) (next steps == eos_token_id) [] (after_token steps pos)
          (λ e. (tt, tt))
          (λ e.
            if_cases (Works (pos + 1)) (leb context_length (pos + 1)) [] (after_print steps pos)
              (λ l. (tt, tt))
              (λ l. generate_from-Works steps (next steps) (pos + 1) (ground (arith, l)))) in
      ((refl, rest.0), (h, rest.1))

  abbrev Prints : ℕ → List Event → Type 0
  Prints n es = (length (printed es) ≤ n) × All (λ t. t ≢ eos_token_id) (printed es)

  generate_from-Prints :
      (steps last pos : ℕ)
      → Prints steps (generate_from next eos_token_id context_length steps last pos)
  unfolding generate_from
  generate_from-Prints zero last pos = (omega arith, tt)
  generate_from-Prints (suc steps) last pos =
      if_cases (Prints (suc steps)) (next steps == eos_token_id) [] (after_token steps pos)
        (λ e. (omega arith, tt))
        (λ e.
          let other : next steps ≢ eos_token_id = ground (arith, e) in
          let rest : Prints steps (after_limit steps pos) =
            if_cases (Prints steps) (leb context_length (pos + 1)) [] (after_print steps pos)
              (λ l. (omega arith, tt)) (λ l. generate_from-Prints steps (next steps) (pos + 1)) in
          (omega (arith, rest.0), (other, rest.1)))

  abbrev Hides : List Event → Type 0
  Hides es = (screen false es ≡ false) × Shows false es

  generate_from-Hides :
      (steps last pos : ℕ) → Hides (generate_from next eos_token_id context_length steps last pos)
  unfolding generate_from
  generate_from-Hides zero last pos = (refl, tt)
  generate_from-Hides (suc steps) last pos =
      if_cases Hides (next steps == eos_token_id) [] (after_token steps pos) (λ e. (refl, tt))
        (λ e.
          let rest : Hides (after_limit steps pos) =
            if_cases Hides (leb context_length (pos + 1)) [] (after_print steps pos)
              (λ l. (refl, tt)) (λ l. generate_from-Hides steps (next steps) (pos + 1)) in
          (rest.0, (refl, rest.1)))

  -- For a prompt of one token at least that fits into the context, whatever tokens the model
  -- answers with: the forward passes are at the positions from 0 on, one after the other, and each
  -- of them, for the new tokens too, is below the context's length.
  pub generate-Works :
      (max_tokens t : ℕ) (ts : List ℕ)
      → suc (length ts) ≤ context_length
      → Counts 0 (positions (generate next eos_token_id context_length max_tokens (t ∷ ts)))
        × All
            (λ p. p < context_length)
            (positions (generate next eos_token_id context_length max_tokens (t ∷ ts)))
  unfolding generate
  generate-Works max_tokens t ts h =
      let run : List Event =
        generate_from next eos_token_id context_length max_tokens (last_token t ts) (length ts) in
      let (first, below, size) = prefill-Counts context_length 0 t ts (omega (arith, h)) in
      let (later, under) =
        generate_from-Works max_tokens (last_token t ts) (length ts) (omega (arith, h)) in
      let tail : positions (run ++ set_visible true ∷ []) ≡ positions run =
        positions-append run (set_visible true ∷ []) ∙ append-nil (positions run) in
      let all : positions (prefill 0 (t ∷ ts) ++ (run ++ set_visible true ∷ []))
          ≡ positions (prefill 0 (t ∷ ts)) ++ positions run =
        positions-append (prefill 0 (t ∷ ts)) (run ++ set_visible true ∷ [])
        ∙ ap (λ l. positions (prefill 0 (t ∷ ts)) ++ l) tail in
      subst (λ l. Counts 0 l × All (λ p. p < context_length) l) (sym all)
        (
          Counts-append 0 (positions (prefill 0 (t ∷ ts))) (positions run) first
              (subst (λ n. Counts n (positions run)) (omega (arith, size)) later),
          All-append (λ p. p < context_length) (positions (prefill 0 (t ∷ ts))) (positions run)
              below under,
        )

  -- A call on a prompt of one token at least prints no more tokens than it is asked for, none of
  -- them the end token and all of them while the screen is on, which it is at the end.
  pub generate-Prints :
      (max_tokens t : ℕ) (ts : List ℕ) (v : Bool)
      → (length (printed (generate next eos_token_id context_length max_tokens (t ∷ ts)))
          ≤ max_tokens)
        × All
            (λ u. u ≢ eos_token_id)
            (printed (generate next eos_token_id context_length max_tokens (t ∷ ts)))
        × Shows v (generate next eos_token_id context_length max_tokens (t ∷ ts))
        × (screen v (generate next eos_token_id context_length max_tokens (t ∷ ts)) ≡ true)
  unfolding generate
  generate-Prints max_tokens t ts v =
      let run : List Event =
        generate_from next eos_token_id context_length max_tokens (last_token t ts) (length ts) in
      let end : List Event = run ++ set_visible true ∷ [] in
      let (few, others) = generate_from-Prints max_tokens (last_token t ts) (length ts) in
      let (hidden, shown) = generate_from-Hides max_tokens (last_token t ts) (length ts) in
      let (dark, quiet) = prefill-screen false 0 (t ∷ ts) in
      let all : printed (prefill 0 (t ∷ ts) ++ end) ≡ printed run =
        printed-append (prefill 0 (t ∷ ts)) end
        ∙ ap (λ l. l ++ printed end) (prefill-printed 0 (t ∷ ts))
        ∙ printed-append run (set_visible true ∷ [])
        ∙ append-nil (printed run) in
      (
        subst (λ l. length l ≤ max_tokens) (sym all) few,
        subst (λ l. All (λ u. u ≢ eos_token_id) l) (sym all) others,
        Shows-append false (prefill 0 (t ∷ ts)) end quiet (
            subst (λ w. Shows w end) (sym dark)
              (Shows-append false run (set_visible true ∷ []) shown tt)),
        screen-append false (prefill 0 (t ∷ ts)) end
            ∙ screen-append (screen false (prefill 0 (t ∷ ts))) run (set_visible true ∷ []),
      )
