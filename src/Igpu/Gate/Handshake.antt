-- ===== src/Igpu/Gate/Handshake.antt =====
-- The gate hands the work over and back: what `igpu_wait_math` returns with is complete.
use fae.Prelude.{
  ℕ, ◌+◌, ◌<◌, ◌≤◌, ◌≡◌, ◌⊎◌, inl, inr, refl, sym, ap, subst, arith, true, false, ◌&&◌, ltb, ◌==◌,
  if_cases,
}
use native.Mathlib.Decide.{ℕ_discrete}
use fae.Igpu.Gate.{
  owner_cpu, owner_gpu, status_complete, Cpu, activating, marking, handing_over, waiting, returned,
  Gpu, polling, at_row, completing, releasing, State, set_row, cpu_next, cpu_step, gpu_next,
  gpu_step, Reach, start, on_cpu, on_gpu,
}

module _ {A : Type 0} (rows : ℕ) (dot : ℕ → A) where
  -- The results of the first `n` rows are in the output buffer.
  abbrev pub Filled : ℕ → (ℕ → A) → Type 0
  Filled n output = (i : ℕ) → i < n → output i ≡ dot i

  -- What holds of the work, by where the emulator's core stands, while it owns the gate.
  abbrev pub Working : Gpu → State A → Type 0
  Working polling s = Unit
  Working (at_row r) s = (r ≤ rows) × Filled r (State.output s)
  Working completing s = Filled rows (State.output s)
  Working releasing s = (State.status s ≡ status_complete) × Filled rows (State.output s)

  -- The gate is back with its results.
  abbrev pub Finished : State A → Type 0
  Finished s =
      (State.owner s ≡ owner_cpu)
      × (State.gpu s ≡ polling)
      × (State.status s ≡ status_complete)
      × Filled rows (State.output s)

  abbrev pub Invariant : Cpu → State A → Type 0
  Invariant waiting s =
      ((State.owner s ≡ owner_gpu) × (State.is_active s ≡ true) × Working (State.gpu s) s)
      ⊎ Finished s
  Invariant returned s = Finished s
  Invariant activating s = (State.owner s ≡ owner_cpu) × (State.gpu s ≡ polling)
  Invariant _ s = (State.owner s ≡ owner_cpu) × (State.gpu s ≡ polling) × (State.is_active s ≡ true)

  abbrev pub IsSound : State A → Type 0
  IsSound s = Invariant (State.cpu s) s

  cpu_next-IsSound :
      (c : Cpu) (s : State A) → State.cpu s ≡ c → Invariant c s → IsSound (cpu_next rows dot c s)
  cpu_next-IsSound activating s e (o, g) = (o, g, refl)
  cpu_next-IsSound marking s e (o, g, a) = (o, g, a)
  cpu_next-IsSound handing_over s e (o, g, a) =
      inl
        (refl, a, subst (λ g. Working g (record s { owner = owner_gpu; cpu = waiting })) (sym g) tt)
  cpu_next-IsSound waiting s e (inl (o, a, w)) =
      if_cases IsSound (State.owner s == owner_gpu) _ _
        (λ t. subst (λ c. Invariant c s) (sym e) (inl (o, a, w))) (λ f. ground (arith, f, o))
  cpu_next-IsSound waiting s e (inr f) =
      if_cases IsSound (State.owner s == owner_gpu) _ _
        (λ t. subst (λ c. Invariant c s) (sym e) (inr f)) (λ n. f)
  cpu_next-IsSound returned s e h = subst (λ c. Invariant c s) (sym e) h

  cpu_step-IsSound : (s : State A) → IsSound s → IsSound (cpu_step rows dot s)
  unfolding cpu_step
  cpu_step-IsSound s h = cpu_next-IsSound (State.cpu s) s refl h

  pub Filled-set_row :
      (r : ℕ) (output : ℕ → A) → Filled r output → Filled (r + 1) (set_row output r (dot r))
  Filled-set_row r output h i l = elim (ℕ_discrete i r) [
    | yes e ↦ let same : (i == r) ≡ true = ground arith in rw same (ap dot (sym e))
    | no ne ↦ let other : (i == r) ≡ false = ground arith in rw other (h i (omega arith))
  ]

  -- A step of the emulator's core while it owns the gate: it works on, or the gate is back.
  Owned : State A → Type 0
  Owned s =
      ((State.owner s ≡ owner_gpu) × (State.is_active s ≡ true) × Working (State.gpu s) s)
      ⊎ Finished s

  gpu_next-Owned :
      (g : Gpu) (s : State A)
      → State.owner s ≡ owner_gpu
      → State.is_active s ≡ true
      → Working g s
      → Owned (gpu_next rows dot g s)
  unfolding Owned
  gpu_next-Owned polling s o a w =
      if_cases Owned (State.is_active s && State.owner s == owner_gpu) _ _
        (λ t. inl (o, a, (omega arith, λ i l. absurd (omega (arith, l)))))
        (λ f. ground (arith, f, o, a))
  gpu_next-Owned (at_row r) s o a (b, w) =
      if_cases Owned (ltb r rows) _ _
        (λ t. inl (o, a, (ground (arith, t), Filled-set_row r (State.output s) w)))
        (λ f. inl (o, a, λ i l. w i (ground (arith, f, l, b))))
  gpu_next-Owned completing s o a w = inl (o, a, (refl, w))
  gpu_next-Owned releasing s o a (c, w) = inr (refl, refl, c, w)

  gpu_next_waits :
      (g : Gpu) (s : State A) → State.owner s ≡ owner_cpu → g ≡ polling → gpu_next rows dot g s ≡ s
  gpu_next_waits polling s o e =
      if_cases (λ t. t ≡ s) (State.is_active s && State.owner s == owner_gpu) _ _
        (λ t. ground (arith, t, o)) (λ f. refl)
  gpu_next_waits (at_row r) s o e = cc
  gpu_next_waits completing s o e = cc
  gpu_next_waits releasing s o e = cc

  gpu_next-cpu : (g : Gpu) (s : State A) → State.cpu (gpu_next rows dot g s) ≡ State.cpu s
  gpu_next-cpu polling s =
      if_cases (λ t. State.cpu t ≡ State.cpu s) (State.is_active s && State.owner s == owner_gpu) _
        _ (λ t. refl) (λ f. refl)
  gpu_next-cpu (at_row r) s =
      if_cases (λ t. State.cpu t ≡ State.cpu s) (ltb r rows) _ _ (λ t. refl) (λ f. refl)
  gpu_next-cpu completing s = refl
  gpu_next-cpu releasing s = refl

  gpu_keeps :
      (c : Cpu) (s : State A)
      → State.cpu s ≡ c
      → Invariant c s
      → Invariant c (gpu_next rows dot (State.gpu s) s)
  unfolding Owned
  gpu_keeps activating s e h =
      subst (Invariant activating) (sym (gpu_next_waits (State.gpu s) s h.0 h.1)) h
  gpu_keeps marking s e h =
      subst (Invariant marking) (sym (gpu_next_waits (State.gpu s) s h.0 h.1)) h
  gpu_keeps handing_over s e h =
      subst (Invariant handing_over) (sym (gpu_next_waits (State.gpu s) s h.0 h.1)) h
  gpu_keeps waiting s e (inl (o, a, w)) = gpu_next-Owned (State.gpu s) s o a w
  gpu_keeps waiting s e (inr f) =
      inr (subst Finished (sym (gpu_next_waits (State.gpu s) s f.0 f.1)) f)
  gpu_keeps returned s e f = subst Finished (sym (gpu_next_waits (State.gpu s) s f.0 f.1)) f

  gpu_step-IsSound : (s : State A) → IsSound s → IsSound (gpu_step rows dot s)
  unfolding gpu_step
  gpu_step-IsSound s h =
      subst (λ c. Invariant c (gpu_next rows dot (State.gpu s) s))
        (sym (gpu_next-cpu (State.gpu s) s)) (gpu_keeps (State.cpu s) s refl h)

  Reach-IsSound : (s t : State A) → IsSound s → Reach rows dot s t → IsSound t
  Reach-IsSound s _ h start = h
  Reach-IsSound s _ h (on_cpu r) = cpu_step-IsSound _ (Reach-IsSound s _ h r)
  Reach-IsSound s _ h (on_gpu r) = gpu_step-IsSound _ (Reach-IsSound s _ h r)

-- From a gate that the shell's core owns and is about to submit, the emulator's core polling, and
-- however the two cores' steps interleave: when `igpu_wait_math` has returned, the gate is the
-- shell's again, its status is complete, every row's result is its product, and the emulator's core
-- is polling, so that it stores nothing more.
pub Reach-Finished :
    {A : Type 0} (rows : ℕ) (dot : ℕ → A) (s t : State A)
    → State.cpu s ≡ activating
    → State.owner s ≡ owner_cpu
    → State.gpu s ≡ polling
    → Reach rows dot s t
    → State.cpu t ≡ returned
    → Finished rows dot t
Reach-Finished rows dot s t c o g r e =
    subst (λ c. Invariant rows dot c t) e
      (Reach-IsSound rows dot s t (subst (λ c. Invariant rows dot c s) (sym c) (o, g)) r)
