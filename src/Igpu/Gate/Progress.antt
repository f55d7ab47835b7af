-- ===== src/Igpu/Gate/Progress.antt =====
-- The emulator's core brings a gate that it is given back, within a bounded number of its steps.
use fae.Prelude.{ℕ, zero, suc, ◌+◌, ◌≡◌, refl, sym, subst, arith, true, ◌&&◌, ltb, ◌==◌, if_cases}
use fae.Igpu.Gate.{owner_gpu, Gpu, polling, at_row, State, gpu_next, gpu_step, gpu_run}
use fae.Igpu.Gate.Handshake.{Filled, Finished, Filled-set_row}

module _ {A : Type 0} (rows : ℕ) (dot : ℕ → A) where
  gpu_run_next :
      (n : ℕ) (g : Gpu) (s : State A)
      → State.gpu s ≡ g
      → Finished rows dot (gpu_run rows dot n (gpu_next rows dot g s))
      → Finished rows dot (gpu_run rows dot (suc n) s)
  unfolding gpu_run gpu_step
  gpu_run_next n g s e h =
      subst (λ g. Finished rows dot (gpu_run rows dot n (gpu_next rows dot g s))) (sym e) h

  rows_left :
      (n r : ℕ) (s : State A)
      → r + n ≡ rows
      → State.gpu s ≡ at_row r
      → Filled rows dot r (State.output s)
      → Finished rows dot (gpu_run rows dot (suc (suc (suc n))) s)
  unfolding gpu_run gpu_step
  rows_left zero r s e g f = gpu_run_next 2 (at_row r) s g (
      if_cases (λ t. Finished rows dot (gpu_run rows dot 2 t)) (ltb r rows) _ _
        (λ t. ground (arith, t, e)) (λ n. (refl, refl, refl, λ i l. f i (omega (arith, l, e)))))
  rows_left (suc n) r s e g f = gpu_run_next (suc (suc (suc n))) (at_row r) s g (
      if_cases (λ t. Finished rows dot (gpu_run rows dot (suc (suc (suc n))) t)) (ltb r rows) _ _
        (λ t.
          rows_left n (r + 1) _ (omega (arith, e)) refl
            (Filled-set_row rows dot r (State.output s) f))
        (λ n. ground (arith, n, e)))

-- From an active gate that is handed over, with the emulator's core polling, `rows + 4` steps of
-- that core alone finish it: the owner is the shell's core again, with every row's result stored.
pub gpu_run-Finished :
    {A : Type 0} (rows : ℕ) (dot : ℕ → A) (s : State A)
    → State.is_active s ≡ true
    → State.owner s ≡ owner_gpu
    → State.gpu s ≡ polling
    → Finished rows dot (gpu_run rows dot (rows + 4) s)
gpu_run-Finished rows dot s a o g =
    let steps : rows + 4 ≡ suc (suc (suc (suc rows))) = omega arith in
    subst (λ n. Finished rows dot (gpu_run rows dot n s)) (sym steps)
      (gpu_run_next rows dot (suc (suc (suc rows))) polling s g (
        if_cases (λ t. Finished rows dot (gpu_run rows dot (suc (suc (suc rows))) t))
          (State.is_active s && State.owner s == owner_gpu) _ _
          (λ t. rows_left rows dot rows 0 _ (omega arith) refl (λ i l. absurd (omega (arith, l))))
          (λ f. ground (arith, f, o, a))))
