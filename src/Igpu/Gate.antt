-- ===== src/Igpu/Gate.antt =====
-- igpu.c, the gate: `igpu_submit_math` and `igpu_wait_math` on the core of the shell,
-- `igpu_run_simulated` on the core that stands in for the GPU. The two run interleaved, a store at
-- a time and in program order. `dot r` is the product of row `r` of the weights with the input,
-- neither of which the code changes meanwhile.
pub mod Handshake
pub mod Progress
use fae.Prelude.{ℕ, zero, suc, ◌+◌, Bool, true, false, ◌&&◌, ltb, ◌==◌, if◌then◌else◌}

-- `IGPU_OWNER_CPU`, `IGPU_OWNER_GPU` and the `IGPU_STATUS_` constants that the code stores.
abbrev pub owner_cpu : ℕ
owner_cpu = 0

abbrev pub owner_gpu : ℕ
owner_gpu = 1

abbrev pub status_idle : ℕ
status_idle = 0

abbrev pub status_processing : ℕ
status_processing = 1

abbrev pub status_complete : ℕ
status_complete = 2

-- Where the submitting core stands: before each of its three stores, in the loop of
-- `igpu_wait_math`, or behind it.
pub data Cpu : Type 0 where
  activating : Cpu
  marking : Cpu
  handing_over : Cpu
  waiting : Cpu
  returned : Cpu

-- Where the emulator's core stands: in the test of its loop, before the store of a row's result,
-- or before one of the two stores behind the rows.
pub data Gpu : Type 0 where
  polling : Gpu
  at_row : ℕ → Gpu
  completing : Gpu
  releasing : Gpu

-- The gate's fields that change, whether `g_active_gate` points at it, and the two cores.
pub record State (A : Type 0) : Type 0 where
  pub owner : ℕ
  pub status : ℕ
  pub is_active : Bool
  pub output : ℕ → A
  pub cpu : Cpu
  pub gpu : Gpu

-- A store to the output buffer.
abbrev pub set_row : {A : Type 0} → (ℕ → A) → ℕ → A → ℕ → A
set_row output r a i = if i == r then a else output i

module _ {A : Type 0} (rows : ℕ) (dot : ℕ → A) where
  -- The next step of `igpu_submit_math`, or a round of `igpu_wait_math`, by where the core stands.
  abbrev pub cpu_next : Cpu → State A → State A
  cpu_next activating s = record s { is_active = true; cpu = marking }
  cpu_next marking s = record s { status = status_processing; cpu = handing_over }
  cpu_next handing_over s = record s { owner = owner_gpu; cpu = waiting }
  cpu_next waiting s = if State.owner s == owner_gpu then s else record s { cpu = returned }
  cpu_next returned s = s

  unfoldable pub cpu_step : State A → State A
  cpu_step s = cpu_next (State.cpu s) s

  -- The next step of `igpu_run_simulated`.
  abbrev pub gpu_next : Gpu → State A → State A
  gpu_next polling s =
      if State.is_active s && State.owner s == owner_gpu then record s { gpu = at_row 0 } else s
  gpu_next (at_row r) s =
      if ltb r rows
      then record s { output = set_row (State.output s) r (dot r); gpu = at_row (r + 1) }
      else record s { gpu = completing }
  gpu_next completing s = record s { status = status_complete; gpu = releasing }
  gpu_next releasing s = record s { owner = owner_cpu; gpu = polling }

  unfoldable pub gpu_step : State A → State A
  gpu_step s = gpu_next (State.gpu s) s

  -- The states that interleaved steps lead to from `s`.
  pub data Reach (s : State A) : State A → Type 0 where
    start : Reach s s
    on_cpu : {t : State A} → Reach s t → Reach s (cpu_step t)
    on_gpu : {t : State A} → Reach s t → Reach s (gpu_step t)

  -- Steps of the emulator's core alone.
  pub gpu_run : ℕ → State A → State A
  unfolding gpu_step
  gpu_run zero s = s
  gpu_run (suc n) s = gpu_run n (gpu_step s)
