-- ===== src/Kernel/Tests.antt =====
-- Waking three cores, of which the second does not answer.
use fae.Prelude.{ℕ, ◌<◌, ◌≤◌, ◌≡◌, [], ◌∷◌, ltb, if◌then◌else◌}
use fae.Sysinfo.Acpi.{get_core_count}
use fae.Kernel.{Woken, wake_all}
use fae.Kernel.Wake.{wakeups, wake_all_lem}

-- One core is ready from the third read on.
abbrev polls : ℕ → ℕ
polls t = if ltb t 3 then 0 else 1

wake_all_lem_example :
    (Woken.stores (wake_all polls (0 ∷ 2 ∷ 4 ∷ [])) ≡ wakeups (2 ∷ 4 ∷ []))
    × (0 < Woken.total_cores (wake_all polls (0 ∷ 2 ∷ 4 ∷ [])))
    × (Woken.total_cores (wake_all polls (0 ∷ 2 ∷ 4 ∷ [])) ≤ get_core_count (0 ∷ 2 ∷ 4 ∷ []))
wake_all_lem_example = wake_all_lem polls 0 (2 ∷ 4 ∷ [])
