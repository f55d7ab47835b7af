-- ===== src/Kernel/Wake.antt =====
-- Which cores are woken, and how many count.
use fae.Prelude.{
  ℕ, zero, suc, ◌+◌, ◌-◌, ◌<◌, ◌≤◌, ◌≡◌, refl, ap, sym, ◌∙◌, arith, if_cases, lt→ltb, List, [], ◌∷◌,
  ◌++◌, append_assoc, append-nil, length, drop, get_or,
}
use fae.Sysinfo.Acpi.{get_lapic_id, get_core_count}
use fae.Kernel.{wakeup_ap, Woken, wake, wake_from, wake_all}

-- The stores for some cores, one core after the other.
abbrev pub wakeups : List ℕ → List (ℕ × ℕ)
wakeups [] = []
wakeups (id ∷ ids) = wakeup_ap id ++ wakeups ids

get_lapic_id-drop :
    (ids : List ℕ) (i : ℕ) → i < length ids → drop i ids ≡ get_lapic_id ids i ∷ drop (suc i) ids
unfolding get_lapic_id
get_lapic_id-drop ids i h = rw (lt→ltb i (length ids) h) (go ids i h)
  where
    go : (ids : List ℕ) (i : ℕ) → i < length ids → drop i ids ≡ get_or ids i 0xFF ∷ drop (suc i) ids
    go [] i h = absurd (omega (arith, h))
    go (x ∷ xs) zero h = refl
    go (x ∷ xs) (suc i) h = go xs i (omega (arith, h))

drop_all : (ids : List ℕ) (i : ℕ) → length ids ≤ i → drop i ids ≡ []
drop_all [] zero h = refl
drop_all [] (suc i) h = refl
drop_all (x ∷ ids) zero h = absurd (omega (arith, h))
drop_all (x ∷ ids) (suc i) h = drop_all ids i (omega (arith, h))

wake_from_lem :
    (polls : ℕ → ℕ) (timeout : ℕ) (ids : List ℕ) (n i : ℕ) (w : Woken)
    → n + i ≡ length ids
    → (Woken.stores (wake_from polls timeout ids n i w) ≡ Woken.stores w ++ wakeups (drop i ids))
      × (Woken.total_cores w ≤ Woken.total_cores (wake_from polls timeout ids n i w))
      × (Woken.total_cores (wake_from polls timeout ids n i w) ≤ Woken.total_cores w + n)
unfolding wake_from wake
wake_from_lem polls timeout ids zero i w e =
    let none_left : drop i ids ≡ [] = drop_all ids i (omega (arith, e)) in
    (
      sym (append-nil (Woken.stores w)) ∙ ap (λ l. Woken.stores w ++ wakeups l) (sym none_left),
      omega arith,
      omega arith,
    )
wake_from_lem polls timeout ids (suc n) i w e =
    let id : ℕ = get_lapic_id ids i in
    let next : Woken = wake polls timeout id w in
    let (stores, more, few) = wake_from_lem polls timeout ids n (i + 1) next (omega (arith, e)) in
    let behind : i + 1 ≡ suc i = omega arith in
    let split : drop i ids ≡ id ∷ drop (i + 1) ids =
      get_lapic_id-drop ids i (omega (arith, e)) ∙ ap (λ j. id ∷ drop j ids) (sym behind) in
    let (least, most) : (Woken.total_cores w ≤ Woken.total_cores next)
        × (Woken.total_cores next ≤ Woken.total_cores w + 1) =
      if_cases (λ (c : ℕ). (Woken.total_cores w ≤ c) × (c ≤ Woken.total_cores w + 1)) _
        (Woken.total_cores w + 1) (Woken.total_cores w) (λ t. (omega arith, omega arith))
        (λ t. (omega arith, omega arith)) in
    (
      stores
          ∙ append_assoc (Woken.stores w) (wakeup_ap id) (wakeups (drop (i + 1) ids))
          ∙ ap (λ l. Woken.stores w ++ wakeups l) (sym split),
      omega (arith, least, more),
      omega (arith, most, few),
    )

-- For a detection with one core at least, whatever the polls of the cores read: each core that the
-- tables list behind the first is woken once, in their order, and the cores that count are one at
-- least and no more than the tables list.
pub wake_all_lem :
    (polls : ℕ → ℕ) (id : ℕ) (ids : List ℕ)
    → (Woken.stores (wake_all polls (id ∷ ids)) ≡ wakeups ids)
      × (0 < Woken.total_cores (wake_all polls (id ∷ ids)))
      × (Woken.total_cores (wake_all polls (id ∷ ids)) ≤ get_core_count (id ∷ ids))
unfolding wake_all get_core_count
wake_all_lem polls id ids =
    let start : Woken = record { total_cores = 1; stores = []; reads = 0 } in
    let rounds : suc (length ids) - 1 ≡ length ids = omega arith in
    let (stores, least, most) =
      wake_from_lem polls 10000000 (id ∷ ids) (length ids) 1 start (omega arith) in
    rw rounds (stores, omega (arith, least), omega (arith, most))
