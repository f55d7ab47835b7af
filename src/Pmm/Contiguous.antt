-- ===== src/Pmm/Contiguous.antt =====
-- `pmm_alloc_contiguous` takes the first run of adjacent pages out of the free list.
use fae.Prelude.{
  ℕ, zero, suc, ◌+◌, ◌-◌, ◌<◌, ◌≤◌, ◌≡◌, refl, sym, ◌≢◌, arith, true, false, none, some, List, [],
  ◌∷◌, ◌++◌, ◌∙◌, inl, inr, length, get_or, take, drop, u32, u64, ltb, ◌^◌, ap, Bool-cases,
  take-append-drop, length-append,
}
use mathlib.Core.Path.{subst₂}
use fae.Pmm.{Pmm, page_size, is_next, run_from, find_run, run_starts, alloc_contiguous}

-- The addresses of `n` adjacent pages from `a` on.
abbrev pub pages : ℕ → ℕ → List ℕ
pages a zero = []
pages a (suc n) = a ∷ pages (u64 (a + page_size)) n

drop-cons : (bs : List ℕ) (i : ℕ) → i < length bs → drop i bs ≡ get_or bs i 0 ∷ drop (suc i) bs
drop-cons [] i h = absurd (omega arith)
drop-cons (x ∷ bs) zero h = refl
drop-cons (x ∷ bs) (suc i) h = drop-cons bs i (omega arith)

-- A run that is found is a stretch of adjacent pages.
run_from-pages :
    (bs : List ℕ) (i left : ℕ)
    → i + left < length bs
    → run_from bs i left ≡ true
    → drop i bs ≡ pages (get_or bs i 0) (suc left) ++ drop (i + suc left) bs
unfolding run_from
run_from-pages bs i zero h r =
    let next : suc i ≡ i + 1 = omega arith in
    drop-cons bs i (omega arith) ∙ ap (λ k. get_or bs i 0 ∷ drop k bs) next
run_from-pages bs i (suc left) h r = elim (Bool-cases (is_next bs i)) [
  | inr apart ↦ absurd (cc (rw (apart) at r))
  | inl close ↦
      let rest : run_from bs (i + 1) left ≡ true = rw close at r in
      let step : get_or bs (i + 1) 0 ≡ u64 (get_or bs i 0 + page_size) = ground arith in
      let there : i + 1 + suc left ≡ i + suc (suc left) = omega arith in
      let next : suc i ≡ i + 1 = omega arith in
      drop-cons bs i (omega arith)
      ∙ ap (λ l. get_or bs i 0 ∷ l)
          (rw (next, ← step, ← there) (run_from-pages bs (i + 1) left (omega arith) rest))
]

-- A run ends inside the list.
run_from-lt :
    (bs : List ℕ) (i left : ℕ) → run_from bs i (suc left) ≡ true → i + suc left < length bs
unfolding run_from
run_from-lt bs i zero r = elim (Bool-cases (is_next bs i)) [
  | inr apart ↦ absurd (cc (rw apart at r))
  | inl close ↦ ground (arith, close)
]
run_from-lt bs i (suc left) r = elim (Bool-cases (is_next bs i)) [
  | inr apart ↦ absurd (cc (rw apart at r))
  | inl close ↦
      let rest : run_from bs (i + 1) (suc left) ≡ true = rw close at r in
      omega (arith, run_from-lt bs (i + 1) left rest)
]

-- Nothing is found only where no start in the range begins a run.
find_run-some :
    (bs : List ℕ) (count i left j : ℕ)
    → find_run bs count i left ≡ some j
    → (i ≤ j) × (j < i + left) × (run_from bs j (count - 1) ≡ true)
unfolding find_run
find_run-some bs count i zero j e = cc
find_run-some bs count i (suc left) j e = ground (arith, find_run-some bs count (i + 1) left j)

find_run-none :
    (bs : List ℕ) (count i left j : ℕ)
    → find_run bs count i left ≡ none
    → i ≤ j
    → j < i + left
    → run_from bs j (count - 1) ≡ false
unfolding find_run
find_run-none bs count i zero j e h k = absurd (omega arith)
find_run-none bs count i (suc left) j e h k = ground (arith, find_run-none bs count (i + 1) left j)

run_from-cons :
    (x : ℕ) (bs : List ℕ) (i left : ℕ) → run_from (x ∷ bs) (suc i) left ≡ run_from bs i left
unfolding run_from
run_from-cons x bs i zero = refl
run_from-cons x bs i (suc left) =
    let next : suc i + 1 ≡ suc (i + 1) = omega arith in
    let inside : ltb (suc (i + 1)) (suc (length bs)) ≡ ltb (i + 1) (length bs) = ground arith in
    rw (next, inside, run_from-cons x bs (i + 1) left)

run_from-append :
    (pre bs : List ℕ) (left : ℕ) → run_from (pre ++ bs) (length pre) left ≡ run_from bs 0 left
run_from-append [] bs left = refl
run_from-append (x ∷ pre) bs left =
    run_from-cons x (pre ++ bs) (length pre) left ∙ run_from-append pre bs left

-- The loop accepts a run at its start.
run_from_start : (a left : ℕ) (suf : List ℕ) → run_from (pages a (suc left) ++ suf) 0 left ≡ true
unfolding run_from
run_from_start a zero suf = refl
run_from_start a (suc left) suf = ground (
  arith,
  run_from-cons a (pages (u64 (a + page_size)) (suc left) ++ suf) 0 left,
  run_from_start (u64 (a + page_size)) left suf,
)

-- `Takes p count a p'`: the free list of `p` has the `count` adjacent pages from `a` on side by
-- side, and that of `p'` is what is left when exactly these go. Nothing else changes.
pub record Takes (p : Pmm) (count a : ℕ) (p' : Pmm) : Type 0 where
  pub below : List ℕ
  pub above : List ℕ
  pub before : p.blocks ≡ below ++ (pages a count ++ above)
  pub after : p'.blocks ≡ below ++ above
  pub ram : p'.total_ram_bytes ≡ p.total_ram_bytes

take_run :
    (p : Pmm) (n i : ℕ)
    → i + n < length p.blocks
    → run_from p.blocks i n ≡ true
    → Takes p
        (suc n)
        (get_or p.blocks i 0)
        (record p { blocks = take i p.blocks ++ drop (i + suc n) p.blocks })
take_run p n i h r = record {
  below = take i p.blocks;
  above = drop (i + suc n) p.blocks;
  before = rw (← run_from-pages p.blocks i n h r) (sym (take-append-drop i p.blocks));
  after = refl;
  ram = refl;
}

find_run_of_alloc :
    (p : Pmm) (n a : ℕ) {p' : Pmm}
    → alloc_contiguous p (suc (suc n)) ≡ (some a, p')
    → (i : ℕ) × (find_run p.blocks (suc (suc n)) 0 (run_starts (length p.blocks) (suc (suc n)))
        ≡ some i)
      × (a ≡ get_or p.blocks i 0)
      × (p' ≡ record p { blocks = take i p.blocks ++ drop (i + suc (suc n)) p.blocks })
unfolding alloc_contiguous
find_run_of_alloc p n a e = ground arith

-- When `pmm_alloc_contiguous` of two pages or more returns an address, so many adjacent pages from
-- it on were side by side in the free list, and the list without exactly these is what it leaves.
pub alloc_contiguous-Takes :
    (p : Pmm) (count a : ℕ) {p' : Pmm}
    → 2 ≤ count
    → alloc_contiguous p count ≡ (some a, p')
    → Takes p count a p'
alloc_contiguous-Takes p zero a h e = absurd (omega arith)
alloc_contiguous-Takes p (suc zero) a h e = absurd (omega arith)
alloc_contiguous-Takes p (suc (suc n)) a {p'} h e =
    let (i, f, ea, ep) = find_run_of_alloc p n a e in
    let (lo, hi, run) = find_run-some p.blocks (suc (suc n)) 0 _ i f in
    let less : suc (suc n) - 1 ≡ suc n = omega arith in
    subst₂ (λ x q. Takes p (suc (suc n)) x q) (sym ea) (sym ep)
      (take_run p (suc n) i (run_from-lt p.blocks i n (rw less at run)) (rw less at run))

length-pages : (a n : ℕ) → length (pages a n) ≡ n
length-pages a zero = refl
length-pages a (suc n) = ap suc (length-pages (u64 (a + page_size)) n)

run_starts-lt : (n count k : ℕ) → k + count ≤ n → k < 0 + run_starts n count
run_starts-lt n count k h = elim (Bool-cases (ltb (u32 count) (2 ^ 31))) [
  | inl e ↦ rw e (omega (arith, h))
  | inr e ↦ rw e (omega (arith, h))
]

no_run :
    (bs : List ℕ) (n a : ℕ) (below above : List ℕ)
    → find_run bs (suc (suc n)) 0 (run_starts (length bs) (suc (suc n))) ≡ none
    → bs ≢ below ++ (pages a (suc (suc n)) ++ above)
no_run bs n a below above f e =
    let less : suc (suc n) - 1 ≡ suc n = omega arith in
    let size : length bs ≡ length below + (suc (suc n) + length above) =
      ap length e
      ∙ length-append below (pages a (suc (suc n)) ++ above)
      ∙ omega (arith, length-append (pages a (suc (suc n))) above, length-pages a (suc (suc n))) in
    let refused : run_from bs (length below) (suc n) ≡ false = rw less at (
      find_run-none bs (suc (suc n)) 0 _ (length below) f (omega arith)
        (run_starts-lt (length bs) (suc (suc n)) (length below) (omega (arith, size)))) in
    let passed : run_from bs (length below) (suc n) ≡ true = rw e (
      run_from-append below (pages a (suc (suc n)) ++ above) (suc n)
      ∙ run_from_start a (suc n) above) in
    cc

not_found :
    (p : Pmm) (n : ℕ)
    → (alloc_contiguous p (suc (suc n))).0 ≡ none
    → ((alloc_contiguous p (suc (suc n))).1 ≡ p)
      × (find_run p.blocks (suc (suc n)) 0 (run_starts (length p.blocks) (suc (suc n))) ≡ none)
unfolding alloc_contiguous
not_found p n e = ground arith

-- For two pages or more, NULL is returned only when no such stretch is in the free list, wherever
-- it would start, and then nothing changes.
pub alloc_contiguous-none :
    (p : Pmm) (count a : ℕ) (below above : List ℕ)
    → 2 ≤ count
    → (alloc_contiguous p count).0 ≡ none
    → ((alloc_contiguous p count).1 ≡ p) × (p.blocks ≢ below ++ (pages a count ++ above))
alloc_contiguous-none p zero a below above h e = absurd (omega arith)
alloc_contiguous-none p (suc zero) a below above h e = absurd (omega arith)
alloc_contiguous-none p (suc (suc n)) a below above h e =
    ((not_found p n e).0, no_run p.blocks n a below above (not_found p n e).1)
