-- ===== src/Pmm/Init/Bounds.antt =====
-- What `pmm_init` puts into the free list, and that the list never outgrows its array.
use fae.Prelude.{
  ℕ, zero, suc, ◌+◌, ◌*◌, ◌%◌, ◌<◌, ◌≤◌, ◌≡◌, inl, inr, arith, false, List, [], ◌∷◌, ◌++◌, ltb,
  length, Bool-cases, All, All-append,
}
use fae.Pmm.{page_size, max_free_blocks}
use fae.Pmm.Init.{Range, contains, is_skipped, add_blocks}

-- A block that the loops of `pmm_init` may list: a whole page of the entry's range, at a multiple
-- of the page size, from 1 MB and the kernel's end on, starting outside the taken ranges.
pub record IsUsable (kernel_end : ℕ) (taken : List Range) (addr len block : ℕ) : Type 0 where
  pub aligned : block % page_size ≡ 0
  pub from : addr ≤ block
  pub upto : block + page_size ≤ addr + len
  pub above_kernel : kernel_end ≤ block
  pub above_low : 0x100000 ≤ block
  pub outside : All (λ r. contains r block ≡ false) taken

not_skipped :
    (kernel_end : ℕ) (taken : List Range) (block : ℕ)
    → is_skipped kernel_end taken block ≡ false
    → (kernel_end ≤ block) × (0x100000 ≤ block) × All (λ r. contains r block ≡ false) taken
unfolding is_skipped
not_skipped kernel_end [] block e = ground arith
not_skipped kernel_end (r ∷ taken) block e = elim (Bool-cases (contains r block)) [
  | inl inside ↦ absurd (cc (rw inside at e))
  | inr outside ↦
      let rest = not_skipped kernel_end taken block (rw outside at e) in
      (rest.0, rest.1, (outside, rest.2))
]

module _ (kernel_end : ℕ) (taken : List Range) (addr len : ℕ) where
  -- The loop from `block` on lists only whole pages of the range, behind what is there.
  pub add_blocks-IsUsable :
      (P : ℕ → Type 0)
      → ((b : ℕ) → IsUsable kernel_end taken addr len b → P b)
      → (left block : ℕ) (bs : List ℕ) → block % page_size ≡ 0
      → addr ≤ block
      → (0 < left → block + left * page_size ≤ addr + len)
      → All P bs
      → All P (add_blocks kernel_end taken left block bs)
  unfolding add_blocks
  add_blocks-IsUsable P use_ zero block bs a f u h = h
  add_blocks-IsUsable P use_ (suc left) block bs a f u h =
      elim (Bool-cases (is_skipped kernel_end taken block)) [
        | inl skip ↦ rw skip (
            add_blocks-IsUsable P use_ left (block + page_size) bs (omega arith) (omega arith)
              (λ z. omega (arith, u (omega arith))) h)
        | inr keep ↦ elim (Bool-cases (ltb (length bs) max_free_blocks)) [
          | inr full ↦ rw (keep, full) h
          | inl room ↦
              let (k, l, o) = not_skipped kernel_end taken block keep in
              let good : IsUsable kernel_end taken addr len block = record {
                aligned = a;
                from = f;
                upto = omega (arith, u (omega arith));
                above_kernel = k;
                above_low = l;
                outside = o;
              } in
              rw (keep, room)
                (add_blocks-IsUsable P use_ left (block + page_size) (bs ++ (block ∷ []))
                  (omega arith) (omega arith) (λ z. omega (arith, u (omega arith)))
                  (All-append P bs (block ∷ []) h (use_ block good, tt)))
        ]
      ]
