-- ===== src/Pmm/Init/Complete.antt =====
-- `pmm_init` lists every usable block of an entry while there is room, also one that a module
-- begins in the middle of.
use fae.Prelude.{
  ℕ, zero, suc, ◌+◌, ◌-◌, ◌*◌, ◌/◌, ◌%◌, ◌^◌, ◌<◌, ◌≤◌, ◌≡◌, ◌≢◌, refl, ◌⊎◌, inl, inr, arith, true,
  false, List, [], ◌∷◌, ◌++◌, ltb, length, length-append, u64, align_down, Bool-cases, All,
  All-of_Member, Member, Member-append_left, Member-append_right,
}
use fae.Pmm.{Pmm, page_size, max_free_blocks}
use fae.Pmm.Init.{Range, contains, is_skipped, add_blocks, add_entry}
use fae.Pmm.Init.Bounds.{IsUsable, add_blocks-IsUsable}

is_skipped-false :
    (kernel_end : ℕ) (taken : List Range) (block : ℕ)
    → kernel_end ≤ block
    → 0x100000 ≤ block
    → All (λ r. contains r block ≡ false) taken
    → is_skipped kernel_end taken block ≡ false
unfolding is_skipped
is_skipped-false kernel_end [] block k l o = ground arith
is_skipped-false kernel_end (r ∷ taken) block k l (o, os) =
    rw o (is_skipped-false kernel_end taken block k l os)

module _ (kernel_end : ℕ) (taken : List Range) where
  -- What is in the list stays there.
  add_blocks-keeps :
      (b left block : ℕ) (bs : List ℕ)
      → Member b bs
      → Member b (add_blocks kernel_end taken left block bs)
  unfolding add_blocks
  add_blocks-keeps b zero block bs h = h
  add_blocks-keeps b (suc left) block bs h = elim (Bool-cases (is_skipped kernel_end taken block)) [
    | inl skip ↦ rw skip (add_blocks-keeps b left (block + page_size) bs h)
    | inr keep ↦ elim (Bool-cases (ltb (length bs) max_free_blocks)) [
      | inr full ↦ rw (keep, full) h
      | inl room ↦
          rw (keep, room)
            (add_blocks-keeps b left (block + page_size) (bs ++ (block ∷ []))
              (Member-append_left b bs (block ∷ []) h))
    ]
  ]

  -- With room for every round, each block of the loop that is not skipped is listed.
  add_blocks-lists :
      (n left block : ℕ) (bs : List ℕ)
      → n < left
      → length bs + left ≤ max_free_blocks
      → is_skipped kernel_end taken (block + n * page_size) ≡ false
      → Member (block + n * page_size) (add_blocks kernel_end taken left block bs)
  unfolding add_blocks
  add_blocks-lists n zero block bs h r s = absurd (omega arith)
  add_blocks-lists zero (suc left) block bs h r s =
      let here : block + 0 * page_size ≡ block = omega arith in
      let room : ltb (length bs) max_free_blocks ≡ true = ground arith in
      let kept : is_skipped kernel_end taken block ≡ false = rw here at s in
      rw (here, kept, room)
        (add_blocks-keeps block left (block + page_size) (bs ++ (block ∷ []))
          (Member-append_right block bs (block ∷ []) (inl refl)))
  add_blocks-lists (suc n) (suc left) block bs h r s =
      let there : block + suc n * page_size ≡ block + page_size + n * page_size = omega arith in
      let later : is_skipped kernel_end taken (block + page_size + n * page_size) ≡ false =
        rw there at s in
      elim (Bool-cases (is_skipped kernel_end taken block)) [
        | inl skip ↦
            rw (there, skip)
              (add_blocks-lists n left (block + page_size) bs (omega arith) (omega arith) later)
        | inr keep ↦
            let room : ltb (length bs) max_free_blocks ≡ true = ground arith in
            rw (there, keep, room)
              (add_blocks-lists n left (block + page_size) (bs ++ (block ∷ [])) (omega arith)
                (omega (arith, length-append bs (block ∷ []))) later)
      ]

-- One usable entry, in a map that ends a page below the top of the address space, with room in the
-- array for all its pages: what was listed stays, every listed block was listed or is usable, and
-- every usable block is listed.
pub record Adds (kernel_end : ℕ) (taken : List Range) (addr len : ℕ) (p p' : Pmm) : Type 0 where
  pub keeps : (b : ℕ) → Member b p.blocks → Member b p'.blocks
  pub sound : All (λ b. Member b p.blocks ⊎ IsUsable kernel_end taken addr len b) p'.blocks
  pub complete : (b : ℕ) → IsUsable kernel_end taken addr len b → Member b p'.blocks
  pub ram : p'.total_ram_bytes ≡ u64 (p.total_ram_bytes + len)

-- A usable entry of the memory map whose end, rounded up to a page, does not wrap, and a free list
-- with room for as many pages as the entry's length holds: the list keeps what it had, and gets
-- exactly the whole pages of the entry, at multiples of the page size, that lie above 1 MB and the
-- kernel and start outside the taken ranges; the RAM count grows by the entry's length.
pub add_entry-Adds :
    (kernel_end : ℕ) (taken : List Range) (addr len : ℕ) (p : Pmm)
    → addr + len + page_size ≤ 2 ^ 64
    → length p.blocks + len / page_size ≤ max_free_blocks
    → Adds kernel_end taken addr len p (add_entry kernel_end taken addr len 1 p)
unfolding add_entry
add_entry-Adds kernel_end taken addr len p fits room = record {
  keeps = λ b m. add_blocks-keeps kernel_end taken b _ _ p.blocks m;
  sound =
      add_blocks-IsUsable kernel_end taken addr len
        (λ b. Member b p.blocks ⊎ IsUsable kernel_end taken addr len b) (λ b u. inr u)
        ((end - start) / page_size) start p.blocks (omega arith) (omega arith) (λ z. omega arith)
        (All-of_Member _ p.blocks (λ b m. inl m));
  complete = λ b u.
      let n = (b - start) / page_size in
      let there : b ≡ start + n * page_size = omega (arith, u.aligned, u.from, u.upto) in
      let kept : is_skipped kernel_end taken b ≡ false =
        is_skipped-false kernel_end taken b u.above_kernel u.above_low u.outside in
      rw there (
        add_blocks-lists kernel_end taken n ((end - start) / page_size) start p.blocks
          (omega (arith, u.aligned, u.from, u.upto)) (omega arith) (rw there at kept));
  ram = refl;
}
  where
    start : ℕ
    start = align_down page_size (u64 (addr + (page_size - 1)))

    end : ℕ
    end = align_down page_size (u64 (addr + len))

-- A module that starts inside a page does not take that page out of the map: with the page usable
-- but for the module, `pmm_init` lists the page that holds the module's first byte as free.
pub add_entry_overlaps_module :
    (kernel_end addr len : ℕ) (mod_range : Range) (p : Pmm)
    → mod_range.first % page_size ≢ 0
    → kernel_end ≤ align_down page_size mod_range.first
    → 0x100000 ≤ align_down page_size mod_range.first
    → addr ≤ align_down page_size mod_range.first
    → align_down page_size mod_range.first + page_size ≤ addr + len
    → addr + len + page_size ≤ 2 ^ 64
    → length p.blocks + len / page_size ≤ max_free_blocks
    → (b : ℕ) × Member b (add_entry kernel_end (mod_range ∷ []) addr len 1 p).blocks
      × (b ≤ mod_range.first)
      × (mod_range.first < b + page_size)
add_entry_overlaps_module kernel_end addr len mod_range p off k l f u fits room = (
  align_down page_size mod_range.first,
  (add_entry-Adds kernel_end (mod_range ∷ []) addr len p fits room).complete _ (record {
    aligned = omega arith;
    from = f;
    upto = u;
    above_kernel = k;
    above_low = l;
    outside = (ground arith, tt);
  }),
  omega arith,
  omega arith,
)
