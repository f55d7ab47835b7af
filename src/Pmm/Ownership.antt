-- ===== src/Pmm/Ownership.antt =====
-- The page manager and those who hold its pages: no page is lost, and none is given out twice.
use fae.Prelude.{
  ℕ, ◌+◌, ◌-◌, ◌%◌, ◌<◌, ◌≤◌, ◌≡◌, refl, sym, subst, ap, arith, true, false, some, List, [], ◌∷◌,
  ◌++◌, length, count, All, All-append, All-of_append, length-append, count-append, get_elem?, leb,
  ltb,
}
use fae.Pmm.{Pmm, page_size, max_free_blocks, pop_last, alloc_page, alloc_contiguous, free_page}
use fae.Pmm.Contiguous.{pages, alloc_contiguous-Takes}

pop_last-append :
    (bs : List ℕ) {a : ℕ} → get_elem? bs (length bs - 1) ≡ some a → bs ≡ pop_last bs ++ (a ∷ [])
unfolding pop_last
pop_last-append [] e = ground arith
pop_last-append (x ∷ []) e = ground arith
pop_last-append (x ∷ y ∷ bs) e = ap (λ l. x ∷ l) (pop_last-append (y ∷ bs) (ground arith))

-- A page that is returned was the top of the stack.
pub alloc_page-some :
    (p : Pmm) (a : ℕ) {p' : Pmm} → alloc_page p ≡ (some a, p') → p.blocks ≡ p'.blocks ++ (a ∷ [])
unfolding alloc_page
alloc_page-some p a e = ground (arith, pop_last-append p.blocks {a = a})

free_page-push :
    (p : Pmm) (a : ℕ)
    → a % page_size ≡ 0
    → length p.blocks < max_free_blocks
    → (free_page p a).blocks ≡ p.blocks ++ (a ∷ [])
unfolding free_page
free_page-push p a h k = ground arith

-- The free list, and the pages that were given out and not yet given back.
pub record World : Type 0 where
  pub pmm : Pmm
  pub held : List ℕ

-- What the kernel does with pages: it takes one, takes several in a row, or gives one back that it
-- holds.
pub data Step : World → World → Type 0 where
  take_page :
      {p p' : Pmm} {held : List ℕ} (a : ℕ)
      → alloc_page p ≡ (some a, p')
      → Step (record { pmm = p; held = held }) (record { pmm = p'; held = a ∷ held })
  take_pages :
      {p p' : Pmm} {held : List ℕ} (n a : ℕ)
      → 2 ≤ n
      → alloc_contiguous p n ≡ (some a, p')
      → Step (record { pmm = p; held = held }) (record { pmm = p'; held = pages a n ++ held })
  give_back :
      {p : Pmm} (a : ℕ) (before after : List ℕ)
      → Step
          (record { pmm = p; held = before ++ (a ∷ after) })
          (record { pmm = free_page p a; held = before ++ after })

pub data Reach (w : World) : World → Type 0 where
  start : Reach w w
  then_ : {u v : World} → Reach w u → Step u v → Reach w v

abbrev pub IsAligned : ℕ → Type 0
IsAligned a = a % page_size ≡ 0

-- Each page of `all` is free or held, as often as it is in `all`, and no other is.
pub record Accounts (all : List ℕ) (w : World) : Type 0 where
  pub each : (x : ℕ) → count x w.pmm.blocks + count x w.held ≡ count x all
  pub size : length w.pmm.blocks + length w.held ≡ length all
  pub free_aligned : All IsAligned w.pmm.blocks
  pub held_aligned : All IsAligned w.held

Step-Accounts :
    {all : List ℕ} {v w : World}
    → length all ≤ max_free_blocks
    → Step v w
    → Accounts all v
    → Accounts all w
Step-Accounts {all} room (take_page {p} {p'} {held} a e) h =
    let top = alloc_page-some p a e in
    let parts =
      All-of_append IsAligned p'.blocks (a ∷ []) (subst (All IsAligned) top h.free_aligned) in
    record {
      each = λ x. omega (arith, h.each x, ap (count x) top, count-append x p'.blocks (a ∷ []));
      size = omega (arith, h.size, ap length top, length-append p'.blocks (a ∷ []));
      free_aligned = parts.0;
      held_aligned = (parts.1.0, h.held_aligned);
    }
Step-Accounts {all} room (take_pages {p} {p'} {held} n a two e) h =
    let t = alloc_contiguous-Takes p n a two e in
    let outer =
      All-of_append IsAligned t.below (pages a n ++ t.above)
        (subst (All IsAligned) t.before h.free_aligned) in
    let inner = All-of_append IsAligned (pages a n) t.above outer.1 in
    record {
      each = λ x. omega (
        arith,
        h.each x,
        ap (count x) t.before,
        ap (count x) t.after,
        count-append x t.below (pages a n ++ t.above),
        count-append x (pages a n) t.above,
        count-append x t.below t.above,
        count-append x (pages a n) held,
      );
      size = omega (
        arith,
        h.size,
        ap length t.before,
        ap length t.after,
        length-append t.below (pages a n ++ t.above),
        length-append (pages a n) t.above,
        length-append t.below t.above,
        length-append (pages a n) held,
      );
      free_aligned =
          subst (All IsAligned) (sym t.after)
            (All-append IsAligned t.below t.above outer.0 inner.1);
      held_aligned = All-append IsAligned (pages a n) held inner.0 h.held_aligned;
    }
Step-Accounts {all} room (give_back {p} a before after) h =
    let parts = All-of_append IsAligned before (a ∷ after) h.held_aligned in
    let pushed : (free_page p a).blocks ≡ p.blocks ++ (a ∷ []) =
      free_page-push p a parts.1.0 (omega (arith, h.size, length-append before (a ∷ after))) in
    record {
      each = λ x. omega (
        arith,
        h.each x,
        ap (count x) pushed,
        count-append x p.blocks (a ∷ []),
        count-append x before (a ∷ after),
        count-append x before after,
      );
      size = omega (
        arith,
        h.size,
        ap length pushed,
        length-append p.blocks (a ∷ []),
        length-append before (a ∷ after),
        length-append before after,
      );
      free_aligned =
          subst (All IsAligned) (sym pushed)
            (All-append IsAligned p.blocks (a ∷ []) h.free_aligned (parts.1.0, tt));
      held_aligned = All-append IsAligned before after parts.0 parts.1.1;
    }

-- From a state that accounts for a set of aligned pages that the array can hold, whatever the
-- kernel takes and gives back, every page stays free or held exactly as often as at first: none is
-- lost, and a page that is there once is never held twice or held while it is free.
pub Reach-Accounts :
    {all : List ℕ} {v w : World}
    → length all ≤ max_free_blocks
    → Accounts all v
    → Reach v w
    → Accounts all w
Reach-Accounts room h start = h
Reach-Accounts room h (then_ r s) = Step-Accounts room s (Reach-Accounts room h r)

pop_last-push : (bs : List ℕ) (a : ℕ) → pop_last (bs ++ (a ∷ [])) ≡ bs
unfolding pop_last
pop_last-push [] a = refl
pop_last-push (x ∷ []) a = refl
pop_last-push (x ∷ y ∷ bs) a = ap (λ l. x ∷ l) (pop_last-push (y ∷ bs) a)

get_elem?-push : (bs : List ℕ) (a : ℕ) → get_elem? (bs ++ (a ∷ [])) (length bs) ≡ some a
get_elem?-push [] a = refl
get_elem?-push (x ∷ bs) a = get_elem?-push bs a

-- An aligned page given back while the array has room is the next one that `pmm_alloc_page`
-- returns, and then the state is as before.
pub alloc_page-free_page :
    (p : Pmm) (a : ℕ)
    → IsAligned a
    → length p.blocks < max_free_blocks
    → alloc_page (free_page p a) ≡ (some a, p)
unfolding alloc_page free_page
alloc_page-free_page p a h room =
    let last : length (p.blocks ++ (a ∷ [])) - 1 ≡ length p.blocks =
      omega (arith, length-append p.blocks (a ∷ [])) in
    let some_left : leb (length (p.blocks ++ (a ∷ []))) 0 ≡ false =
      ground (arith, length-append p.blocks (a ∷ [])) in
    let pushes : (ltb (length p.blocks) max_free_blocks) ≡ true = ground arith in
    rw (h, pushes, some_left, last, get_elem?-push p.blocks a, pop_last-push p.blocks a)
