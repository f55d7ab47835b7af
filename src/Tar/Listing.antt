-- ===== src/Tar/Listing.antt =====
-- `tar_list` against the searches of tar.c.
use fae.Prelude.{
  ℕ, zero, suc, ◌+◌, ◌<◌, ◌≡◌, ◌≢◌, inl, inr, refl, arith, [], ◌∷◌, Bool, false, Option, some, List,
  Memory, ltb, ◌==◌, Bool-cases,
}
use fae.Tar.{
  Tar, Found, missing, next_header, file_size, answer, search_from, list_from, tar_list,
  tar_find_file, search_suffix, is_same, has_suffix,
}
use fae.CString.{strlen, strcmp}

-- The first entry of a listing for which a test answers with true.
pub first_hit : Memory → (ℕ → Option Bool) → List (ℕ × ℕ × ℕ) → Found
first_hit m test [] = missing
first_hit m test ((p, size, flag) ∷ es) = answer m (test p) p (first_hit m test es)

-- A walk with enough fuel lists the headers that each search goes along.
list_from-search_from :
    (m : Memory) (end fuel p : ℕ)
    → end < p + fuel
    → 0 < fuel
    → (es : List (ℕ × ℕ × ℕ)) × (list_from m end fuel p ≡ some es)
      × ((test : ℕ → Option Bool) → search_from m test end fuel p ≡ first_hit m test es)
unfolding list_from search_from first_hit
list_from-search_from m end zero p f some_fuel = absurd (omega arith)
list_from-search_from m end (suc fuel) p f some_fuel = elim (Bool-cases (ltb p end)) [
  | inr out ↦ ([], rw out refl, λ test. rw out refl)
  | inl more ↦ elim (Bool-cases (m p == 0)) [
    | inl last ↦ ([], rw (more, last) refl, λ test. rw (more, last) refl)
    | inr open_ ↦
        let p_lt : p < end = ground arith in
        let (es, e, h) =
          list_from-search_from m end fuel (next_header m p) (omega arith) (omega arith) in
        (
          (p, file_size m p, m (p + 156)) ∷ es,
          rw (more, open_, e) refl,
          λ test. rw (more, open_, h test) refl,
        )
  ]
]

-- `tar_list` over a mounted archive always comes to its end, whatever bytes the archive holds, and
-- both searches find the first file of its listing that they look for, or NULL when it has none;
-- a name that is longer than the fuel for comparing leaves them without an answer.
pub tar_list-first_hit :
    (m : Memory) (t : Tar)
    → Tar.start t ≢ 0
    → (es : List (ℕ × ℕ × ℕ)) × (tar_list m t ≡ some es)
      × ((n filename : ℕ)
          → tar_find_file m t n filename
            ≡ first_hit m (λ ptr. is_same (strcmp m n ptr filename)) es)
      × ((n suffix : ℕ)
          → search_suffix m t n suffix
            ≡ first_hit m (λ ptr. has_suffix m n suffix ptr (strlen m n ptr)) es)
unfolding tar_list tar_find_file search_suffix
tar_list-first_hit m t ne =
    let mounted : (Tar.start t == 0) ≡ false = ground arith in
    let (es, e, h) =
      list_from-search_from m (Tar.start t + Tar.len t) (Tar.len t + 1) (Tar.start t) (omega arith)
        (omega arith) in
    (es, rw (mounted, e) refl, λ n filename. rw mounted (h _), λ n suffix. h _)
