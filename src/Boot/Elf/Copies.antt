-- ===== src/Boot/Elf/Copies.antt =====
-- What the two loops over a segment's bytes leave in memory: the read and the clearing.
use fae.Prelude.{
  ℕ, zero, suc, ◌+◌, ◌-◌, ◌<◌, ◌≡◌, ap, sym, ◌∙◌, arith, ◌&&◌, Bool-cases, inl, inr, ltb, leb,
  if◌then◌else◌, Memory,
}
use fae.CString.{store8}
use fae.Boot.Elf.{zero_bss, read_file}

-- Clearing clears the bytes of its range and no others.
pub zero_bss_lem :
    (p n : ℕ) (m : Memory) (a : ℕ)
    → zero_bss p n m a ≡ (if leb p a && ltb a (p + n) then 0 else m a)
unfolding zero_bss
zero_bss_lem p zero m a = ground arith
zero_bss_lem p (suc n) m a = zero_bss_lem (p + 1) n (store8 m p 0) a ∙ ground arith

pub read_file_lem :
    (file : ℕ → ℕ) (offset p n : ℕ) (m : Memory) (a : ℕ)
    → read_file file offset p n m a
      ≡ (if leb p a && ltb a (p + n) then file (offset + (a - p)) else m a)
unfolding read_file
read_file_lem file offset p zero m a = ground arith
read_file_lem file offset p (suc n) m a =
    read_file_lem file (offset + 1) (p + 1) n (store8 m p (file offset)) a
    ∙ elim (Bool-cases (ltb p a)) [
      | inl behind ↦
          let past : p < a = ground (arith, behind) in
          let same : offset + 1 + (a - (p + 1)) ≡ offset + (a - p) = omega (arith, past) in
          ap
            (λ i. if leb (p + 1) a && ltb a (p + 1 + n) then file i else store8 m p (file offset) a)
            same
          ∙ ground (arith, behind)
      | inr before ↦
          let first : offset + (a - p) ≡ offset = ground (arith, before) in
          ground (arith, before)
          ∙ ap (λ i. if leb p a && ltb a (p + suc n) then file i else m a) (sym first)
    ]
