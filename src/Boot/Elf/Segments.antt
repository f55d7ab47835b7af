-- ===== src/Boot/Elf/Segments.antt =====
-- What memory holds after the segments have been loaded.
use fae.Prelude.{
  ℕ, ◌+◌, ◌-◌, ◌^◌, ◌<◌, ◌≤◌, ◌≡◌, ◌≢◌, ◌⊎◌, inl, inr, refl, ap, sym, ◌∙◌, subst, arith, true,
  false, ◌&&◌, Bool-cases, Option, none, some, List, [], ◌∷◌, ltb, leb, ◌==◌, if◌then◌else◌, All,
  Member, Memory, u32,
}
use fae.Boot.Elf.{Phdr, zero_bss, read_file, load_segment, load_segments}
use fae.Boot.Elf.Copies.{zero_bss_lem, read_file_lem}

-- A header of a segment to load: the bytes in the file are part of the memory, which ends below 4 GB,
-- and the firmware reads all of them.
abbrev pub IsSegment : (Phdr → Option ℕ) → Phdr → Type 0
IsSegment read h =
    (Phdr.p_type h ≡ 1)
    × (Phdr.p_filesz h ≤ Phdr.p_memsz h)
    × (Phdr.p_paddr h + Phdr.p_memsz h < 2 ^ 32)
    × (read h ≡ some (Phdr.p_filesz h))

-- A header that the loop can take: of a segment to load, or of another type.
abbrev pub IsHeader : (Phdr → Option ℕ) → Phdr → Type 0
IsHeader read h = IsSegment read h ⊎ (Phdr.p_type h ≢ 1)

-- Two headers whose segments do not overlap, or that are not both of segments to load.
abbrev pub Apart : Phdr → Phdr → Type 0
Apart h k =
    ((Phdr.p_type h ≢ 1) ⊎ (Phdr.p_type k ≢ 1))
    ⊎ ((Phdr.p_paddr h + Phdr.p_memsz h ≤ Phdr.p_paddr k)
        ⊎ (Phdr.p_paddr k + Phdr.p_memsz k ≤ Phdr.p_paddr h))

abbrev pub Disjoint : List Phdr → Type 0
Disjoint [] = Unit
Disjoint (h ∷ hs) = All (Apart h) hs × Disjoint hs

-- What an address of a segment holds: a byte of the file, or 0 behind its end.
abbrev pub segment_byte : (ℕ → ℕ) → Phdr → ℕ → ℕ
segment_byte file h a =
    if ltb a (Phdr.p_paddr h + Phdr.p_filesz h)
    then file (Phdr.p_offset h + (a - Phdr.p_paddr h))
    else 0

with_bss :
    (p fs ms a v w : ℕ)
    → fs ≤ ms
    → (if leb (p + fs) a && ltb a (p + fs + (ms - fs))
        then 0
        else if leb p a && ltb a (p + fs)
        then v
        else w)
      ≡ (if leb p a && ltb a (p + ms) then if ltb a (p + fs) then v else 0 else w)
with_bss p fs ms a v w h = ground (arith, h)

without_bss :
    (p fs ms a v w : ℕ)
    → fs ≤ ms
    → ltb fs ms ≡ false
    → (if leb p a && ltb a (p + fs) then v else w)
      ≡ (if leb p a && ltb a (p + ms) then if ltb a (p + fs) then v else 0 else w)
without_bss p fs ms a v w h e = ground (arith, h, e)

inside : (p n a v w : ℕ) → p ≤ a → a < p + n → (if leb p a && ltb a (p + n) then v else w) ≡ v
inside p n a v w lo hi = ground (arith, lo, hi)

-- An address that the header does not load.
abbrev Outside : ℕ → Phdr → Type 0
Outside a h = (Phdr.p_type h ≢ 1) ⊎ ((a < Phdr.p_paddr h) ⊎ (Phdr.p_paddr h + Phdr.p_memsz h ≤ a))

outside : (p n a v w : ℕ) → (a < p) ⊎ (p + n ≤ a) → (if leb p a && ltb a (p + n) then v else w) ≡ w
outside p n a v w (inl h) = ground (arith, h)
outside p n a v w (inr h) = ground (arith, h)

Apart-Outside :
    (h k : Phdr) (a : ℕ)
    → Apart h k
    → Phdr.p_type h ≡ 1
    → Phdr.p_paddr h ≤ a
    → a < Phdr.p_paddr h + Phdr.p_memsz h
    → Outside a k
Apart-Outside h k a (inl (inl n)) load lo hi = absurd (n load)
Apart-Outside h k a (inl (inr n)) load lo hi = inl n
Apart-Outside h k a (inr (inl e)) load lo hi = inr (inl (omega (arith, e, hi)))
Apart-Outside h k a (inr (inr e)) load lo hi = inr (inr (omega (arith, e, lo)))

All-Apart :
    (hs : List Phdr) (h : Phdr) (a : ℕ)
    → All (Apart h) hs
    → Phdr.p_type h ≡ 1
    → Phdr.p_paddr h ≤ a
    → a < Phdr.p_paddr h + Phdr.p_memsz h
    → All (Outside a) hs
All-Apart [] h a d load lo hi = tt
All-Apart (k ∷ hs) h a (e, d) load lo hi =
    (Apart-Outside h k a e load lo hi, All-Apart hs h a d load lo hi)

read_back : {a b : Memory} → some a ≡ some b → a ≡ b
read_back {a} e = ap (λ o. elim o [ none ↦ a | some x ↦ x ]) e

-- What memory holds at an address behind a round that loads a segment.
abbrev with_segment : (ℕ → ℕ) → Phdr → Memory → Memory
with_segment file h m a =
    if leb (Phdr.p_paddr h) a && ltb a (Phdr.p_paddr h + Phdr.p_memsz h)
    then segment_byte file h a
    else m a

module _ (file : ℕ → ℕ) (read : Phdr → Option ℕ) where
  load_segment_lem :
      (h : Phdr) (m : Memory)
      → IsSegment read h
      → (m' : Memory) × (load_segment file read h m ≡ some m')
        × ((a : ℕ) → m' a ≡ with_segment file h m a)
  unfolding load_segment
  load_segment_lem h m (load, part, below, whole) =
      let p : ℕ = Phdr.p_paddr h in
      let fs : ℕ = Phdr.p_filesz h in
      let ms : ℕ = Phdr.p_memsz h in
      let loaded : Memory = read_file file (Phdr.p_offset h) p fs m in
      let is_load : (Phdr.p_type h == 1) ≡ true = ap (λ t. t == 1) load in
      let bss : u32 (p + fs) ≡ p + fs = omega (arith, part, below) in
      elim (Bool-cases (ltb fs ms)) [
        | inl rest ↦ (
          zero_bss (p + fs) (ms - fs) loaded,
          rw (is_load, whole, rest, bss) refl,
          λ a.
              zero_bss_lem (p + fs) (ms - fs) loaded a
              ∙ ap (λ l. if leb (p + fs) a && ltb a (p + fs + (ms - fs)) then 0 else l)
                  (read_file_lem file (Phdr.p_offset h) p fs m a)
              ∙ with_bss p fs ms a (file (Phdr.p_offset h + (a - p))) (m a) part,
        )
        | inr none_ ↦ (
          loaded,
          rw (is_load, whole, none_) refl,
          λ a.
              read_file_lem file (Phdr.p_offset h) p fs m a
              ∙ without_bss p fs ms a (file (Phdr.p_offset h + (a - p))) (m a) part none_,
        )
      ]

  -- A round: what it makes of memory, and what it leaves.
  round_lem :
      (h : Phdr) (m : Memory)
      → IsHeader read h
      → (m' : Memory) × (load_segment file read h m ≡ some m')
        × ((a : ℕ) → Outside a h → m' a ≡ m a)
        × ((a : ℕ)
            → Phdr.p_type h ≡ 1
            → Phdr.p_paddr h ≤ a
            → a < Phdr.p_paddr h + Phdr.p_memsz h
            → m' a ≡ segment_byte file h a)
  unfolding load_segment
  round_lem h m (inr other) =
      let skip : (Phdr.p_type h == 1) ≡ false = ground (arith, other) in
      (m, rw skip refl, λ a o. refl, λ a load lo hi. absurd (other load))
  round_lem h m (inl s) =
      let (m', e, each) = load_segment_lem h m s in
      (
        m',
        e,
        λ a o. each a ∙ elim o [
          | inl n ↦ absurd (n s.0)
          | inr away ↦ outside (Phdr.p_paddr h) (Phdr.p_memsz h) a _ (m a) away
        ],
        λ a load lo hi. each a ∙ inside (Phdr.p_paddr h) (Phdr.p_memsz h) a _ (m a) lo hi,
      )

  load_segments-untouched :
      (hs : List Phdr) (m : Memory)
      → All (IsHeader read) hs
      → (m' : Memory) × (load_segments file read hs m ≡ some m')
        × ((a : ℕ) → All (Outside a) hs → m' a ≡ m a)
  unfolding load_segments
  load_segments-untouched [] m ss = (m, refl, λ a o. refl)
  load_segments-untouched (h ∷ hs) m (s, ss) =
      let (m1, e1, keep1, _) = round_lem h m s in
      let (m2, e2, keep2) = load_segments-untouched hs m1 ss in
      (m2, rw e1 e2, λ a (o, os). keep2 a os ∙ keep1 a o)

  segments_loaded :
      (hs : List Phdr) (m : Memory)
      → All (IsHeader read) hs
      → Disjoint hs
      → (m' : Memory) × (load_segments file read hs m ≡ some m')
        × ((h : Phdr) (a : ℕ)
            → Member h hs
            → Phdr.p_type h ≡ 1
            → Phdr.p_paddr h ≤ a
            → a < Phdr.p_paddr h + Phdr.p_memsz h
            → m' a ≡ segment_byte file h a)
  unfolding load_segments
  segments_loaded [] m ss ds = (m, refl, λ h a r load lo hi. absurd r)
  segments_loaded (k ∷ hs) m (s, ss) (d, ds) =
      let (m1, e1, _, load1) = round_lem k m s in
      let (m2, e2, keep2) = load_segments-untouched hs m1 ss in
      let (m3, e3, each3) = segments_loaded hs m1 ss ds in
      let same : m3 ≡ m2 = read_back (sym e3 ∙ e2) in
      (
        m3,
        rw e1 e3,
        λ h a r load lo hi. elim r [
          | inr later ↦ each3 h a later load lo hi
          | inl e ↦
              let load_ = subst (λ x. Phdr.p_type x ≡ 1) e load in
              let lo_ = subst (λ x. Phdr.p_paddr x ≤ a) e lo in
              let hi_ = subst (λ x. a < Phdr.p_paddr x + Phdr.p_memsz x) e hi in
              ap (λ n. n a) same
              ∙ keep2 a (All-Apart hs k a d load_ lo_ hi_)
              ∙ load1 a load_ lo_ hi_
              ∙ ap (λ x. segment_byte file x a) (sym e)
        ],
      )

-- Where the segments to load do not overlap and the firmware reads their bytes, the loop comes to
-- its end, and then each address of such a segment holds the byte of the file that its header says,
-- or 0 behind the segment's part of the file. Headers of other types are passed over.
pub load_segments-Member :
    (file : ℕ → ℕ) (read : Phdr → Option ℕ) (hs : List Phdr) (m : Memory) (h : Phdr) (a : ℕ)
    → All (IsHeader read) hs
    → Disjoint hs
    → Member h hs
    → Phdr.p_type h ≡ 1
    → Phdr.p_paddr h ≤ a
    → a < Phdr.p_paddr h + Phdr.p_memsz h
    → (m' : Memory) × (load_segments file read hs m ≡ some m') × (m' a ≡ segment_byte file h a)
load_segments-Member file read hs m h a ss ds r load lo hi =
    let (m', e, each) = segments_loaded file read hs m ss ds in (m', e, each h a r load lo hi)
