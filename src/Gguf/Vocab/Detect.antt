-- ===== src/Gguf/Vocab/Detect.antt =====
-- gguf.c, the choice of the tokenizer in `build_vocab_hash_table`: a vocabulary with U+2581 in one of its
-- tokens is a SentencePiece one. `add_bos_token` is an `int`, -1 before the metadata sets it.
use fae.Prelude.{
  ℕ, zero, suc, ◌≡◌, ◌↔◌, ◌⊎◌, refl, ap, ap₂, sym, ◌∙◌, arith, Bool, true, false, ◌&&◌, Bool-cases,
  inl, inr, List, [], ◌∷◌, ◌++◌, ◌==◌, if◌then◌else◌, Member,
}
use fae.Prelude.Int.{ℤ, pos, negsuc}
use fae.Gguf.Vocab.{Vocab}

-- The bytes of U+2581.
abbrev pub mark : List ℕ
mark = 0xE2 ∷ 0x96 ∷ 0x81 ∷ []

-- The loop over the bytes of a token of three bytes at least.
pub has_mark : List ℕ → Bool
has_mark [] = false
has_mark (a ∷ []) = false
has_mark (a ∷ b ∷ []) = false
has_mark (a ∷ b ∷ c ∷ bs) =
    let rest = has_mark (b ∷ c ∷ bs) in if a == 0xE2 && b == 0x96 && c == 0x81 then true else rest

-- The loop over the vocabulary.
pub detect : Vocab → Bool
unfolding has_mark
detect [] = false
detect (t ∷ ts) = if has_mark t then true else detect ts

-- `if (add_bos_token == -1) add_bos_token = is_sentencepiece ? 1 : 0;`
pub default_bos : Bool → ℤ → ℤ
default_bos is_sentencepiece (negsuc zero) = if is_sentencepiece then pos 1 else pos 0
default_bos is_sentencepiece add_bos_token = add_bos_token

-- `is_sentencepiece` and `add_bos_token` behind `build_vocab_hash_table`, by the answer of its
-- `malloc` and their values before: without the table the function returns before the detection.
pub set_tokenizer : Bool → Bool → ℤ → Vocab → Bool × ℤ
unfolding detect default_bos
set_tokenizer is_granted is_sentencepiece add_bos_token v =
    if is_granted
    then (detect v, default_bos (detect v) add_bos_token)
    else (is_sentencepiece, add_bos_token)

has_mark_sound :
    (t : List ℕ) → has_mark t ≡ true → (before after : List ℕ) × (t ≡ before ++ (mark ++ after))
unfolding has_mark
has_mark_sound [] e = cc
has_mark_sound (a ∷ []) e = cc
has_mark_sound (a ∷ b ∷ []) e = cc
has_mark_sound (a ∷ b ∷ c ∷ bs) e = elim (Bool-cases (a == 0xE2 && b == 0x96 && c == 0x81)) [
  | inl y ↦
      let ea : a ≡ 0xE2 = ground (arith, y) in
      let eb : b ≡ 0x96 = ground (arith, y) in
      let ec : c ≡ 0x81 = ground (arith, y) in
      ([], bs, ap₂ (λ x z. x ∷ z ∷ c ∷ bs) ea eb ∙ ap (λ z. 0xE2 ∷ 0x96 ∷ z ∷ bs) ec)
  | inr n ↦
      let (before, after, split) = has_mark_sound (b ∷ c ∷ bs) (rw n at e) in
      (a ∷ before, after, ap (λ l. a ∷ l) split)
]

later : (a b c : ℕ) (bs : List ℕ) → has_mark (b ∷ c ∷ bs) ≡ true → has_mark (a ∷ b ∷ c ∷ bs) ≡ true
unfolding has_mark
later a b c bs e = elim (Bool-cases (a == 0xE2 && b == 0x96 && c == 0x81)) [
  | inl y ↦ rw y refl
  | inr n ↦ rw n e
]

has_mark_complete : (before after : List ℕ) → has_mark (before ++ (mark ++ after)) ≡ true
unfolding has_mark
has_mark_complete [] after = refl
has_mark_complete (a ∷ []) after = later a 0xE2 0x96 (0x81 ∷ after) (has_mark_complete [] after)
has_mark_complete (a ∷ b ∷ []) after =
    later a b 0xE2 (0x96 ∷ 0x81 ∷ after) (has_mark_complete (b ∷ []) after)
has_mark_complete (a ∷ b ∷ c ∷ before) after =
    later a b c (before ++ (mark ++ after)) (has_mark_complete (b ∷ c ∷ before) after)

sound :
    (v : Vocab)
    → detect v ≡ true
    → (t before after : List ℕ) × Member t v × (t ≡ before ++ (mark ++ after))
unfolding detect
sound [] e = cc
sound (t ∷ ts) e = elim (Bool-cases (has_mark t)) [
  | inl y ↦ let (before, after, split) = has_mark_sound t y in (t, before, after, inl refl, split)
  | inr n ↦
      let (u, before, after, member, split) = sound ts (rw n at e) in
      (u, before, after, inr member, split)
]

complete :
    (v : Vocab) (t before after : List ℕ)
    → Member t v
    → t ≡ before ++ (mark ++ after)
    → detect v ≡ true
unfolding detect
complete [] t before after m e = absurd m
complete (u ∷ ts) t before after (inl s) e =
    let here : has_mark u ≡ true = ap has_mark (sym s ∙ e) ∙ has_mark_complete before after in
    rw here refl
complete (u ∷ ts) t before after (inr m) e = elim (Bool-cases (has_mark u)) [
  | inl y ↦ rw y refl
  | inr n ↦ rw n (complete ts t before after m e)
]

-- The loop finds a mark just when a token of the vocabulary holds the bytes of U+2581.
detect_lem :
    (v : Vocab)
    → (detect v ≡ true) ↔ ((t before after : List ℕ) × Member t v × (t ≡ before ++ (mark ++ after)))
unfolding detect
detect_lem v = (sound v, λ h. complete v h.0 h.1 h.2 h.3 h.4)

-- A token of the vocabulary holds the bytes of U+2581.
abbrev pub IsMarked : Vocab → Type 0
IsMarked v = (t before after : List ℕ) × Member t v × (t ≡ before ++ (mark ++ after))

-- What `add_bos_token` is after it: -1 becomes 1 or 0 with the table, any other value stays.
abbrev pub BosAfter : Bool → ℤ → Vocab → ℤ → Type 0
BosAfter true (negsuc zero) v bos = ((bos ≡ pos 1) × IsMarked v) ⊎ ((bos ≡ pos 0) × ¬ (IsMarked v))
BosAfter true (negsuc (suc n)) v bos = bos ≡ negsuc (suc n)
BosAfter true (pos n) v bos = bos ≡ pos n
BosAfter false before v bos = bos ≡ before

defaulted : (before : ℤ) (v : Vocab) → BosAfter true before v (default_bos (detect v) before)
unfolding default_bos
defaulted (pos n) v = refl
defaulted (negsuc (suc n)) v = refl
defaulted (negsuc zero) v = elim (Bool-cases (detect v)) [
  | inl e ↦ rw e (inl (refl, (detect_lem v).0 e))
  | inr e ↦ rw e (inr (refl, λ h. cc ((detect_lem v).1 h, e)))
]

-- `build_vocab_hash_table` leaves `is_sentencepiece` set just when its table was allocated and a
-- token of the vocabulary holds the bytes of U+2581, or when the table was not allocated and it was
-- set before. With the table, an `add_bos_token` of -1 becomes 1 when a token holds these bytes
-- and 0 when none does; any other value stays, and without the table -1 too.
pub set_tokenizer_lem :
    (is_granted was_set : Bool) (bos : ℤ) (v : Vocab)
    → (((set_tokenizer is_granted was_set bos v).0 ≡ true)
        ↔ (((is_granted ≡ true) × IsMarked v) ⊎ ((is_granted ≡ false) × (was_set ≡ true))))
      × BosAfter is_granted bos v (set_tokenizer is_granted was_set bos v).1
unfolding set_tokenizer
set_tokenizer_lem false was_set bos v =
    ((λ e. inr (refl, e), λ h. elim h [ inl (a, b) ↦ absurd (cc a) | inr (a, b) ↦ b ]), refl)
set_tokenizer_lem true was_set bos v = (
  (
    λ e. inl (refl, (detect_lem v).0 e),
    λ h. elim h [ inl (a, b) ↦ (detect_lem v).1 b | inr (a, b) ↦ absurd (cc a) ],
  ),
  defaulted bos v,
)
