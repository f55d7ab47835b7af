-- ===== src/Gguf/Loader/Texts.antt =====
-- The loops of `parse_value` over the tokens and their scores, on arrays that hold them.
use fae.Prelude.{
  ℕ, zero, suc, ◌+◌, ◌%◌, ◌^◌, ◌<◌, ◌≤◌, ◌≡◌, refl, ap, ap₂, sym, ◌∙◌, arith, Bool, true, false,
  Option, none, some, List, [], ◌∷◌, ◌++◌, append_assoc, append-nil, length, length-append, set,
  get_or, map, Memory, load32, load64, All, if◌then◌else◌,
}
use fae.Gguf.Loader.{Slot, no_slot, put_token, put_score, bytes_at, strings_from, scores_from}
pub use fae.Prelude.Layout.{bytes_at-Holds}
use fae.Gguf.Loader.Encoding.{
  Holds, Holds-append, load64-little, load32-little, little, encode_string, encode_strings,
  encode_numbers,
}

-- A token as the tokenizer sees it: its text and its score.
abbrev pub Piece : Type 0
Piece = List ℕ × ℕ

-- The slots with new texts.
abbrev pub filled : ℕ → List (List ℕ) → List Slot → List Slot
filled p [] slots = slots
filled p (t ∷ ts) [] = []
filled p (t ∷ ts) (s ∷ slots) =
    record s { str = p + 8; len = length t } ∷ filled (p + 8 + length t) ts slots

-- The slots with new scores.
abbrev pub scored {ℓ} : {A : Type ℓ} → (A → ℕ → A) → List ℕ → List A → List A
scored put [] slots = slots
scored put (x ∷ xs) [] = []
scored put (x ∷ xs) (s ∷ slots) = put s x ∷ scored put xs slots

-- The pieces with new texts, and their old scores.
abbrev pub named : List (List ℕ) → List Piece → List Piece
named [] pieces = pieces
named (t ∷ ts) [] = []
named (t ∷ ts) ((_, x) ∷ pieces) = (t, x) ∷ named ts pieces

module _ {A : Type 0} where
  set-append :
      (pre rest : List A) (s t : A) → set (pre ++ s ∷ rest) (length pre) t ≡ pre ++ t ∷ rest
  set-append [] rest s t = refl
  set-append (x ∷ pre) rest s t = ap (λ l. x ∷ l) (set-append pre rest s t)

  get_or-append : (pre rest : List A) (s d : A) → get_or (pre ++ s ∷ rest) (length pre) d ≡ s
  get_or-append [] rest s d = refl
  get_or-append (x ∷ pre) rest s d = get_or-append pre rest s d

  set_beyond : (xs : List A) (i : ℕ) (t : A) → length xs ≤ i → set xs i t ≡ xs
  set_beyond [] i t h = refl
  set_beyond (x ∷ xs) zero t h = absurd (omega arith)
  set_beyond (x ∷ xs) (suc i) t h = ap (λ l. x ∷ l) (set_beyond xs i t (omega arith))

  snoc : (pre rest : List A) (s : A) → (pre ++ s ∷ []) ++ rest ≡ pre ++ s ∷ rest
  snoc pre rest s = append_assoc pre (s ∷ []) rest

put_token-append :
    (pre rest : List Slot) (s : Slot) (str len : ℕ)
    → len < 2 ^ 32
    → put_token (some (pre ++ s ∷ rest)) (length pre) str len
      ≡ some (pre ++ record s { str = str; len = len } ∷ rest)
unfolding put_token
put_token-append pre rest s str len b =
    let whole : len % 2 ^ 32 ≡ len = omega (arith, b) in
    ap₂ (λ old l. some (set (pre ++ s ∷ rest) (length pre) (record old { str = str; len = l })))
      (get_or-append pre rest s no_slot) whole
    ∙ ap some (set-append pre rest s (record s { str = str; len = len }))

put_score-append :
    (pre rest : List Slot) (s : Slot) (x : ℕ)
    → put_score (some (pre ++ s ∷ rest)) (length pre) x
      ≡ some (pre ++ record s { score = x } ∷ rest)
unfolding put_score
put_score-append pre rest s x =
    ap (λ old. some (set (pre ++ s ∷ rest) (length pre) (record old { score = x })))
      (get_or-append pre rest s no_slot)
    ∙ ap some (set-append pre rest s (record s { score = x }))

length-snoc : (pre : List Slot) (s : Slot) → length (pre ++ s ∷ []) ≡ length pre + 1
length-snoc pre s = length-append pre (s ∷ [])

module _ (m : Memory) where
  abbrev pub piece : Slot → Piece
  piece s = (bytes_at m (Slot.str s) (Slot.len s), Slot.score s)

  -- A text in memory: its length, its bytes, and what follows it.
  pub Holds-string :
      (p : ℕ) (text rest : List ℕ)
      → length text < 2 ^ 32
      → Holds m p (encode_string text ++ rest)
      → (load64 m p ≡ length text) × Holds m (p + 8) text × Holds m (p + 8 + length text) rest
  Holds-string p text rest b h =
      let (size, more) = Holds-append m p (little 8 (length text)) (text ++ rest) h in
      let (bytes, behind) = Holds-append m (p + 8) text rest more in
      (load64-little m p (length text) (omega (arith, b)) size, bytes, behind)

  pub filled-named :
      (p : ℕ) (ts : List (List ℕ)) (slots : List Slot)
      → All (λ t. length t < 2 ^ 32) ts
      → Holds m p (encode_strings ts)
      → map piece (filled p ts slots) ≡ named ts (map piece slots)
  filled-named p [] slots b h = refl
  filled-named p (t ∷ ts) [] b h = refl
  filled-named p (t ∷ ts) (s ∷ slots) (b, bs) h =
      let (e, text, rest) = Holds-string p t (encode_strings ts) b h in
      ap₂ ◌∷◌ (ap (λ l. (l, Slot.score s)) (bytes_at-Holds m (p + 8) t text))
        (filled-named (p + 8 + length t) ts slots bs rest)

  strings_from-next :
      (keep : Bool) (n i p len : ℕ) (v : Option (List Slot))
      → load64 m p ≡ len
      → strings_from m keep (suc n) i p v
        ≡ strings_from m keep n
            (i + 1)
            (p + 8 + len)
            (if keep then put_token v i (p + 8) len else v)
  unfolding strings_from
  strings_from-next keep n i p len v e =
      ap
        (λ l.
          strings_from m keep n (i + 1) (p + 8 + l) (if keep then put_token v i (p + 8) l else v))
        e

  pub strings_from-filled :
      (pre slots : List Slot) (p : ℕ) (ts : List (List ℕ))
      → length ts ≡ length slots
      → All (λ t. length t < 2 ^ 32) ts
      → Holds m p (encode_strings ts)
      → (strings_from m true (length ts) (length pre) p (some (pre ++ slots))).1
        ≡ some (pre ++ filled p ts slots)
  unfolding strings_from put_token
  strings_from-filled pre slots p [] e b h = refl
  strings_from-filled pre [] p (t ∷ ts) e b h = absurd (omega (arith, e))
  strings_from-filled pre (s ∷ slots) p (t ∷ ts) e (b, bs) h =
      let (len, text, rest) = Holds-string p t (encode_strings ts) b h in
      let new : Slot = record s { str = p + 8; len = length t } in
      let next =
        strings_from-filled (pre ++ new ∷ []) slots (p + 8 + length t) ts (omega (arith, e)) bs
          rest in
      ap (λ l. l.1)
        (strings_from-next true (length ts) (length pre) p (length t) (some (pre ++ s ∷ slots)) len)
      ∙ ap₂ (λ v i. (strings_from m true (length ts) i (p + 8 + length t) v).1)
          (put_token-append pre slots s (p + 8) (length t) b ∙ ap some (sym (snoc pre slots new)))
          (sym (length-snoc pre new))
      ∙ next
      ∙ ap some (snoc pre (filled (p + 8 + length t) ts slots) new)

  pub strings_from-skips :
      (keep : Bool) (p i : ℕ) (v : Option (List Slot)) (ts : List (List ℕ))
      → All (λ t. length t < 2 ^ 32) ts
      → Holds m p (encode_strings ts)
      → (strings_from m keep (length ts) i p v).0 ≡ p + length (encode_strings ts)
  unfolding strings_from
  strings_from-skips keep p i v [] b h = omega arith
  strings_from-skips keep p i v (t ∷ ts) (b, bs) h =
      let (len, text, rest) = Holds-string p t (encode_strings ts) b h in
      let next =
        strings_from-skips keep (p + 8 + length t) (i + 1)
          (if keep then put_token v i (p + 8) (length t) else v) ts bs rest in
      ap (λ l. l.0) (strings_from-next keep (length ts) i p (length t) v len)
      ∙ (next ∙ rw (length-append t (encode_strings ts)) (omega arith))

  -- Without an array nothing is stored.
  pub strings_from-none : (keep : Bool) (n p i : ℕ) → (strings_from m keep n i p none).1 ≡ none
  unfolding strings_from put_token
  strings_from-none keep zero p i = refl
  strings_from-none true (suc n) p i = strings_from-none true n _ (i + 1)
  strings_from-none false (suc n) p i = strings_from-none false n _ (i + 1)

  pub strings_from_unkept :
      (n p i : ℕ) (v : Option (List Slot)) → (strings_from m false n i p v).1 ≡ v
  unfolding strings_from
  strings_from_unkept zero p i v = refl
  strings_from_unkept (suc n) p i v = strings_from_unkept n _ (i + 1) v

  pub scores_from-none : (n p i : ℕ) → scores_from m n i p none ≡ none
  unfolding scores_from put_score
  scores_from-none zero p i = refl
  scores_from-none (suc n) p i = scores_from-none n (p + 4) (i + 1)

  scores_from_beyond :
      (n p i : ℕ) (slots : List Slot)
      → length slots ≤ i
      → scores_from m n i p (some slots) ≡ some slots
  unfolding scores_from put_score
  scores_from_beyond zero p i slots h = refl
  scores_from_beyond (suc n) p i slots h =
      rw (set_beyond slots i (record (get_or slots i no_slot) { score = load32 m p }) h)
        (scores_from_beyond n (p + 4) (i + 1) slots (omega arith))

  pub scores_from-scored :
      (pre slots : List Slot) (p : ℕ) (xs : List ℕ)
      → All (λ x. x < 2 ^ 32) xs
      → Holds m p (encode_numbers 4 xs)
      → scores_from m (length xs) (length pre) p (some (pre ++ slots))
        ≡ some (pre ++ scored (λ s x. record s { score = x }) xs slots)
  unfolding scores_from put_score
  scores_from-scored pre slots p [] b h = refl
  scores_from-scored pre [] p (x ∷ xs) b h =
      scores_from_beyond (suc (length xs)) p (length pre) (pre ++ [])
        (rw (append-nil pre) (omega arith))
  scores_from-scored pre (s ∷ slots) p (x ∷ xs) (b, bs) h =
      let (word, rest) = Holds-append m p (little 4 x) (encode_numbers 4 xs) h in
      let len : load32 m p ≡ x = load32-little m p x b word in
      let new : Slot = record s { score = x } in
      let next = scores_from-scored (pre ++ new ∷ []) slots (p + 4) xs bs rest in
      ap
        (λ l.
          scores_from m (length xs) (length pre + 1) (p + 4)
            (put_score (some (pre ++ s ∷ slots)) (length pre) l))
        len
      ∙ ap₂ (λ v i. scores_from m (length xs) i (p + 4) v)
          (put_score-append pre slots s x ∙ ap some (sym (snoc pre slots new)))
          (sym (length-snoc pre new))
      ∙ next
      ∙ ap some (snoc pre (scored (λ t y. record t { score = y }) xs slots) new)

-- Scores on slots and on pieces.
pub map-scored :
    {A B : Type 0} (f : A → B) (put : A → ℕ → A) (put' : B → ℕ → B) (xs : List ℕ) (slots : List A)
    → ((a : A) (x : ℕ) → f (put a x) ≡ put' (f a) x)
    → map f (scored put xs slots) ≡ scored put' xs (map f slots)
map-scored f put put' [] slots e = refl
map-scored f put put' (x ∷ xs) [] e = refl
map-scored f put put' (x ∷ xs) (s ∷ slots) e = ap₂ ◌∷◌ (e s x) (map-scored f put put' xs slots e)
