-- ===== src/Gguf/Loader/Arrays.antt =====
-- `parse_value` on numbers, and its branches for arrays.
use fae.Prelude.{
  ℕ, zero, suc, ◌+◌, ◌*◌, ◌/◌, ◌%◌, ◌^◌, ◌<◌, ◌≡◌, refl, ap, ap₂, sym, ◌∙◌, arith, Bool, true,
  false, Option, none, some, List, [], ◌∷◌, ◌++◌, length, length-append, length-map, ltb, map,
  codes, Memory, load8, load32, load64, All, if◌then◌else◌, Bool-cases, inl, inr, u32, u64,
}
use fae.Gguf.Names.{key_match}
use fae.Gguf.Loader.{
  Slot, Loaded, set_uint32, set_int32, set_float32, set_bool, is_tokens, is_behind, fresh_slots,
  strings_from, scores_from, allocate_vocab, parse_strings, parse_floats, parse_value,
}
use fae.Gguf.Loader.Encoding.{
  Kind, uint8, int8, uint16, int16, uint32, int32, float32, bool, uint64, int64, float64, kind_code,
  kind_size, strings, numbers, encode_strings, encode_numbers, little, IsValue, Holds, Holds-at,
  Holds-append, load32-little, load64-little, length-little,
}
use fae.Gguf.Loader.Texts.{
  piece, named, scored, filled-named, strings_from-filled, strings_from-skips, strings_from-none,
  strings_from_unkept, scores_from-none, scores_from-scored, map-scored,
}
use fae.Gguf.Loader.View.{
  map_vocab, view, note_number, put_piece, unscored, note_strings, note_floats,
}

module _ (grants : ℕ → ℕ → Bool) (junk : ℕ → Slot) (m : Memory) where
  pub parse_value-number :
      (key : List ℕ) (p : ℕ) (s : Loaded) (kind : Kind) (n : ℕ)
      → n < 256 ^ kind_size kind
      → Holds m p (little (kind_size kind) n)
      → parse_value grants junk m (kind_code kind) key p s
        ≡ (p + kind_size kind, record s { params = note_number key kind n (Loaded.params s) })
  unfolding parse_value
  parse_value-number key p s uint8 n b h = refl
  parse_value-number key p s int8 n b h = refl
  parse_value-number key p s uint16 n b h = refl
  parse_value-number key p s int16 n b h = refl
  parse_value-number key p s uint32 n b h =
      ap (λ l. (p + 4, record s { params = set_uint32 key l (Loaded.params s) }))
        (load32-little m p n b h)
  parse_value-number key p s int32 n b h =
      ap (λ l. (p + 4, record s { params = set_int32 key l (Loaded.params s) }))
        (load32-little m p n b h)
  parse_value-number key p s float32 n b h =
      ap (λ l. (p + 4, record s { params = set_float32 key l (Loaded.params s) }))
        (load32-little m p n b h)
  parse_value-number key p s bool n b (byte, t) =
      let whole : load8 m p ≡ n = omega (arith, b, byte) in
      ap (λ l. (p + 1, record s { params = set_bool key l (Loaded.params s) })) whole
  parse_value-number key p s uint64 n b h = refl
  parse_value-number key p s int64 n b h = refl
  parse_value-number key p s float64 n b h = refl

  -- Behind the head of an array.
  pub Holds-array :
      (p type n : ℕ) (bytes : List ℕ)
      → type < 2 ^ 32
      → n < 2 ^ 64
      → Holds m p (little 4 type ++ (little 8 n ++ bytes))
      → (load32 m p ≡ type) × (load64 m (p + 4) ≡ n) × Holds m (p + 12) bytes
  Holds-array p type n bytes b c h =
      let (first, more) = Holds-append m p (little 4 type) (little 8 n ++ bytes) h in
      let (second, rest) = Holds-append m (p + 4) (little 8 n) bytes more in
      (
        load32-little m p type b first,
        load64-little m (p + 4) n c second,
        Holds-at m bytes (omega arith) rest,
      )

  pub length-encode_numbers :
      (size : ℕ) (xs : List ℕ) → length (encode_numbers size xs) ≡ length xs * size
  length-encode_numbers size [] = omega arith
  length-encode_numbers size (x ∷ xs) =
      length-append (little size x) (encode_numbers size xs)
      ∙ omega (arith, length-little size x, length-encode_numbers size xs)

  length-fresh_slots : (n : ℕ) → length (fresh_slots junk n) ≡ n
  unfolding fresh_slots
  length-fresh_slots zero = refl
  length-fresh_slots (suc n) = ap suc (length-fresh_slots n)

  -- Every piece has its new text, so only the scores of the slots are left to see.
  named_scores :
      (ts : List (List ℕ)) (slots : List Slot)
      → length ts ≡ length slots
      → named ts (map (piece m) slots) ≡ named ts (map (λ s. ([], Slot.score s)) slots)
  named_scores [] [] e = refl
  named_scores [] (s ∷ slots) e = absurd (omega (arith, e))
  named_scores (t ∷ ts) [] e = refl
  named_scores (t ∷ ts) (s ∷ slots) e =
      ap (λ l. (t, Slot.score s) ∷ l) (named_scores ts slots (omega (arith, e)))

  -- A new array has room for its tokens, and as much room for scores as it has pieces.
  not_behind :
      (granted : Bool) (n : ℕ)
      → is_behind (if granted then some (fresh_slots junk n) else none) n ≡ false
  not_behind false n = refl
  not_behind true n = ground (arith, length-fresh_slots n)

  is_behind-map :
      (v : Option (List Slot)) (n : ℕ) → is_behind (map_vocab (map (piece m)) v) n ≡ is_behind v n
  is_behind-map none n = refl
  is_behind-map (some slots) n = ap (λ k. ltb k n) (length-map slots (piece m))

  -- The loop over the tokens, on the new array.
  tokens-unscored :
      (granted : Bool) (p : ℕ) (ts : List (List ℕ))
      → All (λ t. length t < 2 ^ 32) ts
      → Holds m p (encode_strings ts)
      → map_vocab
          (map (piece m))
          (strings_from m true
            (length ts)
            0
            p
            (if granted then some (fresh_slots junk (length ts)) else none)).1
        ≡ (if granted then some (unscored grants junk ts) else none)
  tokens-unscored false p ts b h =
      ap (map_vocab (map (piece m))) (strings_from-none m true (length ts) p 0)
  tokens-unscored true p ts b h =
      let slots : List Slot = fresh_slots junk (length ts) in
      let e : length ts ≡ length slots = sym (length-fresh_slots (length ts)) in
      ap (map_vocab (map (piece m))) (strings_from-filled m [] slots p ts e b h)
      ∙ ap some (filled-named m p ts slots b h ∙ named_scores ts slots e)

  pub parse_strings-view :
      (key : List ℕ) (p : ℕ) (s : Loaded) (ts : List (List ℕ))
      → IsValue (strings ts)
      → Holds m p (encode_strings ts)
      → ((parse_strings grants junk m (length ts) key p s).0 ≡ p + length (encode_strings ts))
        × (view m (parse_strings grants junk m (length ts) key p s).1
            ≡ note_strings grants junk key ts (view m s))
  unfolding parse_strings allocate_vocab
  parse_strings-view key p s ts (b, bs) h = elim (Bool-cases (is_tokens key)) [
    | inl e ↦
        let size : u64 (length ts * 16) ≡ length ts * 16 = omega (arith, b) in
        let count : length ts * 16 / 16 ≡ length ts = omega arith in
        rw e (
          strings_from-skips m true p 0 _ ts bs h,
          rw (size, count, not_behind (grants 0 (length ts * 16)) (length ts))
              (ap
                (λ v. record {
                  params = record (Loaded.params s) { vocab_size = u32 (length ts) };
                  vocab = v;
                  is_overrun = Loaded.is_overrun s;
                })
                (tokens-unscored (grants 0 (length ts * 16)) p ts bs h)),
        )
    | inr e ↦ rw e (
      strings_from-skips m false p 0 _ ts bs h,
      ap (λ v. view m (record s { vocab = v }))
          (strings_from_unkept m (length ts) p 0 (Loaded.vocab s)),
    )
  ]

  scores-scored :
      (p : ℕ) (v : Option (List Slot)) (xs : List ℕ)
      → All (λ x. x < 2 ^ 32) xs
      → Holds m p (encode_numbers 4 xs)
      → map_vocab (map (piece m)) (scores_from m (length xs) 0 p v)
        ≡ map_vocab (scored put_piece xs) (map_vocab (map (piece m)) v)
  scores-scored p none xs b h = ap (map_vocab (map (piece m))) (scores_from-none m (length xs) p 0)
  scores-scored p (some slots) xs b h =
      ap (map_vocab (map (piece m))) (scores_from-scored m [] slots p xs b h)
      ∙ ap some
          (map-scored (piece m) (λ s x. record s { score = x }) put_piece xs slots (λ s x. refl))

  pub parse_floats-view :
      (key : List ℕ) (p : ℕ) (s : Loaded) (xs : List ℕ)
      → IsValue (numbers float32 xs)
      → Holds m p (encode_numbers 4 xs)
      → ((parse_floats grants junk m (length xs) key p s).0 ≡ p + length (encode_numbers 4 xs))
        × (view m (parse_floats grants junk m (length xs) key p s).1
            ≡ note_floats grants junk key xs (view m s))
  unfolding parse_floats
  parse_floats-view key p s xs (b, bs) h =
      let size : length xs * 4 % 2 ^ 64 ≡ length (encode_numbers 4 xs) =
        omega (arith, b, length-encode_numbers 4 xs) in
      (
        ap (λ l. p + l) size,
        elim (Bool-cases (key_match key (codes "tokenizer.ggml.scores"))) [
          | inl e ↦ rw e (
              ap₂
                (λ v b. record {
                  params = Loaded.params s;
                  vocab = v;
                  is_overrun = if b then true else Loaded.is_overrun s;
                })
                (scores-scored p (Loaded.vocab s) xs bs h)
                (sym (is_behind-map (Loaded.vocab s) (length xs))))
          | inr e ↦ rw e refl
        ],
      )
