-- ===== src/Gguf/Loader/Metadata.antt =====
-- The loop over the metadata finds what a writer has put there.
use fae.Prelude.{
  ℕ, suc, ◌+◌, ◌*◌, ◌%◌, ◌^◌, ◌<◌, ◌≤◌, ◌≡◌, refl, subst, ap, ap₂, sym, ◌∙◌, arith, Bool, true,
  false, List, [], ◌∷◌, ◌++◌, length, length-append, codes, Memory, load32, load64, All,
  if◌then◌else◌, u32,
}
use native.Mathlib.Nat.{mul-le-mul_left}
use fae.Gguf.Names.{key_match}
use fae.Gguf.Loader.{
  Slot, Loaded, elem_size, bytes_at, parse_strings, parse_array, parse_value, set_alignment,
  parse_pairs,
}
use fae.Gguf.Loader.Encoding.{
  Kind, uint8, int8, uint16, int16, uint32, int32, float32, bool, uint64, int64, float64, kind_code,
  kind_size, Value, number, string, strings, numbers, value_code, encode_value, encode_string,
  encode_strings, encode_numbers, little, Entry, encode_entry, encode_entries, IsValue, Holds,
  Holds-at, Holds-append, load32-little, load64-little, length-little,
}
use fae.Gguf.Loader.Texts.{bytes_at-Holds, Holds-string}
use fae.Gguf.Loader.View.{view, note_value, note_alignment, number_of, note_entries, IsEntry}
use fae.Gguf.Loader.Arrays.{
  parse_value-number, Holds-array, parse_strings-view, parse_floats-view, length-encode_numbers,
}

if_map :
    {A B : Type 0} (f : A → B) (b : Bool) (x y : A) (z : B)
    → (b ≡ true → f x ≡ z)
    → f (if b then x else y) ≡ (if b then z else f y)
if_map f true x y z h = h refl
if_map f false x y z h = refl

module _ (grants : ℕ → ℕ → Bool) (junk : ℕ → Slot) (m : Memory) where
  -- An array of numbers other than floats is stepped over.
  numbers_skip :
      (size p : ℕ) (xs : List ℕ)
      → length xs < 2 ^ 60
      → size ≤ 8
      → p + length xs * size % 2 ^ 64 ≡ p + length (encode_numbers size xs)
  numbers_skip size p xs b small =
      let product : length xs * size ≤ length xs * 8 = mul-le-mul_left (length xs) small in
      let count = length-encode_numbers grants junk m size xs in omega (arith, b, product, count)

  parse_array-numbers :
      (key : List ℕ) (p : ℕ) (s : Loaded) (kind : Kind) (xs : List ℕ)
      → IsValue (numbers kind xs)
      → Holds m p (encode_numbers (kind_size kind) xs)
      → ((parse_array grants junk m (kind_code kind) (length xs) key p s).0
          ≡ p + length (encode_numbers (kind_size kind) xs))
        × (view m (parse_array grants junk m (kind_code kind) (length xs) key p s).1
            ≡ note_value grants junk key (numbers kind xs) (view m s))
  unfolding parse_array elem_size
  parse_array-numbers key p s uint8 xs (b, bs) h = (numbers_skip 1 p xs b (omega arith), refl)
  parse_array-numbers key p s int8 xs (b, bs) h = (numbers_skip 1 p xs b (omega arith), refl)
  parse_array-numbers key p s uint16 xs (b, bs) h = (numbers_skip 2 p xs b (omega arith), refl)
  parse_array-numbers key p s int16 xs (b, bs) h = (numbers_skip 2 p xs b (omega arith), refl)
  parse_array-numbers key p s uint32 xs (b, bs) h = (numbers_skip 4 p xs b (omega arith), refl)
  parse_array-numbers key p s int32 xs (b, bs) h = (numbers_skip 4 p xs b (omega arith), refl)
  parse_array-numbers key p s float32 xs (b, bs) h =
      parse_floats-view grants junk m key p s xs (b, bs) h
  parse_array-numbers key p s bool xs (b, bs) h = (numbers_skip 1 p xs b (omega arith), refl)
  parse_array-numbers key p s uint64 xs (b, bs) h = (numbers_skip 8 p xs b (omega arith), refl)
  parse_array-numbers key p s int64 xs (b, bs) h = (numbers_skip 8 p xs b (omega arith), refl)
  parse_array-numbers key p s float64 xs (b, bs) h = (numbers_skip 8 p xs b (omega arith), refl)

  kind_code-lt : (kind : Kind) → kind_code kind < 2 ^ 32
  kind_code-lt kind = ground arith

  parse_value-view :
      (key : List ℕ) (p : ℕ) (s : Loaded) (value : Value)
      → IsValue value
      → Holds m p (encode_value value)
      → ((parse_value grants junk m (value_code value) key p s).0 ≡ p + length (encode_value value))
        × (view m (parse_value grants junk m (value_code value) key p s).1
            ≡ note_value grants junk key value (view m s))
  unfolding parse_value parse_array elem_size
  parse_value-view key p s (number kind n) b h =
      let e = parse_value-number grants junk m key p s kind n b h in
      (
        ap (λ r. r.0) e ∙ ap (λ l. p + l) (sym (length-little (kind_size kind) n)),
        ap (λ r. view m r.1) e,
      )
  parse_value-view key p s (string text) b h =
      let (size, more) = Holds-append m p (little 8 (length text)) text h in
      (
        ap (λ l. p + 8 + l) (load64-little m p (length text) (omega (arith, b)) size) ∙ omega arith,
        refl,
      )
  parse_value-view key p s (strings ts) (b, bs) h =
      let (type, count, rest) =
        Holds-array grants junk m p 8 (length ts) (encode_strings ts) (omega arith)
          (omega (arith, b)) h in
      let (at, seen) = parse_strings-view grants junk m key (p + 12) s ts (b, bs) rest in
      let e : parse_value grants junk m 9 key p s
          ≡ parse_strings grants junk m (length ts) key (p + 12) s =
        ap₂ (λ t n. parse_array grants junk m t n key (p + 12) s) type count in
      (ap (λ r. r.0) e ∙ at ∙ omega arith, ap (λ r. view m r.1) e ∙ seen)
  parse_value-view key p s (numbers kind xs) (b, bs) h =
      let (type, count, rest) =
        Holds-array grants junk m p (kind_code kind) (length xs) _ (kind_code-lt kind)
          (omega (arith, b)) h in
      let (at, seen) = parse_array-numbers key (p + 12) s kind xs (b, bs) rest in
      let e : parse_value grants junk m 9 key p s
          ≡ parse_array grants junk m (kind_code kind) (length xs) key (p + 12) s =
        ap₂ (λ t n. parse_array grants junk m t n key (p + 12) s) type count in
      (ap (λ r. r.0) e ∙ at ∙ omega arith, ap (λ r. view m r.1) e ∙ seen)

  value_code-lt : (value : Value) → value_code value < 2 ^ 32
  value_code-lt (number kind n) = kind_code-lt kind
  value_code-lt (string text) = omega arith
  value_code-lt (strings ts) = omega arith
  value_code-lt (numbers kind xs) = omega arith

  set_alignment-view :
      (key : List ℕ) (p : ℕ) (s : Loaded) (value : Value)
      → IsValue value
      → (key_match key (codes "general.alignment") ≡ true → (n : ℕ) × (value ≡ number uint32 n))
      → Holds m p (encode_value value)
      → view m (set_alignment grants junk m key p s)
        ≡ note_alignment grants junk key value (view m s)
  unfolding set_alignment
  set_alignment-view key p s value b a h =
      if_map (view m) (key_match key (codes "general.alignment")) _ s _ (λ e.
        let (n, is_number) = a e in
        let (c, g) : IsValue (number uint32 n) × Holds m p (encode_value (number uint32 n)) =
          subst (λ v. IsValue v × Holds m p (encode_value v)) is_number (b, h) in
        let word : load32 m p ≡ number_of value =
          load32-little m p n c g ∙ ap number_of (sym is_number) in
        ap (λ l. view m (record s { params = record (Loaded.params s) { alignment = l } })) word)

  -- What one round does when the memory holds a text of that length, that key and that type.
  parse_pairs-next :
      (n p len type : ℕ) (key : List ℕ) (s : Loaded)
      → load64 m p ≡ len
      → bytes_at m (p + 8) (u32 len) ≡ key
      → load32 m (p + 8 + len) ≡ type
      → parse_pairs grants junk m (suc n) p s ≡ (
          let r =
            parse_value grants junk m type key
              (p + 8 + len + 4)
              (set_alignment grants junk m key (p + 8 + len + 4) s) in
          parse_pairs grants junk m n r.0 r.1)
  unfolding parse_pairs
  parse_pairs-next n p len type key s e f g =
      let next : ℕ → List ℕ → ℕ → ℕ × Loaded = λ l k t.
        let r =
          parse_value grants junk m t k (p + 8 + l + 4)
            (set_alignment grants junk m k (p + 8 + l + 4) s) in
        parse_pairs grants junk m n r.0 r.1 in
      ap (λ l. next l (bytes_at m (p + 8) (u32 l)) (load32 m (p + 8 + l))) e
      ∙ ap₂ (λ k t. next len k t) f g

  -- The metadata of a file in memory, as a writer has put it there, with texts and numbers within
  -- the sizes of their encoding: the loop ends behind it, and the parameters, the tokens and the
  -- scores are what it means for the globals from before. More scores than tokens are noted as
  -- stores behind the end of the array.
  pub parse_pairs-view :
      (es : List Entry) (p : ℕ) (s : Loaded)
      → All IsEntry es
      → Holds m p (encode_entries es)
      → ((parse_pairs grants junk m (length es) p s).0 ≡ p + length (encode_entries es))
        × (view m (parse_pairs grants junk m (length es) p s).1
            ≡ note_entries grants junk es (view m s))
  unfolding parse_pairs
  parse_pairs-view [] p s b h = (omega arith, refl)
  parse_pairs-view (e ∷ es) p s ((k, v, a), bs) h =
      let key : List ℕ = Entry.key e in
      let value : Value = Entry.value e in
      let code : List ℕ = little 4 (value_code value) in
      let (entry, others) = Holds-append m p (encode_entry e) (encode_entries es) h in
      let (len, text, tail) = Holds-string m p key (code ++ encode_value value) k entry in
      let (type, body) = Holds-append m (p + 8 + length key) code (encode_value value) tail in
      let at : ℕ = p + 8 + length key + 4 in
      let t : Loaded = set_alignment grants junk m key at s in
      let (behind, seen) = parse_value-view key at t value v body in
      let whole : bytes_at m (p + 8) (u32 (length key)) ≡ key =
        ap (bytes_at m (p + 8)) (omega (arith, k)) ∙ bytes_at-Holds m (p + 8) key text in
      let round =
        parse_pairs-next (length es) p (length key) (value_code value) key s len whole
          (load32-little m (p + 8 + length key) (value_code value) (value_code-lt value) type) in
      let size : length (encode_entry e) ≡ 8 + length key + 4 + length (encode_value value) =
        length-append (encode_string key) (code ++ encode_value value) ∙ omega arith in
      let end : at + length (encode_value value) ≡ p + length (encode_entry e) =
        omega (arith, size) in
      let r = parse_value grants junk m (value_code value) key at t in
      let (last, all) =
        parse_pairs-view es r.0 r.1 bs
          (Holds-at m (encode_entries es) (sym (behind ∙ end)) others) in
      (
        ap (λ q. q.0) round
            ∙ last
            ∙ omega (arith, behind, end, length-append (encode_entry e) (encode_entries es)),
        ap (λ q. view m q.1) round
            ∙ all
            ∙ ap (note_entries grants junk es) (
                seen
                ∙ ap (note_value grants junk key value)
                    (set_alignment-view key at s value v a body)),
      )
