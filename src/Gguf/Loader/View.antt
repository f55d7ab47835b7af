-- ===== src/Gguf/Loader/View.antt =====
-- What the metadata of a file means, without addresses.
use fae.Prelude.{
  ℕ, ◌*◌, ◌^◌, ◌<◌, ◌≡◌, Bool, true, Option, none, some, List, [], ◌∷◌, length, map, codes, Memory,
  if◌then◌else◌, u32,
}
use fae.Gguf.Names.{key_match}
use fae.Gguf.Loader.{
  Params, Slot, Loaded, set_uint32, set_int32, set_float32, set_bool, is_tokens, is_behind,
  fresh_slots,
}
use fae.Gguf.Loader.Encoding.{
  Kind, uint32, int32, float32, bool, Value, number, string, strings, numbers, Entry, IsValue,
}
use fae.Gguf.Loader.Texts.{Piece, piece, named, scored}

-- What the loader knows of a file, without addresses, and whether it has stored behind the end of the
-- array: more scores than tokens.
pub record View : Type 0 where
  pub params : Params
  pub vocab : Option (List Piece)
  pub is_overrun : Bool

abbrev pub map_vocab : {A B : Type 0} → (A → B) → Option A → Option B
map_vocab f none = none
map_vocab f (some a) = some (f a)

abbrev pub view : Memory → Loaded → View
view m s = record {
  params = Loaded.params s;
  vocab = map_vocab (map (piece m)) (Loaded.vocab s);
  is_overrun = Loaded.is_overrun s;
}

-- A number under a key.
abbrev pub note_number : List ℕ → Kind → ℕ → Params → Params
note_number key uint32 n p = set_uint32 key n p
note_number key int32 n p = set_int32 key n p
note_number key float32 n p = set_float32 key n p
note_number key bool n p = set_bool key n p
note_number key _ n p = p

abbrev pub put_piece : Piece → ℕ → Piece
put_piece (text, _) x = (text, x)

-- The number that a value is.
abbrev pub number_of : Value → ℕ
number_of (number kind n) = n
number_of _ = 0

module _ (grants : ℕ → ℕ → Bool) (junk : ℕ → Slot) where
  -- The pieces of new tokens: their texts, with scores still to come.
  abbrev pub unscored : List (List ℕ) → List Piece
  unscored ts = named ts (map (λ s. ([], Slot.score s)) (fresh_slots junk (length ts)))

  abbrev pub note_strings : List ℕ → List (List ℕ) → View → View
  note_strings key ts v =
      if is_tokens key
      then record {
        params = record (View.params v) { vocab_size = u32 (length ts) };
        vocab = if grants 0 (length ts * 16) then some (unscored ts) else none;
        is_overrun = View.is_overrun v;
      }
      else v

  abbrev pub note_floats : List ℕ → List ℕ → View → View
  note_floats key xs v =
      if key_match key (codes "tokenizer.ggml.scores")
      then record v {
        vocab = map_vocab (scored put_piece xs) (View.vocab v);
        is_overrun = if is_behind (View.vocab v) (length xs) then true else View.is_overrun v;
      }
      else v

  -- What a value under a key means.
  abbrev pub note_value : List ℕ → Value → View → View
  note_value key (number kind n) v = record v { params = note_number key kind n (View.params v) }
  note_value key (string text) v = v
  note_value key (strings ts) v = note_strings key ts v
  note_value key (numbers float32 xs) v = note_floats key xs v
  note_value key (numbers _ xs) v = v

  abbrev pub note_alignment : List ℕ → Value → View → View
  note_alignment key value v =
      if key_match key (codes "general.alignment")
      then record v { params = record (View.params v) { alignment = number_of value } }
      else v

  abbrev pub note_entries : List Entry → View → View
  note_entries [] v = v
  note_entries (e ∷ es) v =
      note_entries es
        (note_value (Entry.key e) (Entry.value e) (note_alignment (Entry.key e) (Entry.value e) v))

-- The alignment is a number of 32 bits, as the format says.
abbrev pub IsEntry : Entry → Type 0
IsEntry e =
    (length (Entry.key e) < 2 ^ 32)
    × IsValue (Entry.value e)
    × (key_match (Entry.key e) (codes "general.alignment") ≡ true
        → (n : ℕ) × (Entry.value e ≡ number uint32 n))
