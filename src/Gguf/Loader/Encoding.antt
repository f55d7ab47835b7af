-- ===== src/Gguf/Loader/Encoding.antt =====
-- The format of metadata, from the side of a writer: values, keys, and their bytes.
pub use fae.Prelude.Layout.{
  little, length-little, Holds, Holds-at, Holds-append, load32-little, load64-little,
}
use fae.Prelude.{ℕ, ◌^◌, ◌<◌, List, [], ◌∷◌, ◌++◌, length, All}

-- The kinds of numbers, in the order of their codes.
pub data Kind : Type 0 where
  uint8 : Kind
  int8 : Kind
  uint16 : Kind
  int16 : Kind
  uint32 : Kind
  int32 : Kind
  float32 : Kind
  bool : Kind
  uint64 : Kind
  int64 : Kind
  float64 : Kind

abbrev pub kind_code : Kind → ℕ
kind_code uint8 = 0
kind_code int8 = 1
kind_code uint16 = 2
kind_code int16 = 3
kind_code uint32 = 4
kind_code int32 = 5
kind_code float32 = 6
kind_code bool = 7
kind_code uint64 = 10
kind_code int64 = 11
kind_code float64 = 12

abbrev pub kind_size : Kind → ℕ
kind_size uint8 = 1
kind_size int8 = 1
kind_size uint16 = 2
kind_size int16 = 2
kind_size uint32 = 4
kind_size int32 = 4
kind_size float32 = 4
kind_size bool = 1
kind_size uint64 = 8
kind_size int64 = 8
kind_size float64 = 8

-- A value: a number, a text, an array of texts or an array of numbers.
pub data Value : Type 0 where
  number : Kind → ℕ → Value
  string : List ℕ → Value
  strings : List (List ℕ) → Value
  numbers : Kind → List ℕ → Value

abbrev pub encode_string : List ℕ → List ℕ
encode_string text = little 8 (length text) ++ text

abbrev pub encode_strings : List (List ℕ) → List ℕ
encode_strings [] = []
encode_strings (text ∷ texts) = encode_string text ++ encode_strings texts

abbrev pub encode_numbers : ℕ → List ℕ → List ℕ
encode_numbers size [] = []
encode_numbers size (n ∷ ns) = little size n ++ encode_numbers size ns

abbrev pub value_code : Value → ℕ
value_code (number kind n) = kind_code kind
value_code (string text) = 8
value_code (strings texts) = 9
value_code (numbers kind ns) = 9

abbrev pub encode_value : Value → List ℕ
encode_value (number kind n) = little (kind_size kind) n
encode_value (string text) = encode_string text
encode_value (strings texts) = little 4 8 ++ (little 8 (length texts) ++ encode_strings texts)
encode_value (numbers kind ns) =
    little 4 (kind_code kind) ++ (little 8 (length ns) ++ encode_numbers (kind_size kind) ns)

-- A key and its value.
pub record Entry : Type 0 where
  pub key : List ℕ
  pub value : Value

abbrev pub encode_entry : Entry → List ℕ
encode_entry e =
    encode_string (Entry.key e)
    ++ (little 4 (value_code (Entry.value e)) ++ encode_value (Entry.value e))

abbrev pub encode_entries : List Entry → List ℕ
encode_entries [] = []
encode_entries (e ∷ es) = encode_entry e ++ encode_entries es

-- What the format can hold: numbers of their size, texts below 4 GB, arrays below 2^60.
abbrev pub IsValue : Value → Type 0
IsValue (number kind n) = n < 256 ^ kind_size kind
IsValue (string text) = length text < 2 ^ 32
IsValue (strings texts) = (length texts < 2 ^ 60) × All (λ text. length text < 2 ^ 32) texts
IsValue (numbers kind ns) = (length ns < 2 ^ 60) × All (λ n. n < 256 ^ kind_size kind) ns
