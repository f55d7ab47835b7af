-- ===== src/Gguf/Text.antt =====
-- gguf.c, the texts before and after the tokenizer: `byte_to_unicode_cp`, `preprocess_text`,
-- `print_token`. Texts are lists of bytes, without the terminator.
pub mod Unicode
pub mod Bounds
pub mod RoundTrip
use fae.Prelude.{
  ℕ, zero, suc, ◌+◌, ◌-◌, ◌*◌, ◌/◌, ◌%◌, Bool, true, false, not, ◌&&◌, ◌||◌, Option, none, some,
  List, [], ◌∷◌, ◌++◌, ltb, leb, ◌==◌, if◌then◌else◌, get_or, length, u8,
}
use fae.Gguf.Vocab.{Vocab}

-- `byte_to_unicode_cp`
pub byte_to_unicode_cp : ℕ → ℕ
byte_to_unicode_cp b =
    if leb 33 b && leb b 126 || leb 161 b && leb b 172 || leb 174 b
    then b
    else if leb b 32
    then 256 + b
    else if leb 127 b && leb b 160
    then 256 + 33 + (b - 127)
    else if b == 173
    then 256 + 33 + 34
    else b

-- What the BPE branch writes for a code point: a byte, or the two bytes `0xC0 | (u >> 6)` and
-- `0x80 | (u & 0x3F)`. Code points are below 2 ^ 11, so that the bits do not overlap.
pub utf8 : ℕ → List ℕ
utf8 u = if leb u 127 then u ∷ [] else (0xC0 + u / 64) ∷ (0x80 + u % 64) ∷ []

pub bpe_bytes : ℕ → List ℕ
unfolding utf8
bpe_bytes b = utf8 (byte_to_unicode_cp b)

-- The BPE loop, with `j` bytes written.
pub preprocess_bpe : ℕ → ℕ → List ℕ → List ℕ
preprocess_bpe max_len j [] = []
preprocess_bpe max_len j (b ∷ src) =
    let bytes = bpe_bytes b in
    let rest = bytes ++ preprocess_bpe max_len (j + length bytes) src in
    if ltb (j + 3) max_len then rest else []

-- U+2581 in UTF-8.
abbrev pub space_mark : List ℕ
space_mark = 0xE2 ∷ 0x96 ∷ 0x81 ∷ []

abbrev pub sp_bytes : ℕ → List ℕ
sp_bytes b = if b == b' ' then space_mark else b ∷ []

-- The SentencePiece loop, with `j` bytes written.
pub preprocess_sp : ℕ → ℕ → List ℕ → List ℕ
preprocess_sp max_len j [] = []
preprocess_sp max_len j (b ∷ src) =
    let rest = sp_bytes b ++ preprocess_sp max_len (j + length (sp_bytes b)) src in
    if ltb (j + 4) max_len then rest else []

-- The mark before the first word.
abbrev pub word_start : List ℕ → Bool
word_start [] = false
word_start (b ∷ src) = not (b == b' ')

-- `preprocess_text`. Both comparisons with `max_len - 3` and `max_len - 4` are between `int`s.
pub preprocess_text : Bool → ℕ → List ℕ → List ℕ
unfolding preprocess_bpe preprocess_sp
preprocess_text false max_len src = preprocess_bpe max_len 0 src
preprocess_text true max_len src =
    if word_start src && ltb 3 max_len
    then space_mark ++ preprocess_sp max_len 3 src
    else preprocess_sp max_len 0 src

-- The value that the loop of `print_token` adds for a digit; 0 for any other character.
pub hex_value : ℕ → ℕ
hex_value d =
    if leb b'0' d && leb d b'9'
    then d - b'0'
    else if leb b'A' d && leb d b'F'
    then d - b'A' + 10
    else if leb b'a' d && leb d b'f'
    then d - b'a' + 10
    else 0

-- Is the token `<0xXX>`?
pub is_byte_token : List ℕ → Bool
is_byte_token str =
    length str == 6
    && (get_or str 0 0 == b'<'
        && (get_or str 1 0 == b'0' && (get_or str 2 0 == b'x' && get_or str 5 0 == b'>')))

pub byte_of_token : List ℕ → ℕ
unfolding hex_value
byte_of_token str = u8 (hex_value (get_or str 3 0) * 16 + hex_value (get_or str 4 0))

abbrev pub is_mark : ℕ → ℕ → ℕ → Bool
is_mark a b c = a == 0xE2 && (b == 0x96 && c == 0x81)

-- The copy loop of `print_token`, with `left` bytes of `out_buf` free.
pub unmark : ℕ → List ℕ → List ℕ
unmark zero str = []
unmark (suc left) [] = []
unmark (suc left) (a ∷ []) = a ∷ []
unmark (suc left) (a ∷ b ∷ []) = a ∷ unmark left (b ∷ [])
unmark (suc left) (a ∷ b ∷ c ∷ str) =
    let blank = b' ' ∷ unmark left str in
    let plain = a ∷ unmark left (b ∷ c ∷ str) in if is_mark a b c then blank else plain

-- `print_token`: what the callback is given, `none` where it is not called.
pub print_token : Vocab → ℕ → Option (List ℕ)
unfolding is_byte_token byte_of_token unmark
print_token v id =
    if ltb id (length v)
    then some (
        let str = get_or v id [] in
        if is_byte_token str then byte_of_token str ∷ [] else unmark 255 str)
    else none
