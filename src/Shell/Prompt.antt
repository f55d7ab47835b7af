-- ===== src/Shell/Prompt.antt =====
-- shell.c, `get_formatted_prompt`: the chat prompt that is built in a buffer of `max_len` bytes.
-- A text is the list of its bytes before the terminator.
pub mod Room
use fae.Prelude.{
  ℕ, zero, suc, ◌+◌, ◌-◌, Bool, true, false, ◌||◌, ◌&&◌, Option, none, some, List, [], ◌∷◌, ◌++◌,
  ltb, ◌==◌, if◌then◌else◌, length, take, codes, starts_with,
}

-- The bytes before the first 0.
pub until_zero : List ℕ → List ℕ
until_zero [] = []
until_zero (c ∷ s) = let rest = until_zero s in if c == 0 then [] else c ∷ rest

-- The loop that cuts line ends, returns and spaces off the end: a character stays when one that
-- is behind it does, or it is none of these.
abbrev pub keep : ℕ → List ℕ → List ℕ
keep c (d ∷ rest) = c ∷ d ∷ rest
keep c [] = if c == 0x0A || c == 0x0D || c == 0x20 then [] else c ∷ []

abbrev pub trim_end : List ℕ → List ℕ
trim_end [] = []
trim_end (c ∷ s) = keep c (trim_end s)

-- `start += 8` behind "System: " or "system: ".
abbrev pub drop_label : List ℕ → List ℕ
drop_label (a ∷ b ∷ c ∷ d ∷ e ∷ f ∷ g ∷ h ∷ s) =
    let text = a ∷ b ∷ c ∷ d ∷ e ∷ f ∷ g ∷ h ∷ s in
    if starts_with (codes "System: ") text || starts_with (codes "system: ") text then s else text
drop_label s = s

abbrev pub default_prompt : List ℕ
default_prompt =
    codes "You are an AI operating system assistant. Output answers clearly and concisely."

-- `system_prompt`, from the bytes of the instruction file: 511 of them at most are used.
unfoldable pub system_prompt : Option (List ℕ) → List ℕ
unfolding until_zero
system_prompt none = default_prompt
system_prompt (some []) = default_prompt
system_prompt (some (c ∷ s)) = until_zero (drop_label (trim_end (take 511 (c ∷ s))))

abbrev pub sys_start : List ℕ
sys_start = codes "<|im_start|>system\n"

abbrev pub sys_end : List ℕ
sys_end = codes "\n<|im_end|>\n<|im_start|>user\n"

abbrev pub assist_start : List ℕ
assist_start = codes "\n<|im_end|>\n<|im_start|>assistant\n"

-- `if (len + piece_len < max_len) { memcpy(...); len += piece_len; }`
abbrev pub append_piece : ℕ → List ℕ → List ℕ → List ℕ
append_piece max_len piece formatted =
    if ltb (length formatted + length piece) max_len then formatted ++ piece else formatted

-- `get_formatted_prompt`: the bytes before the terminator, which is stored at their length.
pub get_formatted_prompt : Option (List ℕ) → List ℕ → ℕ → List ℕ
get_formatted_prompt inst raw_prompt max_len = append_piece max_len assist_start (
    append_piece max_len raw_prompt
      (append_piece max_len sys_end (append_piece max_len (system_prompt inst) sys_start)))
