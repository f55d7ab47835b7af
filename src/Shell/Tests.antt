-- ===== src/Shell/Tests.antt =====
-- The theorems on the shell at concrete input.
use fae.Prelude.{refl, ltb, ℕ, ◌+◌, ◌<◌, ◌≡◌, arith, none, some, List, [], ◌∷◌, ◌++◌, length, codes}
use fae.Shell.Prompt.{system_prompt, sys_start, sys_end, assist_start, get_formatted_prompt}
use fae.Shell.Prompt.Room.{get_formatted_prompt-lt, get_formatted_prompt_whole}
use fae.Shell.Input.{serial_write_char}
use fae.Shell.Input.Echo.{serial_write_char-sends}

-- `l`, `x`, backspace, `s`.
abbrev keys : List ℕ
keys = 108 ∷ 120 ∷ 8 ∷ 115 ∷ []

get_formatted_prompt-lt_example : length (get_formatted_prompt none (codes "hi") 64) < 64
get_formatted_prompt-lt_example = get_formatted_prompt-lt none (codes "hi") 64 (omega arith)

fits :
    length sys_start
      + length (system_prompt none)
      + length sys_end
      + length (codes "hi")
      + length assist_start
    < 2048
unfolding system_prompt
fits = omega arith

get_formatted_prompt_whole_example :
    get_formatted_prompt none (codes "hi") 2048
    ≡ (((sys_start ++ system_prompt none) ++ sys_end) ++ codes "hi") ++ assist_start
get_formatted_prompt_whole_example = get_formatted_prompt_whole none (codes "hi") 2048 fits

-- A transmitter that is empty from the third poll on, and a screen that is a text.
serial_write_char-sends_example :
    serial_write_char (λ c s. s ++ c ∷ []) (λ n. ltb 1 n) 65 [] ≡ (some 65, 65 ∷ [])
serial_write_char-sends_example =
    serial_write_char-sends (λ c s. s ++ c ∷ []) (λ n. ltb 1 n) 65 2 [] (omega arith) refl
