-- ===== src/Shell/Prompt/Room.antt =====
-- The prompt stays inside its buffer, and is whole when there is room.
use fae.Prelude.{
  ℕ, ◌+◌, ◌<◌, ◌≡◌, refl, ap, ◌∙◌, arith, Option, List, ◌++◌, ltb, length, length-append, if_cases,
}
use fae.Shell.Prompt.{
  system_prompt, sys_start, sys_end, assist_start, append_piece, get_formatted_prompt,
}

append_piece-lt :
    (max_len : ℕ) (piece formatted : List ℕ)
    → length formatted < max_len
    → length (append_piece max_len piece formatted) < max_len
append_piece-lt max_len piece formatted h =
    if_cases (λ s. length s < max_len) (ltb (length formatted + length piece) max_len) _ _
      (λ e. ground (arith, length-append formatted piece, e)) (λ e. h)

append_piece_fits :
    (max_len : ℕ) (piece formatted : List ℕ)
    → length formatted + length piece < max_len
    → append_piece max_len piece formatted ≡ formatted ++ piece
append_piece_fits max_len piece formatted h =
    if_cases (λ s. s ≡ formatted ++ piece) (ltb (length formatted + length piece) max_len) _ _
      (λ e. refl) (λ e. ground (arith, h, e))

-- In a buffer that is longer than the opening tag, the prompt and its terminator stay inside the
-- buffer, whatever the instructions and the user's text.
pub get_formatted_prompt-lt :
    (inst : Option (List ℕ)) (raw : List ℕ) (max_len : ℕ)
    → length sys_start < max_len
    → length (get_formatted_prompt inst raw max_len) < max_len
unfolding get_formatted_prompt
get_formatted_prompt-lt inst raw max_len h = append_piece-lt max_len assist_start _ (
    append_piece-lt max_len raw _ (
      append_piece-lt max_len sys_end _ (append_piece-lt max_len (system_prompt inst) sys_start h)))

-- When all pieces and the terminator fit, the prompt is the opening tag, the instructions, the
-- user's tag, the user's text and the assistant's tag.
pub get_formatted_prompt_whole :
    (inst : Option (List ℕ)) (raw : List ℕ) (max_len : ℕ)
    → length sys_start
        + length (system_prompt inst)
        + length sys_end
        + length raw
        + length assist_start
      < max_len
    → get_formatted_prompt inst raw max_len
      ≡ (((sys_start ++ system_prompt inst) ++ sys_end) ++ raw) ++ assist_start
unfolding get_formatted_prompt
get_formatted_prompt_whole inst raw max_len room =
    let a : List ℕ = sys_start ++ system_prompt inst in
    let b : List ℕ = a ++ sys_end in
    let c : List ℕ = b ++ raw in
    let la : length a ≡ length sys_start + length (system_prompt inst) =
      length-append sys_start (system_prompt inst) in
    let lb : length b ≡ length a + length sys_end = length-append a sys_end in
    let lc : length c ≡ length b + length raw = length-append b raw in
    ap
      (λ s.
        append_piece max_len assist_start
          (append_piece max_len raw (append_piece max_len sys_end s)))
      (append_piece_fits max_len (system_prompt inst) sys_start (omega (arith, room)))
    ∙ ap (λ s. append_piece max_len assist_start (append_piece max_len raw s))
        (append_piece_fits max_len sys_end a (omega (arith, room, la)))
    ∙ ap (append_piece max_len assist_start)
        (append_piece_fits max_len raw b (omega (arith, room, la, lb)))
    ∙ append_piece_fits max_len assist_start c (omega (arith, room, la, lb, lc))
