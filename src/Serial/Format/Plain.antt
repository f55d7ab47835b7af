-- ===== src/Serial/Format/Plain.antt =====
-- What `serial_printf` makes of a format's literal text, and of the conversions in it.
use mathlib.Core.Option
use fae.Prelude.{
  ℕ, ◌≡◌, ◌≢◌, fun_ext, refl, sym, ap, ◌∙◌, arith, false, Option, none, some, List, [], ◌∷◌, ◌++◌,
  ◌==◌, All, Bool-cases, append_assoc, inl, inr,
}
use fae.Serial.Format.{serial_write, Arg, literal, printf_from, serial_printf}

serial_write-cons :
    (c : ℕ) (s : List ℕ) → serial_write (c ∷ s) ≡ serial_write (c ∷ []) ++ serial_write s
unfolding serial_write
serial_write-cons c s = elim (Bool-cases (c == 0x0A)) [ inl e ↦ rw e refl | inr e ↦ rw e refl ]

map-map :
    (f g : List ℕ → List ℕ) (o : Option (List ℕ))
    → Option.map f (Option.map g o) ≡ Option.map (λ x. f (g x)) o
map-map f g none = refl
map-map f g (some x) = refl

printf_from-append :
    (plain format : List ℕ) (args : List Arg)
    → All (λ c. c ≢ 0x25) plain
    → printf_from literal (plain ++ format) args
      ≡ Option.map (λ out. serial_write plain ++ out) (printf_from literal format args)
unfolding printf_from serial_write
printf_from-append [] format args h = map_id _
  where
    map_id : (o : Option (List ℕ)) → o ≡ Option.map (λ out. serial_write [] ++ out) o
    map_id none = refl
    map_id (some x) = refl
printf_from-append (c ∷ plain) format args h =
    let other : (c == 0x25) ≡ false = ground (arith, h.0) in
    let rest = printf_from-append plain format args h.1 in
    rw (other, rest)
      (map-map _ _ _
        ∙ ap (λ f. Option.map f (printf_from literal format args))
            (fun_ext (λ out.
              sym (append_assoc (serial_write (c ∷ [])) (serial_write plain) out)
              ∙ ap (λ s. s ++ out) (sym (serial_write-cons c plain)))))

-- Text in front of a format that has no `%` is printed as `serial_write` prints it, whatever
-- follows, and takes no argument.
pub serial_printf-append :
    (plain format : List ℕ) (args : List Arg)
    → All (λ c. c ≢ 0x25) plain
    → serial_printf (plain ++ format) args
      ≡ Option.map (λ out. serial_write plain ++ out) (serial_printf format args)
unfolding serial_printf
serial_printf-append plain format args h = printf_from-append plain format args h
