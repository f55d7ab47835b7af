-- ===== src/Keyboard/Tests.antt =====
-- Runs of the keyboard driver, and its theorems at concrete states.
use fae.Prelude.{◌≡◌, refl, arith, true, false, some, [], ◌∷◌, replicate}
use fae.Keyboard.{Keyboard, shift_after, ascii_of, store, handler, has_char, take_char, get_char}
use fae.Keyboard.Refine.{IsValid, contents, enqueue, handler_refines, get_char_refines}

abbrev fresh : Keyboard
fresh = record { buffer = replicate 256 0; head = 0; tail = 0; shift_active = false }

-- Shift down, `a`, shift up, `a`.
shifted : Keyboard
shifted = handler (handler (handler (handler fresh 0x2A) 0x1E) 0xAA) 0x1E

shifted_a : (get_char shifted []) ≡ some (65, (take_char shifted).1, [])
unfolding shifted get_char has_char take_char handler shift_after ascii_of store
shifted_a = refl

-- With nothing waiting the reader waits for the key press, the interrupts before it handled.
waits_for_b :
    (k : Keyboard) × (get_char fresh (0x2A ∷ 0xAA ∷ 0x30 ∷ 0xB0 ∷ []) ≡ some (98, k, 0xB0 ∷ []))
unfolding get_char has_char take_char handler shift_after ascii_of store
waits_for_b = (record (handler fresh 0x30) { tail = 1 }, refl)

fresh-IsValid : IsValid fresh
fresh-IsValid = record { storage = refl; head_in = omega arith; tail_in = omega arith }

-- The `a` key goes into the empty ring.
handler_refines_example :
    IsValid (handler fresh 0x1E)
    × ((handler fresh 0x1E).shift_active ≡ shift_after false 0x1E)
    × (contents (handler fresh 0x1E)
        ≡ enqueue (contents fresh) (ascii_of (shift_after false 0x1E) 0x1E))
handler_refines_example = handler_refines fresh 0x1E fresh-IsValid

-- A ring with one character at its last place, the head wrapped around.
abbrev wrapped : Keyboard
wrapped = record { buffer = replicate 256 120; head = 0; tail = 255; shift_active = true }

wrapped-IsValid : IsValid wrapped
wrapped-IsValid = record { storage = refl; head_in = omega arith; tail_in = omega arith }

get_char_refines_example :
    (k' : Keyboard) × (get_char wrapped [] ≡ some (120, k', [])) × (contents k' ≡ []) × IsValid k'
get_char_refines_example = get_char_refines wrapped [] [] 120 wrapped-IsValid refl
