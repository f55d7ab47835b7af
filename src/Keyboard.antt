-- ===== src/Keyboard.antt =====
-- keyboard.c: the interrupt handler fills a ring of 256 characters, and the readers empty it.
pub mod Refine
pub mod Tests
use fae.Prelude.{
  ℕ, zero, suc, ◌+◌, ◌%◌, Bool, true, false, not, ◌||◌, ◌&&◌, Option, none, some, List, [], ◌∷◌,
  ltb, ◌==◌, if◌then◌else◌, get_or, set,
}

-- KB_BUFFER_SIZE
abbrev pub buffer_size : ℕ
buffer_size = 256

-- `kbd_us`, whose entries beyond those written are 0.
pub kbd_us : List ℕ
kbd_us =
    0 ∷ 27 ∷ 49 ∷ 50 ∷ 51 ∷ 52 ∷ 53 ∷ 54 ∷ 55 ∷ 56 ∷ 57 ∷ 48 ∷ 45 ∷ 61 ∷ 8 ∷ 9 ∷ 113 ∷ 119 ∷ 101
    ∷ 114 ∷ 116 ∷ 121 ∷ 117 ∷ 105 ∷ 111 ∷ 112 ∷ 91 ∷ 93 ∷ 10 ∷ 0 ∷ 97 ∷ 115 ∷ 100 ∷ 102 ∷ 103 ∷ 104
    ∷ 106 ∷ 107 ∷ 108 ∷ 59 ∷ 39 ∷ 96 ∷ 0 ∷ 92 ∷ 122 ∷ 120 ∷ 99 ∷ 118 ∷ 98 ∷ 110 ∷ 109 ∷ 44 ∷ 46 ∷ 47
    ∷ 0 ∷ 42 ∷ 0 ∷ 32 ∷ 0 ∷ 0 ∷ 0 ∷ 0 ∷ 0 ∷ 0 ∷ 0 ∷ 0 ∷ 0 ∷ 0 ∷ 0 ∷ 0 ∷ 0 ∷ 0 ∷ 0 ∷ 0 ∷ 45 ∷ 0 ∷ 0
    ∷ 0 ∷ 43 ∷ 0 ∷ 0 ∷ 0 ∷ 0 ∷ 0 ∷ 0 ∷ 0 ∷ 0 ∷ 0 ∷ 0 ∷ 0 ∷ []

-- `kbd_us_shift`
pub kbd_us_shift : List ℕ
kbd_us_shift =
    0 ∷ 27 ∷ 33 ∷ 64 ∷ 35 ∷ 36 ∷ 37 ∷ 94 ∷ 38 ∷ 42 ∷ 40 ∷ 41 ∷ 95 ∷ 43 ∷ 8 ∷ 9 ∷ 81 ∷ 87 ∷ 69 ∷ 82
    ∷ 84 ∷ 89 ∷ 85 ∷ 73 ∷ 79 ∷ 80 ∷ 123 ∷ 125 ∷ 10 ∷ 0 ∷ 65 ∷ 83 ∷ 68 ∷ 70 ∷ 71 ∷ 72 ∷ 74 ∷ 75 ∷ 76
    ∷ 58 ∷ 34 ∷ 126 ∷ 0 ∷ 124 ∷ 90 ∷ 88 ∷ 67 ∷ 86 ∷ 66 ∷ 78 ∷ 77 ∷ 60 ∷ 62 ∷ 63 ∷ 0 ∷ 42 ∷ 0 ∷ 32
    ∷ 0 ∷ []

pub record Keyboard : Type 0 where
  pub buffer : List ℕ
  pub head : ℕ
  pub tail : ℕ
  pub shift_active : Bool

-- What the handler makes of the shift keys' codes.
pub shift_after : Bool → ℕ → Bool
shift_after shift scancode =
    if scancode == 0x2A || scancode == 0x36
    then true
    else if scancode == 0xAA || scancode == 0xB6
    then false
    else shift

-- The character of a key press; 0 for a key without one, and for a release (bit 7 is set).
pub ascii_of : Bool → ℕ → ℕ
unfolding kbd_us kbd_us_shift
ascii_of shift scancode =
    if ltb scancode 0x80
    then if shift then get_or kbd_us_shift scancode 0 else get_or kbd_us scancode 0
    else 0

-- The write, dropped when the ring is full.
pub store : Keyboard → ℕ → Keyboard
store k ascii =
    let next = (k.head + 1) % buffer_size in
    if next == k.tail then k else record k { buffer = set k.buffer k.head ascii; head = next }

-- `keyboard_handler`, with the byte that the port gives.
pub handler : Keyboard → ℕ → Keyboard
handler k scancode =
    let shift = shift_after k.shift_active scancode in
    let k' = record k { shift_active = shift } in
    let ascii = ascii_of shift scancode in if ascii == 0 then k' else store k' ascii

-- `keyboard_has_char`
pub has_char : Keyboard → Bool
has_char k = not (k.head == k.tail)

-- The end of `keyboard_get_char`: the read once there is a character.
pub take_char : Keyboard → ℕ × Keyboard
take_char k = (get_or k.buffer k.tail 0, record k { tail = (k.tail + 1) % buffer_size })

-- `keyboard_get_char`, over the scancodes of the interrupts to come; each `hlt` ends with the next
-- one. `none`: it is still waiting. Otherwise the character, and the interrupts left.
pub get_char : Keyboard → List ℕ → Option (ℕ × Keyboard × List ℕ)
get_char k [] = if has_char k then (let (c, k') = take_char k in some (c, k', [])) else none
get_char k (i ∷ is) =
    let wait = get_char (handler k i) is in
    if has_char k then (let (c, k') = take_char k in some (c, k', i ∷ is)) else wait
