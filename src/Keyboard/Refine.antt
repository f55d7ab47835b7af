-- ===== src/Keyboard/Refine.antt =====
-- The ring is a queue of at most 255 characters.
use fae.Prelude.{
  ℕ, zero, suc, ◌+◌, ◌-◌, ◌%◌, ◌<◌, ◌≡◌, ◌≢◌, ◌∙◌, refl, ap, ap₂, arith, true, false, not, ◌&&◌,
  Option, some, List, [], ◌∷◌, ◌++◌, ltb, ◌==◌, if◌then◌else◌, length, get_or, set, length-set,
  get_or-set_self, get_or-set_ne, Bool-cases, inl, inr,
}
use fae.Keyboard.{
  Keyboard, buffer_size, shift_after, ascii_of, store, handler, has_char, take_char, get_char,
}

-- `n` characters of a ring from index `t` on.
abbrev pub ring_from : List ℕ → ℕ → ℕ → List ℕ
ring_from buf t zero = []
ring_from buf t (suc n) = get_or buf t 0 ∷ ring_from buf ((t + 1) % buffer_size) n

abbrev pub waiting : Keyboard → ℕ
waiting k = (k.head + buffer_size - k.tail) % buffer_size

-- The characters that wait, the oldest first.
abbrev pub contents : Keyboard → List ℕ
contents k = ring_from k.buffer k.tail (waiting k)

pub record IsValid (k : Keyboard) : Type 0 where
  pub storage : length k.buffer ≡ buffer_size
  pub head_in : k.head < buffer_size
  pub tail_in : k.tail < buffer_size

length-ring_from : (buf : List ℕ) (t n : ℕ) → length (ring_from buf t n) ≡ n
length-ring_from buf t zero = refl
length-ring_from buf t (suc n) = ap suc (length-ring_from buf ((t + 1) % buffer_size) n)

-- A write behind the last waiting character adds it to them.
ring_from-set :
    (buf : List ℕ) (c n t i : ℕ)
    → length buf ≡ buffer_size
    → t < buffer_size
    → n < 255
    → i ≡ (t + n) % buffer_size
    → ring_from (set buf i c) t (suc n) ≡ ring_from buf t n ++ (c ∷ [])
ring_from-set buf c zero t i s h k e =
    let here : i ≡ t = omega arith in
    rw here (ap (λ x. x ∷ []) (get_or-set_self buf t c 0 (omega arith)))
ring_from-set buf c (suc n) t i s h k e =
    let apart : i ≢ t = omega arith in
    ap₂ ◌∷◌ (get_or-set_ne buf c 0 apart)
      (ring_from-set buf c n ((t + 1) % buffer_size) i s (omega arith) (omega arith) (omega arith))

-- What the handler promises: a key press with a character is added if fewer than 255 wait.
abbrev pub enqueue : List ℕ → ℕ → List ℕ
enqueue q ascii = if not (ascii == 0) && ltb (length q) 255 then q ++ (ascii ∷ []) else q

store-enqueue :
    (k : Keyboard) (c : ℕ)
    → IsValid k
    → c ≢ 0
    → IsValid (store k c) × (contents (store k c) ≡ enqueue (contents k) c)
unfolding store
store-enqueue k c v ne = elim (Bool-cases ((k.head + 1) % buffer_size == k.tail)) [
  | inl full ↦
      let drops : ltb (length (contents k)) 255 ≡ false =
        ground (arith, length-ring_from k.buffer k.tail (waiting k)) in
      let key : (c == 0) ≡ false = ground arith in rw (full, key, drops) (v, refl)
  | inr room ↦
      let fits : ltb (length (contents k)) 255 ≡ true =
        ground (arith, length-ring_from k.buffer k.tail (waiting k)) in
      let key : (c == 0) ≡ false = ground arith in
      let more : ((k.head + 1) % buffer_size + buffer_size - k.tail) % buffer_size
          ≡ suc (waiting k) =
        ground arith in
      rw (room, key, fits, more)
        (
          record {
            storage = length-set k.buffer k.head c ∙ v.storage;
            head_in = omega arith;
            tail_in = v.tail_in;
          },
          ring_from-set k.buffer c (waiting k) k.tail k.head v.storage v.tail_in (ground arith)
              (omega arith),
        )
]

store-shift : (k : Keyboard) (c : ℕ) → (store k c).shift_active ≡ k.shift_active
unfolding store
store-shift k c = ground arith

ring_from-cons :
    (buf : List ℕ) (t n c : ℕ) (q : List ℕ)
    → ring_from buf t n ≡ c ∷ q
    → (n ≢ 0) × (get_or buf t 0 ≡ c) × (ring_from buf ((t + 1) % buffer_size) (n - 1) ≡ q)
ring_from-cons buf t zero c q e = absurd (cc)
ring_from-cons buf t (suc n) c q e =
    let less : suc n - 1 ≡ n = omega arith in rw less (omega arith, cc, cc)

-- The handler turns the shift state as the two keys say, and adds the key's character under the new
-- shift state, if the key is a press that has one and fewer than 255 characters wait; it drops it
-- otherwise, and the ring stays well formed.
pub handler_refines :
    (k : Keyboard) (scancode : ℕ)
    → IsValid k
    → let k' = handler k scancode in
      let shift = shift_after k.shift_active scancode in
      IsValid k'
      × (k'.shift_active ≡ shift)
      × (contents k' ≡ enqueue (contents k) (ascii_of shift scancode))
unfolding handler
handler_refines k scancode v =
    let shift = shift_after k.shift_active scancode in
    let k' = record k { shift_active = shift } in
    let v' : IsValid k' = record {
      storage = v.storage;
      head_in = v.head_in;
      tail_in = v.tail_in;
    } in
    elim (Bool-cases (ascii_of shift scancode == 0)) [
      | inl none_ ↦ rw none_ (v', refl, refl)
      | inr char ↦
          let (valid, added) = store-enqueue k' (ascii_of shift scancode) v' (ground arith) in
          rw char (valid, store-shift k' (ascii_of shift scancode), rw char at added)
    ]

ready : (k : Keyboard) (c : ℕ) (q : List ℕ) → IsValid k → contents k ≡ c ∷ q → has_char k ≡ true
unfolding has_char
ready k c q v e = ground (arith, ring_from-cons k.buffer k.tail (waiting k) c q)

take_refines :
    (k : Keyboard) (is q : List ℕ) (c : ℕ)
    → IsValid k
    → contents k ≡ c ∷ q
    → (k' : Keyboard) × ◌≡◌ {A = Option (ℕ × Keyboard × List ℕ)}
        (some ((take_char k).0, (take_char k).1, is))
        (some (c, k', is))
      × (contents k' ≡ q)
      × IsValid k'
unfolding take_char
take_refines k is q c v e =
    let (ne, old, rest) = ring_from-cons k.buffer k.tail (waiting k) c q e in
    let less : (k.head + buffer_size - (k.tail + 1) % buffer_size) % buffer_size ≡ waiting k - 1 =
      omega arith in
    (
      record k { tail = (k.tail + 1) % buffer_size },
      rw old,
      rw less rest,
      record { storage = v.storage; head_in = v.head_in; tail_in = omega arith },
    )

-- With characters waiting, `keyboard_get_char` returns the oldest at once, and leaves the others.
pub get_char_refines :
    (k : Keyboard) (is q : List ℕ) (c : ℕ)
    → IsValid k
    → contents k ≡ c ∷ q
    → (k' : Keyboard) × (get_char k is ≡ some (c, k', is)) × (contents k' ≡ q) × IsValid k'
unfolding get_char
get_char_refines k [] q c v e = rw (ready k c q v e) (take_refines k [] q c v e)
get_char_refines k (i ∷ is) q c v e = rw (ready k c q v e) (take_refines k (i ∷ is) q c v e)
