-- ===== src/CString.antt =====
-- malloc.c, the C runtime's memory and string functions, over memory.
-- A string function takes fuel for its `while` loop and answers `none` when that runs out, which is
-- how a text without a terminator shows; with the text's length as fuel it always answers.
pub mod Copies
pub mod Strings
pub mod Tests
use fae.Prelude.{
  ℕ, zero, suc, ◌+◌, ◌-◌, Bool, true, false, not, ◌&&◌, Option, none, some, ◌==◌, if◌then◌else◌,
  Memory, u8,
}
use fae.Prelude.Int.{ℤ, pos, sub_ℕ}

-- A store of one byte.
abbrev pub store8 : Memory → ℕ → ℕ → Memory
store8 m a v x = if x == a then v else m x

-- `memset`
pub memset : Memory → ℕ → ℕ → ℕ → Memory
memset m s c zero = m
memset m s c (suc n) = memset (store8 m s (u8 c)) (s + 1) c n

-- `memcpy`, from the first byte on.
pub memcpy : Memory → ℕ → ℕ → ℕ → Memory
memcpy m dest src zero = m
memcpy m dest src (suc n) = memcpy (store8 m dest (m src)) (dest + 1) (src + 1) n

-- `strlen`, the loop at `len`.
pub strlen_from : Memory → ℕ → ℕ → ℕ → Option ℕ
strlen_from m s zero len = none
strlen_from m s (suc fuel) len =
    let rest = strlen_from m s fuel (len + 1) in if m (s + len) == 0 then some len else rest

pub strlen : Memory → ℕ → ℕ → Option ℕ
unfolding strlen_from
strlen m fuel s = strlen_from m s fuel 0

-- `strcmp`: the difference of the first two bytes that differ, or of the terminators.
pub strcmp : Memory → ℕ → ℕ → ℕ → Option ℤ
strcmp m zero s1 s2 = none
strcmp m (suc fuel) s1 s2 =
    let rest = strcmp m fuel (s1 + 1) (s2 + 1) in
    if not (m s1 == 0) && (m s1 == m s2) then rest else some (sub_ℕ (m s1) (m s2))

-- `strncmp`: its counter `n` bounds the loop.
pub strncmp : Memory → ℕ → ℕ → ℕ → ℤ
strncmp m s1 s2 zero = pos 0
strncmp m s1 s2 (suc n) =
    let rest = strncmp m (s1 + 1) (s2 + 1) n in
    if not (m s1 == 0) && (m s1 == m s2) then rest else sub_ℕ (m s1) (m s2)
