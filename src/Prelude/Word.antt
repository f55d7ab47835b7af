-- ===== src/Prelude/Word.antt =====
-- Machine words as native numbers, and memory as the bytes at each address.
use Prim.Native.Nat.{ℕ, ◌+◌, ◌*◌, ◌/◌, ◌%◌, ◌^◌}

-- Casts to `uint8_t`, `uint16_t`, `uint32_t` and `uint64_t`.
abbrev pub u8 : ℕ → ℕ
u8 n = n % 2 ^ 8

abbrev pub u16 : ℕ → ℕ
u16 n = n % 2 ^ 16

abbrev pub u32 : ℕ → ℕ
u32 n = n % 2 ^ 32

abbrev pub u64 : ℕ → ℕ
u64 n = n % 2 ^ 64

-- `x & ~(k - 1)` for a power of two `k`: the multiple of `k` below `x`.
abbrev pub align_down : ℕ → ℕ → ℕ
align_down k x = x / k * k

-- Physical memory. The kernel maps it one to one, so an address is a pointer.
abbrev pub Memory : Type 0
Memory = ℕ → ℕ

-- Loads of a little-endian word.
abbrev pub load8 : Memory → ℕ → ℕ
load8 m a = u8 (m a)

abbrev pub load16 : Memory → ℕ → ℕ
load16 m a = load8 m a + 256 * load8 m (a + 1)

abbrev pub load32 : Memory → ℕ → ℕ
load32 m a = load16 m a + 65536 * load16 m (a + 2)

abbrev pub load64 : Memory → ℕ → ℕ
load64 m a = load32 m a + 2 ^ 32 * load32 m (a + 4)
