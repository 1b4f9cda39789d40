-- ===== src/Base/Word.antt =====
-- Machine words: the wrap of each width, shifts, and the swap of the bytes of a u32.
use Prim.Native.Nat.{ℕ, ◌+◌, ◌-◌, ◌*◌, ◌/◌, ◌%◌, ◌^◌}
use yuri.Base.Tests.{leb, if◌then◌else◌}
use mathlib.Core.Option.{Option, none, some}

abbrev pub u8 : ℕ → ℕ
u8 n = n % 2 ^ 8

abbrev pub u16 : ℕ → ℕ
u16 n = n % 2 ^ 16

abbrev pub u32 : ℕ → ℕ
u32 n = n % 2 ^ 32

-- A `usize` has 64 bits.
abbrev pub usize : ℕ → ℕ
usize n = n % 2 ^ 64

abbrev pub usize_max : ℕ
usize_max = 2 ^ 64 - 1

-- `a.checked_add(b)` and `a.saturating_add(b)` on `usize`.
abbrev pub checked_add : ℕ → ℕ → Option ℕ
checked_add a b = if leb (a + b) usize_max then some (a + b) else none

abbrev pub saturating_add : ℕ → ℕ → ℕ
saturating_add a b = if leb (a + b) usize_max then a + b else usize_max

-- `a.wrapping_sub(b)` on u32, for operands below 2 ^ 32.
abbrev pub wrapping_sub32 : ℕ → ℕ → ℕ
wrapping_sub32 a b = u32 (a + 2 ^ 32 - b)

infixl 75 ◌<<<◌ ◌>>>◌
abbrev pub ◌<<<◌ : ℕ → ℕ → ℕ
x <<< k = x * 2 ^ k

abbrev pub ◌>>>◌ : ℕ → ℕ → ℕ
x >>> k = x / 2 ^ k

-- `swap_bytes` of a u32; `u32::from_be` on a little-endian host.
abbrev pub swap_bytes32 : ℕ → ℕ
swap_bytes32 x =
    x % 2 ^ 8 * 2 ^ 24
    + x / 2 ^ 8 % 2 ^ 8 * 2 ^ 16
    + x / 2 ^ 16 % 2 ^ 8 * 2 ^ 8
    + x / 2 ^ 24 % 2 ^ 8
