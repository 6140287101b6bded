-- ===== src/Common/Words.antt =====
-- C's fixed widths: a conversion to `uint8_t` or `uint16_t`, and `int` arithmetic that may fall
-- below zero, as the 32-bit pattern of its value.
use Prim.Native.Nat.{ℕ, ◌+◌, ◌-◌, ◌*◌, ◌/◌, ◌%◌, ◌^◌}
use z80e.Common.Tests.{ltb, if◌then◌else◌}

abbrev pub u8 : ℕ → ℕ
u8 n = n % 2 ^ 8

abbrev pub u16 : ℕ → ℕ
u16 n = n % 2 ^ 16

abbrev pub u32 : ℕ → ℕ
u32 n = n % 2 ^ 32

-- `a - b` and `~a`.
abbrev pub int_sub : ℕ → ℕ → ℕ
int_sub a b = (a + 2 ^ 32 - b) % 2 ^ 32

abbrev pub int_not : ℕ → ℕ
int_not a = 2 ^ 32 - 1 - a

-- An `int8_t` is carried as the 16-bit pattern of its value.
abbrev pub sign_extend : ℕ → ℕ
sign_extend d = if ltb d 0x80 then d else 0xff00 + d

infixl 75 ◌<<<◌ ◌>>>◌
abbrev pub ◌<<<◌ : ℕ → ℕ → ℕ
x <<< k = x * 2 ^ k

abbrev pub ◌>>>◌ : ℕ → ℕ → ℕ
x >>> k = x / 2 ^ k
