-- ===== src/Base/Words.antt =====
-- Unsigned 32-bit words as native numbers, and words in a byte buffer, low byte first.
use Prim.Native.Nat.{ℕ, ◌+◌, ◌*◌, ◌%◌}
use mathlib.Core.List.{List}
use tee_mobicore_driver_daem.Base.Lists.{get_or}

-- 2 ^ 32
abbrev pub u32_mod : ℕ
u32_mod = 4294967296

-- `(uint32_t)-1`
abbrev pub minus_one : ℕ
minus_one = 4294967295

-- `a + b` in `uint32_t`
abbrev pub add32 : ℕ → ℕ → ℕ
add32 a b = (a + b) % u32_mod

-- `*((uint32_t*)(bytes + offset))`
abbrev pub read_u32 : List ℕ → ℕ → ℕ
read_u32 bytes offset =
    get_or bytes offset 0
    + 256 * get_or bytes (offset + 1) 0
    + 65536 * get_or bytes (offset + 2) 0
    + 16777216 * get_or bytes (offset + 3) 0
