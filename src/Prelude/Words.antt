-- ===== src/Prelude/Words.antt =====
-- Fixed-width integers: shifts and products with the wrap or the panic of the build. With
-- `overflow_checks` (a debug build) an overflow panics; without (a release build) a product wraps,
-- and a shift takes the shift count modulo the width.
use Prim.Native.Nat.{ℕ, zero, suc, ◌+◌, ◌*◌, ◌%◌, ◌/◌, ◌^◌}
use mathlib.Core.Bool.{Bool, ◌&&◌}
use mathlib.Core.List.{List, [], ◌∷◌}
use keth.Prelude.Tests.{leb, if◌then◌else◌, ◌==◌}
use keth.Prelude.Outcome.{Result, ok, panic}

-- `1_u128 << k`
abbrev pub shl_one_u128 : Bool → ℕ → Result ℕ
shl_one_u128 overflow_checks k = if overflow_checks && leb 128 k then panic else ok (2 ^ (k % 128))

-- `a * b` on `usize`
abbrev pub mul_usize : Bool → ℕ → ℕ → Result ℕ
mul_usize overflow_checks a b =
    if overflow_checks && leb (2 ^ 64) (a * b) then panic else ok (a * b % 2 ^ 64)

-- `a + b` on `usize`
abbrev pub add_usize : Bool → ℕ → ℕ → Result ℕ
add_usize overflow_checks a b =
    if overflow_checks && leb (2 ^ 64) (a + b) then panic else ok ((a + b) % 2 ^ 64)

-- `a % b` on unsigned numbers of any size: a zero divisor panics.
abbrev pub checked_rem : ℕ → ℕ → Result ℕ
checked_rem a b = if b == 0 then panic else ok (a % b)

-- `to_le_bytes`, at a width of that many bytes
unfoldable pub to_le_bytes : ℕ → ℕ → List ℕ
to_le_bytes zero n = []
to_le_bytes (suc width) n = n % 256 ∷ to_le_bytes width (n / 256)
