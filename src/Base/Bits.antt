-- ===== src/Base/Bits.antt =====
-- `|` and `&` at every width, from the binary digits that the native operations stand for.
use Prim.Native.Nat.{
  ℕ, zero, suc, ◌+◌, ◌*◌, ◌/◌, ◌%◌, ◌≤◌, ◌<◌, min, max, bit_and, bit_or, digits, bit_and-bitwise,
  bit_or-bitwise,
}
use mathlib.Core.Path.{◌≡◌, refl, ap, sym, ◌∙◌}
use native.Mathlib.Omega.{arith}

-- The count of digits to go does not matter once it is large enough.
module _ (past : ℕ → ℕ) (join : ℕ → ℕ → ℕ) where
  same_digits :
      (x y count other : ℕ)
      → x ≤ count
      → x ≤ other
      → digits past join count x y ≡ digits past join other x y
  same_digits zero y zero zero hc ho = refl
  same_digits zero y zero (suc other) hc ho = refl
  same_digits zero y (suc count) zero hc ho = refl
  same_digits zero y (suc count) (suc other) hc ho = refl
  same_digits (suc x) y zero other hc ho = absurd (omega arith)
  same_digits (suc x) y (suc count) zero hc ho = absurd (omega arith)
  same_digits (suc x) y (suc count) (suc other) hc ho =
      ap (λ rest. rest * 2 + join (suc x % 2) (y % 2))
        (same_digits (suc x / 2) (y / 2) count other (omega arith) (omega arith))

or_last : (x y : ℕ) → bit_or x y ≡ bit_or (x / 2) (y / 2) * 2 + max (x % 2) (y % 2)
or_last zero y = rw (bit_or-bitwise 0 y, bit_or-bitwise (0 / 2) (y / 2)) (omega arith)
or_last (suc x) y =
    bit_or-bitwise (suc x) y
    ∙ ap (λ rest. rest * 2 + max (suc x % 2) (y % 2))
        (same_digits (λ b. b) max (suc x / 2) (y / 2) x (suc x / 2) (omega arith) (omega arith)
          ∙ sym (bit_or-bitwise (suc x / 2) (y / 2)))

and_last : (x y : ℕ) → bit_and x y ≡ bit_and (x / 2) (y / 2) * 2 + min (x % 2) (y % 2)
and_last zero y = rw (bit_and-bitwise 0 y, bit_and-bitwise (0 / 2) (y / 2)) (omega arith)
and_last (suc x) y =
    bit_and-bitwise (suc x) y
    ∙ ap (λ rest. rest * 2 + min (suc x % 2) (y % 2))
        (same_digits (λ b. 0) min (suc x / 2) (y / 2) x (suc x / 2) (omega arith) (omega arith)
          ∙ sym (bit_and-bitwise (suc x / 2) (y / 2)))

or_nothing : (bound x : ℕ) → x ≤ bound → bit_or x 0 ≡ x
or_nothing bound zero h = refl
or_nothing zero (suc x) h = absurd (omega arith)
or_nothing (suc bound) (suc x) h =
    omega (arith, or_last (suc x) 0, or_nothing bound (suc x / 2) (omega arith))

and_nothing : (bound x : ℕ) → x ≤ bound → bit_and x 0 ≡ 0
and_nothing bound zero h = refl
and_nothing zero (suc x) h = absurd (omega arith)
and_nothing (suc bound) (suc x) h =
    omega (arith, and_last (suc x) 0, and_nothing bound (suc x / 2) (omega arith))

-- `x<<4 | y` is a sum where `y` fits four bits.
pub or_shifted : (x y : ℕ) → y < 16 → bit_or (x * 16) y ≡ x * 16 + y
or_shifted x y h = ground (
  arith,
  or_last (x * 16) y,
  or_last (x * 8) (y / 2),
  or_last (x * 4) (y / 2 / 2),
  or_last (x * 2) (y / 2 / 2 / 2),
  or_nothing x x (omega arith),
)

-- Setting bit 3 of a number that has it clear.
pub or_eight : (x y : ℕ) → y < 8 → bit_or (x * 16 + y) 8 ≡ x * 16 + 8 + y
or_eight x y h = ground (
  arith,
  or_last (x * 16 + y) 8,
  or_last (x * 8 + y / 2) 4,
  or_last (x * 4 + y / 2 / 2) 2,
  or_last (x * 2) 1,
  or_nothing x x (omega arith),
)

pub and_seven : (x : ℕ) → bit_and x 7 ≡ x % 8
and_seven x = ground (
  arith,
  and_last x 7,
  and_last (x / 2) 3,
  and_last (x / 2 / 2) 1,
  and_nothing (x / 2 / 2 / 2) (x / 2 / 2 / 2) (omega arith),
)

pub and_eight : (x : ℕ) → bit_and x 8 ≡ x / 8 % 2 * 8
and_eight x = ground (
  arith,
  and_last x 8,
  and_last (x / 2) 4,
  and_last (x / 2 / 2) 2,
  and_last (x / 2 / 2 / 2) 1,
  and_nothing (x / 2 / 2 / 2 / 2) (x / 2 / 2 / 2 / 2) (omega arith),
)

-- `x<<8 | y` is a sum where `y` is a byte.
pub or_byte : (x y : ℕ) → y < 256 → bit_or (x * 256) y ≡ x * 256 + y
or_byte x y h = ground (
  arith,
  or_last (x * 256) y,
  or_last (x * 128) (y / 2),
  or_last (x * 64) (y / 2 / 2),
  or_last (x * 32) (y / 2 / 2 / 2),
  or_shifted x (y / 2 / 2 / 2 / 2) (omega arith),
)
