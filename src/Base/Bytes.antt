-- ===== src/Base/Bytes.antt =====
-- Bytes as native numbers: the big-endian integers of encoding/binary, and masks as arithmetic.
use Prim.Native.Nat.{◌^◌, ℕ, zero, suc, ◌+◌, ◌*◌, ◌/◌, ◌%◌, ◌<◌, bit_and, bit_or}
use mathlib.Core.Path.{◌≡◌, refl, sym}
use mathlib.Core.Bool.{Bool, true, false}
use mathlib.Core.List.{List, [], ◌∷◌}
use native.Mathlib.Omega.{arith}
use shark_socket.Base.Tests.{◌==◌, if◌then◌else◌}

abbrev pub IsByte : ℕ → Type 0
IsByte b = b < 256

-- binary.BigEndian.PutUint16 and PutUint32, as the bytes that they write.
abbrev pub put_uint16 : ℕ → List ℕ
put_uint16 v = (v / 256 % 256) ∷ (v % 256) ∷ []

abbrev pub put_uint32 : ℕ → List ℕ
put_uint32 v = (v / 16777216 % 256) ∷ (v / 65536 % 256) ∷ (v / 256 % 256) ∷ (v % 256) ∷ []

-- binary.BigEndian.Uint16 and Uint32 on the bytes of a slice.
abbrev pub uint16_of : ℕ → ℕ → ℕ
uint16_of a b = a * 256 + b

abbrev pub uint32_of : ℕ → ℕ → ℕ → ℕ → ℕ
uint32_of a b c d = ((a * 256 + b) * 256 + c) * 256 + d

-- What is put is read back, in 32 bits.
pub uint32_of-put_uint32 :
    (n : ℕ)
    → n < 2 ^ 32
    → uint32_of
        (n % 2 ^ 32 / 16777216 % 256)
        (n % 2 ^ 32 / 65536 % 256)
        (n % 2 ^ 32 / 256 % 256)
        (n % 2 ^ 32 % 256)
      ≡ n
uint32_of-put_uint32 n h = omega arith

-- Two functions compared at every number below a bound, by evaluation.
module _ (mask sum : ℕ → ℕ) where
  unfoldable pub same_on : ℕ → Bool
  same_on zero = true
  same_on (suc count) = if mask count == sum count then same_on count else false

  pub same_on-eq : (count : ℕ) → same_on count ≡ true → (b : ℕ) → b < count → mask b ≡ sum b
  unfolding same_on
  same_on-eq zero e b h = elim h [ ]
  same_on-eq (suc count) e b h = ground (arith, same_on-eq count (ground arith) b)

pub low_two : (x : ℕ) → x < 256 → bit_and x 0x03 ≡ x % 4
unfolding same_on
low_two x h = same_on-eq (λ b. bit_and b 0x03) (λ b. b % 4) 256 refl x h

pub low_three : (x : ℕ) → x < 256 → bit_and x 0x07 ≡ x % 8
unfolding same_on
low_three x h = same_on-eq (λ b. bit_and b 0x07) (λ b. b % 8) 256 refl x h

pub low_nibble : (x : ℕ) → x < 256 → bit_and x 0x0f ≡ x % 16
unfolding same_on
low_nibble x h = same_on-eq (λ b. bit_and b 0x0f) (λ b. b % 16) 256 refl x h

-- `hi<<4 | lo` is a sum, since the nibbles share no bit.
pub or_nibbles : (hi lo : ℕ) → hi < 16 → lo < 16 → bit_or (hi * 16) lo ≡ hi * 16 + lo
unfolding same_on
or_nibbles hi lo h l = rw (sym high, sym low) at joined
  where
    high : hi ≡ (hi * 16 + lo) / 16
    high = omega arith

    low : lo ≡ (hi * 16 + lo) % 16
    low = omega arith

    joined : bit_or ((hi * 16 + lo) / 16 * 16) ((hi * 16 + lo) % 16) ≡ hi * 16 + lo
    joined =
        same_on-eq (λ b. bit_or (b / 16 * 16) (b % 16)) (λ b. b) 256 refl (hi * 16 + lo)
          (omega arith)
