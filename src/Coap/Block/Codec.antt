-- ===== src/Coap/Block/Codec.antt =====
-- The value of a Block option, written and read back.
use shark_socket.Base.{
  ℕ, zero, suc, ◌+◌, ◌*◌, ◌/◌, ◌%◌, ◌^◌, ◌≤◌, ◌<◌, ◌≡◌, refl, List, [], ◌∷◌, arith, if◌then◌else◌,
  length, ok, All, IsByte,
}
use native.Mathlib.Nat.{mod-eq_of_lt}
use shark_socket.Base.Bits.{or_shifted, or_eight, and_seven, and_eight, or_byte}
use shark_socket.Coap.Block.{
  BlockOption, size, marshal_block, block_bytes, drop_zeros, parse_block_option, read_raw,
  size_exp_of,
}

-- A block number of 20 bits and a size exponent that is not the reserved 7.
pub record IsBlock (b : BlockOption) : Type 0 where
  pub num_fits : b.num < 2 ^ 20
  pub size_exp_fits : b.size_exp ≤ 6

-- The three fields side by side.
abbrev packed : BlockOption → ℕ
packed b = b.num * 16 + (if b.more then 8 else 0) + b.size_exp

marshal_block-packed : (b : BlockOption) → IsBlock b → marshal_block b ≡ block_bytes (packed b)
unfolding marshal_block
marshal_block-packed b w = ground (arith, w, or_shifted b.num b.size_exp, or_eight b.num b.size_exp)

read_raw-block_bytes : (raw : ℕ) → raw < 2 ^ 24 → read_raw 0 (block_bytes raw) ≡ raw
unfolding read_raw block_bytes drop_zeros
read_raw-block_bytes raw h = ground (
  arith,
  or_byte 0 (raw / 65536 % 256),
  or_byte 0 (raw / 256 % 256),
  or_byte 0 (raw % 256),
  or_byte (raw / 65536 % 256) (raw / 256 % 256),
  or_byte (raw / 256 % 256) (raw % 256),
  or_byte (raw / 65536 % 256 * 256 + raw / 256 % 256) (raw % 256),
)

length-block_bytes : (raw : ℕ) → length (block_bytes raw) ≤ 3
unfolding block_bytes drop_zeros
length-block_bytes raw = ground arith

-- A Block option whose number has 20 bits and whose size exponent is at most 6 is read back from
-- what `Marshal` writes for it.
pub parse_block_option-marshal_block :
    (b : BlockOption) → IsBlock b → parse_block_option (marshal_block b) ≡ ok b
unfolding parse_block_option
parse_block_option-marshal_block b w =
    rw (marshal_block-packed b w, read_raw-block_bytes (packed b) (ground (arith, w)))
      (ground (arith, w, and_seven (packed b), and_eight (packed b), length-block_bytes (packed b)))

-- The number that a value of at most three bytes stands for, and the fewest bytes for it.
raw_of :
    (v : List ℕ)
    → All IsByte v
    → length v ≤ 3
    → (read_raw 0 v < 2 ^ 24) × (length (block_bytes (read_raw 0 v)) ≤ length v)
unfolding read_raw block_bytes drop_zeros
raw_of [] a h = (omega arith, ground arith)
raw_of (x ∷ []) a h = rw (or_byte 0 x a.0) (omega arith, ground arith)
raw_of (x ∷ y ∷ []) a h = rw (or_byte 0 x a.0) (ground (arith, or_byte x y a.1.0))
raw_of (x ∷ y ∷ z ∷ []) a h =
    rw (or_byte 0 x a.0) (ground (arith, or_byte x y a.1.0, or_byte (x * 256 + y) z a.1.1.0))
raw_of (x ∷ y ∷ z ∷ u ∷ v) a h = absurd (omega arith)

-- What `parseBlockOption` accepts is a block with 20 bits of number, and what `Marshal` writes for
-- that block is never longer than the value that was read.
pub marshal_block_shortest :
    (v : List ℕ) (b : BlockOption)
    → All IsByte v
    → parse_block_option v ≡ ok b
    → IsBlock b × (length (marshal_block b) ≤ length v)
unfolding parse_block_option
marshal_block_shortest v b a e = (fits, rw (marshal_block-packed b fits, same) (raw_of v a short).1)
  where
    short : length v ≤ 3
    short = ground arith

    fits : IsBlock b
    fits = ground (arith, and_seven (read_raw 0 v), raw_of v a short)

    same : packed b ≡ read_raw 0 v
    same = ground (arith, and_seven (read_raw 0 v), and_eight (read_raw 0 v))

pub size_cases : (e : ℕ) → e ≤ 6 → size_exp_of (2 ^ (e + 4)) ≡ e
unfolding size_exp_of
size_cases zero h = refl
size_cases (suc zero) h = refl
size_cases (suc (suc zero)) h = refl
size_cases (suc (suc (suc zero))) h = refl
size_cases (suc (suc (suc (suc zero)))) h = refl
size_cases (suc (suc (suc (suc (suc zero))))) h = refl
size_cases (suc (suc (suc (suc (suc (suc zero)))))) h = refl
size_cases (suc (suc (suc (suc (suc (suc (suc e))))))) h = absurd (omega arith)

-- The exponent that is echoed for a legal block size is the one that the size came from.
pub size_exp_of-size : (b : BlockOption) → b.size_exp ≤ 6 → size_exp_of (size b) ≡ b.size_exp
unfolding size
size_exp_of-size b h = rw (mod-eq_of_lt small) (size_cases b.size_exp h)
  where
    small : b.size_exp + 4 < 256
    small = omega arith
