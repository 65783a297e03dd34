-- ===== src/Coap/Block/Transfer.antt =====
-- The block that the server answers with, and the offset that a negotiated request names.
use shark_socket.Base.{
  ℕ, zero, suc, ◌+◌, ◌-◌, ◌*◌, ◌/◌, ◌^◌, ◌≤◌, ◌<◌, ◌≡◌, refl, sym, ap, ◌∙◌, true, List, [], ◌∷◌,
  arith, ltb, if◌then◌else◌, length, ok, some, none, take, drop, length-drop, take-all, min,
}
use native.Mathlib.Nat.{
  mod-eq_of_lt, pow-suc, add-zero, add-suc, pow-le-pow_right, mul-div_left, one-le-pow, min-eq_left,
  min-eq_right, div-le_self, lt_of_le_of_lt,
}
use native.Mathlib.Decide.{dec_le}
use shark_socket.Base.Maps.{lookup, nat_eq}
use shark_socket.Coap.Message.{Options}
use shark_socket.Coap.Block.{
  BlockOption, BlockRequest, size, block2_option, parse_block_option, slice_block, negotiate_block2,
  block_for, size_exp_of,
}
use shark_socket.Coap.Block.Codec.{IsBlock}

drop-nil {ℓ} : {A : Type ℓ} (n : ℕ) → ◌≡◌ {A = List A} (drop n []) []
drop-nil zero = refl
drop-nil (suc n) = refl

pub drop-eq {ℓ} : {A : Type ℓ} (m n : ℕ) (xs : List A) → m ≡ n → drop m xs ≡ drop n xs
drop-eq m n xs e = ap (λ k. drop k xs) e

pub drop-add {ℓ} : {A : Type ℓ} (m n : ℕ) (xs : List A) → drop (m + n) xs ≡ drop n (drop m xs)
drop-add zero n xs = drop-eq (zero + n) n xs (omega arith)
drop-add (suc m) n [] = drop-nil (suc m + n) ∙ sym (drop-nil n)
drop-add (suc m) n (x ∷ xs) =
    drop-eq (suc m + n) (suc (m + n)) (x ∷ xs) (omega arith) ∙ drop-add m n xs

two_pow-add : (a b : ℕ) → 2 ^ (a + b) ≡ 2 ^ a * 2 ^ b
two_pow-add a zero = rw add-zero (omega arith)
two_pow-add a (suc b) =
    rw (add-suc a b, pow-suc 2 (a + b), pow-suc 2 b, two_pow-add a b) (omega arith)

pub two_pos : 0 < 2
two_pos = omega arith

-- Both sizes are powers of two, so the smaller one divides the offset.
divides : (n a b : ℕ) → n * 2 ^ a / min (2 ^ b) (2 ^ a) * min (2 ^ b) (2 ^ a) ≡ n * 2 ^ a
divides n a b = elim (dec_le a b) [
  | yes le ↦
      rw (min-eq_right (pow-le-pow_right two_pos le), mul-div_left n (one-le-pow a 2 (omega arith)))
  | no gt ↦ rw (
    min-eq_left (pow-le-pow_right two_pos {i = b} {j = a} (omega arith)),
    split gt,
    mul-div_left (n * 2 ^ (a - b)) (one-le-pow b 2 (omega arith)),
  )
]
  where
    split : ¬ (a ≤ b) → n * 2 ^ a ≡ n * 2 ^ (a - b) * 2 ^ b
    split gt =
        let whole : a ≡ a - b + b = omega arith in
        omega
          (arith, ap (λ (t : ℕ). n * 2 ^ t) whole, ap (λ (t : ℕ). n * t) (two_pow-add (a - b) b))

slice_block-at :
    (body : List ℕ) (num s offset : ℕ)
    → num * s ≡ offset
    → offset < 2 ^ 32
    → s ≤ 1024
    → slice_block body num s ≡ (
        if ltb offset (length body)
        then some (take s (drop offset body), ltb (offset + s) (length body))
        else none)
unfolding slice_block
slice_block-at body num s offset e ho hs =
    rw (e, mod-eq_of_lt offset_fits, mod-eq_of_lt end_fits)
      (ground (
        arith,
        take-all s (drop offset body),
        length-drop offset body,
        ap (λ n. take n (drop offset body)) width,
      ))
  where
    offset_fits : offset < 2 ^ 64
    offset_fits = omega arith

    end_fits : offset + s < 2 ^ 64
    end_fits = omega arith

    width : offset + s - offset ≡ s
    width = omega arith

block_for-at :
    (body : List ℕ) (offset w : ℕ)
    → offset / w * w ≡ offset
    → offset < 2 ^ 32
    → w ≤ 1024
    → block_for body (record { present = true; offset = offset; req_size = w }) ≡ (
        if ltb offset (length body)
        then some (
          take w (drop offset body),
          some (record {
            num = offset / w;
            more = ltb (offset + w) (length body);
            size_exp = size_exp_of w;
          }),
        )
        else none)
unfolding block_for
block_for-at body offset w e ho hw =
    rw (mod-eq_of_lt num_fits, slice_block-at body (offset / w) w offset e ho hw) (ground arith)
  where
    num_fits : offset / w < 2 ^ 32
    num_fits = lt_of_le_of_lt (div-le_self offset w) ho

size-pow : (opt : BlockOption) → opt.size_exp ≤ 6 → size opt ≡ 2 ^ (opt.size_exp + 4)
unfolding size
size-pow opt h = rw (mod-eq_of_lt small)
  where
    small : opt.size_exp + 4 < 256
    small = omega arith

pub block_for-negotiate_block2 :
    (values : Options) (v body : List ℕ) (opt : BlockOption) (k : ℕ)
    → k ≤ 6
    → IsBlock opt
    → lookup block2_option values ≡ some v
    → parse_block_option v ≡ ok opt
    → length body < 2 ^ 32
    → let w = min (2 ^ (k + 4)) (2 ^ (opt.size_exp + 4)) in
      let offset = opt.num * 2 ^ (opt.size_exp + 4) in
      (req : BlockRequest) × (negotiate_block2 values (2 ^ (k + 4)) ≡ ok req)
      × (offset / w * w ≡ offset)
      × (block_for body req ≡ (
          if ltb offset (length body)
          then some (
            take w (drop offset body),
            some (record {
              num = offset / w;
              more = ltb (offset + w) (length body);
              size_exp = size_exp_of w;
            }),
          )
          else none))
unfolding negotiate_block2
block_for-negotiate_block2 values v body opt k hk b e p fits = (
  record { present = true; offset = offset; req_size = min limit asked },
  rw (e, negotiate_block2)
      (rw (p, size-pow opt b.size_exp_fits, mod-eq_of_lt offset_fits) (ground arith)),
  divides opt.num (opt.size_exp + 4) (k + 4),
  block_for-at body offset (min limit asked) (divides opt.num (opt.size_exp + 4) (k + 4))
      (grind (arith, asked_fits, b)) (omega (arith, asked_fits)),
)
  where
    limit : ℕ
    limit = 2 ^ (k + 4)

    asked : ℕ
    asked = 2 ^ (opt.size_exp + 4)

    offset : ℕ
    offset = opt.num * asked

    exp_fits : opt.size_exp + 4 ≤ 10
    exp_fits = omega (arith, b)

    asked_fits : asked ≤ 1024
    asked_fits = pow-le-pow_right two_pos exp_fits

    offset_fits : offset < 2 ^ 64
    offset_fits = grind (arith, asked_fits, b)
