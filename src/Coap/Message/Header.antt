-- ===== src/Coap/Message/Header.antt =====
-- The extended fields of an option header, written and read back.
use shark_socket.Base.{
  ℕ, ◌+◌, ◌-◌, ◌*◌, ◌/◌, ◌≤◌, ◌<◌, ◌≡◌, ◌∙◌, some, List, [], ◌∷◌, ◌++◌, arith, ltb, if◌then◌else◌,
  length, take, drop, put_uint16, ok, or_nibbles, low_nibble, append-nil, append_assoc,
  length-append, take-append_length, drop-append_length, bit_and,
}
use shark_socket.Coap.Message.{
  decode_option_header, read_option_extended, parse_option, option_nibble, encode_extended_field,
  encode_option_header,
}

-- The bytes behind the first that a delta or a length takes.
pub extended : ℕ → List ℕ
extended v = if ltb v 13 then [] else if ltb v 269 then (v - 13) ∷ [] else put_uint16 (v - 269)

abbrev pub header : ℕ → ℕ → List ℕ
header delta len = (option_nibble delta * 16 + option_nibble len) ∷ extended delta ++ extended len

pub option_nibble-le : (v : ℕ) → option_nibble v ≤ 14
unfolding option_nibble
option_nibble-le v = ground arith

encode_extended_field-extended :
    (buf : List ℕ) (v : ℕ)
    → v < 65536
    → encode_extended_field buf v (option_nibble v) ≡ ok (buf ++ extended v)
unfolding encode_extended_field option_nibble extended
encode_extended_field-extended buf v h = ground (arith, append-nil buf)

read_option_extended-extended :
    (v : ℕ) (rest : List ℕ)
    → v < 65536
    → read_option_extended (extended v ++ rest) (option_nibble v) ≡ (v, length (extended v))
unfolding read_option_extended option_nibble extended
read_option_extended-extended v rest h = ground arith

pub encode_option_header-header :
    (delta len : ℕ)
    → delta < 65536
    → len < 65536
    → encode_option_header delta len ≡ ok (header delta len)
unfolding encode_option_header
encode_option_header-header delta len hd hl = ground (
  arith,
  option_nibble-le delta,
  option_nibble-le len,
  or_nibbles (option_nibble delta) (option_nibble len),
  encode_extended_field-extended ((option_nibble delta * 16 + option_nibble len) ∷ []) delta,
  encode_extended_field-extended ((option_nibble delta * 16 + option_nibble len) ∷ extended delta)
      len,
)

-- A round of the loop, from what it reads.
parse_option_reads :
    (prev b delta delta_bytes len len_bytes : ℕ) (d₁ d₂ d₃ : List ℕ)
    → b / 16 ≤ 14
    → bit_and b 0x0f ≤ 14
    → read_option_extended d₁ (b / 16) ≡ (delta, delta_bytes)
    → drop delta_bytes d₁ ≡ d₂
    → read_option_extended d₂ (bit_and b 0x0f) ≡ (len, len_bytes)
    → drop len_bytes d₂ ≡ d₃
    → prev + delta < 65536
    → len ≤ length d₃
    → parse_option prev (b ∷ d₁) ≡ some (prev + delta, take len d₃, drop len d₃)
unfolding parse_option decode_option_header
parse_option_reads prev b delta delta_bytes len len_bytes d₁ d₂ d₃ hb hl e₁ e₂ e₃ e₄ hp hd =
    rw (e₁, e₂, e₃, e₄) (ground arith)

pub parse_option-header :
    (prev delta : ℕ) (value rest : List ℕ)
    → prev + delta < 65536
    → length value < 65536
    → parse_option prev (header delta (length value) ++ (value ++ rest))
      ≡ some (prev + delta, value, rest)
parse_option-header prev delta value rest hd hl =
    rw (append_assoc (extended delta) (extended len) (value ++ rest)) (
      parse_option_reads prev b delta (length (extended delta)) len (length (extended len)) _ _ _
        (rw high (option_nibble-le delta)) (rw low (option_nibble-le len))
        (rw high (read_option_extended-extended delta _ (omega arith)))
        (drop-append_length (extended delta) _)
        (rw low (read_option_extended-extended len (value ++ rest) hl))
        (drop-append_length (extended len) (value ++ rest)) hd
        (omega (arith, length-append value rest))
      ∙ rw (take-append_length value rest, drop-append_length value rest))
  where
    len : ℕ
    len = length value

    b : ℕ
    b = option_nibble delta * 16 + option_nibble len

    high : b / 16 ≡ option_nibble delta
    high = omega (arith, option_nibble-le len)

    low : bit_and b 0x0f ≡ option_nibble len
    low =
        low_nibble b (omega (arith, option_nibble-le len, option_nibble-le delta))
        ∙ omega (arith, option_nibble-le len)
