-- ===== src/Coap/Message/RoundTrip.antt =====
-- `Parse` behind `Marshal`.
use shark_socket.Base.{
  ℕ, zero, suc, ◌+◌, ◌*◌, ◌/◌, ◌%◌, ◌≤◌, ◌<◌, ◌≡◌, refl, ◌∙◌, List, [], ◌∷◌, ◌++◌, arith, length,
  All, ok, append_assoc, length-append, drop, bit_and, bit_or, or_nibbles, low_nibble, low_two,
  uint16_of, take-append_length, drop-append_length,
}
use native.Mathlib.Nat.{mod-eq_of_lt}
use shark_socket.Base.Maps.{lookup, nat_eq}
use shark_socket.Coap.Message.{
  Message, parse_loop, parse_options, parse, marshal, first_byte, sorted_option_nums, put_payload,
}
use shark_socket.Coap.Message.Options.{
  written, insert_all, encode_options-written, parse_loop-written,
}
use shark_socket.Coap.Message.Sorted.{Fits, lookup-insert_all_sorted, sorted_option_nums-Rising}

-- A message that the wire format can carry.
pub record IsWire (m : Message) : Type 0 where
  pub type_fits : m.type ≤ 3
  pub message_id_fits : m.message_id < 65536
  pub token_fits : length m.token ≤ 8
  pub options_fit : All Fits m.options

-- Equal field by field, the options as maps.
pub record SameMessage (p m : Message) : Type 0 where
  pub same_type : p.type ≡ m.type
  pub same_code : p.code ≡ m.code
  pub same_message_id : p.message_id ≡ m.message_id
  pub same_token : p.token ≡ m.token
  pub same_options : (j : ℕ) → lookup j p.options ≡ lookup j m.options
  pub same_payload : p.payload ≡ m.payload

pub first_byte-sum :
    (type token_len : ℕ)
    → type ≤ 3
    → token_len ≤ 8
    → first_byte type token_len ≡ 64 + type * 16 + token_len
unfolding first_byte
first_byte-sum type token_len ht hl =
    rw
      (
        or_version type ht,
        mod-eq_of_lt (token_lt hl),
        or_nibbles (4 + type) token_len (omega arith) (omega arith),
      )
      (omega arith)
  where
    token_lt : {n : ℕ} → n ≤ 8 → n < 256
    token_lt h = omega arith

    or_version : (t : ℕ) → t ≤ 3 → bit_or 64 (bit_and t 0x03 * 16 % 256) ≡ (4 + t) * 16
    or_version zero h = refl
    or_version (suc zero) h = refl
    or_version (suc (suc zero)) h = refl
    or_version (suc (suc (suc zero))) h = refl
    or_version (suc (suc (suc (suc t)))) h = absurd (omega arith)

module _ (m : Message) (w : IsWire m) where
  first : first_byte m.type (length m.token) ≡ 64 + m.type * 16 + length m.token
  first = first_byte-sum m.type (length m.token) w.type_fits w.token_fits

  pub first_byte-high : first_byte m.type (length m.token) / 64 ≡ 1
  first_byte-high = omega (arith, first, w)

  pub first_byte-low : bit_and (first_byte m.type (length m.token)) 0x0f ≡ length m.token
  first_byte-low = low_nibble _ (omega (arith, first, w)) ∙ omega (arith, first, w)

  first_byte-type : bit_and (first_byte m.type (length m.token) / 16) 0x03 ≡ m.type
  first_byte-type = low_two _ (omega (arith, first, w)) ∙ omega (arith, first, w)

-- The bytes behind the token.
abbrev pub body : Message → List ℕ
body m = written m.options (sorted_option_nums m.options) 0 ++ put_payload m.payload

abbrev pub datagram : Message → List ℕ
datagram m =
    first_byte m.type (length m.token)
    ∷ m.code
    ∷ (m.message_id / 256 % 256)
    ∷ (m.message_id % 256)
    ∷ (m.token ++ body m)

pub marshal-datagram : (m : Message) → IsWire m → marshal m ≡ ok (datagram m)
unfolding marshal
marshal-datagram m w = ground (
  arith,
  w,
  encode_options-written m.options (sorted_option_nums m.options) 0
      (first_byte m.type (length m.token)
        ∷ m.code
        ∷ (m.message_id / 256 % 256)
        ∷ (m.message_id % 256)
        ∷ m.token)
      (sorted_option_nums-Rising m.options w.options_fit),
  append_assoc m.token (written m.options (sorted_option_nums m.options) 0) (put_payload m.payload),
)

read_back : Message → Message
read_back m = record m { options = insert_all m.options (sorted_option_nums m.options) [] }

drop-four : (n a b c d : ℕ) (rest : List ℕ) → drop (4 + n) (a ∷ b ∷ c ∷ d ∷ rest) ≡ drop n rest
drop-four n a b c d rest = rw (four n)
  where
    four : (n : ℕ) → 4 + n ≡ suc (suc (suc (suc n)))
    four n = omega arith

-- What `Parse` makes of a fixed header, a token and what follows.
pub parse_reads :
    (b code i₁ i₂ : ℕ) (token rest : List ℕ)
    → b / 64 ≡ 1
    → bit_and b 0x0f ≡ length token
    → length token ≤ 8
    → parse (b ∷ code ∷ i₁ ∷ i₂ ∷ (token ++ rest))
      ≡ ok (record {
        type = bit_and (b / 16) 0x03;
        code = code;
        message_id = uint16_of i₁ i₂;
        token = token;
        options = (parse_options rest).0;
        payload = (parse_options rest).1;
      })
unfolding parse
parse_reads b code i₁ i₂ token rest hv ht hl = ground (
  arith,
  ht,
  hv,
  length-append token rest,
  drop-four (length token) b code i₁ i₂ (token ++ rest),
  take-append_length token rest,
  drop-append_length token rest,
)

parse-datagram : (m : Message) → IsWire m → parse (datagram m) ≡ ok (read_back m)
unfolding parse_options read_back
parse-datagram m w =
    parse_reads _ m.code _ _ m.token (body m) (first_byte-high m w) (first_byte-low m w)
      w.token_fits
    ∙ rw (first_byte-type m w, id_back, options_back)
  where
    id_back : uint16_of (m.message_id / 256 % 256) (m.message_id % 256) ≡ m.message_id
    id_back = omega (arith, w)

    options_back :
        parse_loop (length (body m)) 0 [] (body m)
        ≡ (insert_all m.options (sorted_option_nums m.options) [], m.payload)
    options_back =
        parse_loop-written m.options (sorted_option_nums m.options) 0 m.payload [] _
          (sorted_option_nums-Rising m.options w.options_fit) (omega arith)

-- A message that fits the wire is marshalled, and parsing the bytes gives the message back: type,
-- code, identifier, token and payload, and the same value for every option number.
pub parse-marshal :
    (m : Message)
    → IsWire m
    → (d : List ℕ) × (p : Message) × (marshal m ≡ ok d) × (parse d ≡ ok p) × SameMessage p m
unfolding read_back
parse-marshal m w = (
  datagram m,
  read_back m,
  marshal-datagram m w,
  parse-datagram m w,
  record {
    same_type = refl;
    same_code = refl;
    same_message_id = refl;
    same_token = refl;
    same_options = lookup-insert_all_sorted m.options;
    same_payload = refl;
  },
)
