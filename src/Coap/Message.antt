-- ===== src/Coap/Message.antt =====
-- CoAP messages on the wire: internal/transport/coap/message.go. A byte slice is a list of
-- numbers, and a nil slice or map is the empty one. An error keeps its sentinel, not its text.
pub mod Header
pub mod Options
pub mod Sorted
pub mod RoundTrip
pub mod Parsing
pub mod Layout
pub mod Accepts
pub mod Truncated
mod Tests
use shark_socket.Base.{
  ℕ, zero, suc, ◌+◌, ◌-◌, ◌*◌, ◌/◌, ◌%◌, Bool, true, false, ◌||◌, Option, none, some, List, [], ◌∷◌,
  ◌++◌, map, bit_and, bit_or, ltb, leb, ◌==◌, if◌then◌else◌, length, get_or, take, drop, put_uint16,
  uint16_of, Result, ok, err, ◌>>=◌, ◌>>◌, guard,
}
use shark_socket.Base.Maps.{lookup, insert, nat_eq}

abbrev pub version : ℕ
version = 1

abbrev pub type_ack : ℕ
type_ack = 2

abbrev pub type_rst : ℕ
type_rst = 3

pub data MessageError : Type 0 where
  invalid_message invalid_version token_too_long : MessageError

abbrev pub Options : Type 0
Options = List (ℕ × List ℕ)

pub record Message : Type 0 where
  pub type : ℕ  -- byte
  pub code : ℕ  -- byte
  pub message_id : ℕ  -- uint16
  pub token : List ℕ
  pub options : Options  -- map[uint16][]byte
  pub payload : List ℕ

unfoldable pub decode_option_header : List ℕ → ℕ × ℕ × ℕ
decode_option_header [] = (0, 0, 0)
decode_option_header (b ∷ _) = (b / 16, bit_and b 0x0f, 1)

abbrev read_one : List ℕ → ℕ × ℕ
read_one [] = (0, 0)
read_one (b ∷ _) = (b + 13, 1)

abbrev read_two : List ℕ → ℕ × ℕ
read_two (a ∷ b ∷ _) = (uint16_of a b + 269, 2)
read_two _ = (0, 0)

-- The value, and how many bytes it took. A field that is cut short reads as 0 and takes none.
unfoldable pub read_option_extended : List ℕ → ℕ → ℕ × ℕ
read_option_extended d nibble =
    if ltb nibble 13
    then (nibble, 0)
    else if nibble == 13
    then read_one d
    else if nibble == 14
    then read_two d
    else (0, 0)

-- One round of the loop of `parseOptions`, behind the test for the payload marker: the option's
-- number and value and the bytes behind it, or `none` for a `break`.
unfoldable pub parse_option : ℕ → List ℕ → Option (ℕ × List ℕ × List ℕ)
parse_option prev d =
    let (delta, len, advance) = decode_option_header d in
    let d₁ = drop advance d in
    let (delta_extended, delta_bytes) = read_option_extended d₁ delta in
    let d₂ = drop delta_bytes d₁ in
    let (length_extended, length_bytes) = read_option_extended d₂ len in
    let d₃ = drop length_bytes d₂ in
    if advance == 0
    then none
    else if ltb 14 delta || ltb 14 len
    then none
    else if ltb (65535 - prev) delta_extended
    then none
    else if ltb (length d₃) length_extended
    then none
    else some ((prev + delta_extended) % 65536, take length_extended d₃, drop length_extended d₃)

-- The loop. The list is `data[offset:]`, and a round takes a byte at least.
unfoldable pub parse_loop : ℕ → ℕ → Options → List ℕ → Options × List ℕ
parse_loop zero prev options d = (options, [])
parse_loop (suc fuel) prev options [] = (options, [])
parse_loop (suc fuel) prev options (b ∷ rest) = elim (b == 0xff) [
  | true ↦ (options, rest)
  | false ↦ elim (parse_option prev (b ∷ rest)) [
    | none ↦ (options, [])
    | some (num, val, behind) ↦ parse_loop fuel num (insert num val options) behind
  ]
]

unfoldable pub parse_options : List ℕ → Options × List ℕ
parse_options d = parse_loop (length d) 0 [] d

unfoldable pub parse : List ℕ → Result MessageError Message
parse d =
    let first = get_or d 0 0 in
    let token_len = bit_and first 0x0f in
    do
      guard (leb 4 (length d)) invalid_message
      guard (first / 64 == version) invalid_version
      guard (leb token_len 8) token_too_long
      guard (leb (4 + token_len) (length d)) invalid_message
      let (options, payload) = parse_options (drop (4 + token_len) d)
      ok (record {
        type = bit_and (first / 16) 0x03;
        code = get_or d 1 0;
        message_id = uint16_of (get_or d 2 0) (get_or d 3 0);
        token = take token_len (drop 4 d);
        options = options;
        payload = payload;
      })

-- The nibble of a delta or a length: the two `switch` blocks of `encodeOptionHeader`.
unfoldable pub option_nibble : ℕ → ℕ
option_nibble v = if ltb v 13 then v % 256 else if ltb v 269 then 13 else 14

unfoldable pub encode_extended_field : List ℕ → ℕ → ℕ → Result MessageError (List ℕ)
encode_extended_field buf v nibble =
    if ltb nibble 13
    then ok buf
    else if nibble == 13
    then (if ltb v 13 || ltb 268 v then err invalid_message else ok (buf ++ ((v - 13) % 256) ∷ []))
    else if nibble == 14
    then (if ltb v 269 || ltb 65535 v
        then err invalid_message
        else ok (buf ++ put_uint16 ((v - 269) % 65536)))
    else err invalid_message

unfoldable pub encode_option_header : ℕ → ℕ → Result MessageError (List ℕ)
encode_option_header delta len = do
  let d = option_nibble delta
  let l = option_nibble len
  header ← encode_extended_field (bit_or (d * 16 % 256) l ∷ []) delta d
  encode_extended_field header len l

unfoldable pub encode_option : ℕ → List ℕ → Result MessageError (List ℕ)
encode_option delta value = do
  header ← encode_option_header delta (length value % 65536)
  ok (header ++ value)

insert_sorted : ℕ → List ℕ → List ℕ
insert_sorted n [] = n ∷ []
insert_sorted n (m ∷ ms) = if leb n m then n ∷ m ∷ ms else m ∷ insert_sorted n ms

sort : List ℕ → List ℕ
sort [] = []
sort (n ∷ ns) = insert_sorted n (sort ns)

abbrev pub nums_of : Options → List ℕ
nums_of = map (λ o. o.0)

-- The keys of the map, in whatever order it gives them, sorted.
unfoldable pub sorted_option_nums : Options → List ℕ
unfolding insert_sorted sort
sorted_option_nums options = sort (nums_of options)

-- `m.Options[num]`, which is nil for a number that is not there.
unfoldable pub value_of : Options → ℕ → List ℕ
value_of options num = elim (lookup num options) [ none ↦ [] | some v ↦ v ]

-- The loop of `Marshal` over the sorted numbers.
unfoldable pub encode_options : Options → List ℕ → ℕ → List ℕ → Result MessageError (List ℕ)
encode_options options [] prev out = ok out
encode_options options (num ∷ nums) prev out = do
  enc ← encode_option ((num + 65536 - prev) % 65536) (value_of options num)
  encode_options options nums num (out ++ enc)

abbrev pub put_payload : List ℕ → List ℕ
put_payload [] = []
put_payload (b ∷ bs) = 0xff ∷ b ∷ bs

unfoldable pub first_byte : ℕ → ℕ → ℕ
first_byte type token_len =
    bit_or (bit_or (version * 64) (bit_and type 0x03 * 16 % 256)) (token_len % 256)

unfoldable pub marshal : Message → Result MessageError (List ℕ)
marshal m = do
  guard (leb (length m.token) 8) token_too_long
  guard (leb m.type type_rst) invalid_message
  let start = first_byte m.type (length m.token) ∷ m.code ∷ put_uint16 m.message_id ++ m.token
  out ← encode_options m.options (sorted_option_nums m.options) 0 start
  ok (out ++ put_payload m.payload)

unfoldable pub ack : Message → ℕ → List ℕ → Message
ack req code payload = record {
  type = type_ack;
  code = code;
  message_id = req.message_id;
  token = req.token;
  options = [];
  payload = payload;
}
