-- ===== src/Coap/Message/Tests.antt =====
-- Runs of `Parse` and `Marshal`, and the theorems at concrete messages.
use shark_socket.Base.{ℕ, ◌≡◌, refl, List, [], ◌∷◌, ◌++◌, arith, ok, some, ◌↔◌}
use shark_socket.Base.Maps.{lookup, insert, nat_eq}
use shark_socket.Coap.Message.{
  Message, parse, marshal, parse_loop, parse_options, parse_option, encode_options, encode_option,
  encode_option_header, encode_extended_field, option_nibble, sorted_option_nums, value_of,
  first_byte, decode_option_header, read_option_extended, ack,
}
use shark_socket.Coap.Message.Options.{last_num}
use shark_socket.Coap.Message.RoundTrip.{IsWire, SameMessage, parse-marshal}
use shark_socket.Coap.Message.Parsing.{parse-marshal-parse}
use shark_socket.Coap.Message.Accepts.{IsDatagram, parse_iff}
use shark_socket.Coap.Message.Truncated.{parse-cut}

-- GET with Uri-Path "a" (11) and option 300, the latter given first.
abbrev sample : Message
sample = record {
  type = 0;
  code = 1;
  message_id = 0x1234;
  token = 7 ∷ 8 ∷ [];
  options = (300, 1 ∷ 2 ∷ []) ∷ (11, 97 ∷ []) ∷ [];
  payload = 5 ∷ 6 ∷ [];
}

abbrev sample_bytes : List ℕ
sample_bytes =
    0x42 ∷ 1 ∷ 0x12 ∷ 0x34 ∷ 7 ∷ 8 ∷ 0xb1 ∷ 97 ∷ 0xe2 ∷ 0 ∷ 20 ∷ 1 ∷ 2 ∷ 0xff ∷ 5 ∷ 6 ∷ []

marshal-sample : marshal sample ≡ ok sample_bytes
unfolding marshal encode_options encode_option encode_option_header encode_extended_field
    option_nibble sorted_option_nums value_of first_byte lookup
marshal-sample = refl

parse-sample :
    parse sample_bytes ≡ ok (record sample { options = (11, 97 ∷ []) ∷ (300, 1 ∷ 2 ∷ []) ∷ [] })
unfolding parse parse_options parse_loop parse_option decode_option_header read_option_extended
    insert
parse-sample = refl

-- A reply answers with the identifier and the token of the request.
ack-sample : (ack sample 69 (1 ∷ [])).message_id ≡ 0x1234
unfolding ack
ack-sample = refl

sample-IsWire : IsWire sample
sample-IsWire = omega arith

parse-marshal_example :
    (d : List ℕ) × (p : Message) × (marshal sample ≡ ok d) × (parse d ≡ ok p) × SameMessage p sample
parse-marshal_example = parse-marshal sample sample-IsWire

abbrev short_bytes : List ℕ
short_bytes = 0x40 ∷ 1 ∷ 0 ∷ 9 ∷ 0xb1 ∷ 97 ∷ []

abbrev short_message : Message
short_message = record {
  type = 0;
  code = 1;
  message_id = 9;
  token = [];
  options = (11, 97 ∷ []) ∷ [];
  payload = [];
}

parse_short : parse short_bytes ≡ ok short_message
unfolding parse parse_options parse_loop parse_option decode_option_header read_option_extended
    insert
parse_short = refl

marshal_short : marshal short_message ≡ ok short_bytes
unfolding marshal encode_options encode_option encode_option_header encode_extended_field
    option_nibble sorted_option_nums value_of first_byte lookup
marshal_short = refl

parse-marshal-parse_example :
    (d' : List ℕ) × (p : Message) × (marshal short_message ≡ ok d')
    × (parse d' ≡ ok p)
    × SameMessage p short_message
parse-marshal-parse_example =
    parse-marshal-parse short_bytes short_message (omega arith) (omega arith) parse_short

parse_iff_example : (parse short_bytes ≡ ok short_message) ↔ IsDatagram short_bytes short_message
parse_iff_example = parse_iff short_bytes short_message

-- An option that announces two bytes of value and has one ends the options, without an error.
parse_value_cut :
    parse (0x40 ∷ 1 ∷ 0 ∷ 9 ∷ 0xb2 ∷ 97 ∷ []) ≡ ok (record short_message { options = [] })
unfolding parse parse_options parse_loop parse_option decode_option_header read_option_extended
    insert
parse_value_cut = refl

parse-cut_example :
    (p : Message) × (parse (short_bytes ++ 0xd0 ∷ []) ≡ ok p)
    × (p.payload ≡ [])
    × (lookup (last_num 0 (sorted_option_nums short_message.options)) p.options ≡ some [])
parse-cut_example = parse-cut short_message short_bytes (omega arith) refl marshal_short
