-- ===== src/Coap/Message/Accepts.antt =====
-- What `Parse` accepts, and what it makes of it.
use shark_socket.Base.{
  ℕ, ◌/◌, ◌≤◌, ◌≡◌, refl, ◌∙◌, ◌↔◌, List, [], ◌∷◌, ◌++◌, arith, length, ok, take, drop, bit_and,
  uint16_of, length-take, take-append-drop,
}
use shark_socket.Coap.Message.{Message, parse_options, parse}
use shark_socket.Coap.Message.Layout.{
  AreOptions, insert_each, parse_loop-AreOptions, AreOptions-parse_loop,
}
use shark_socket.Coap.Message.RoundTrip.{parse_reads}

-- The datagram has the fields of the message, whole and in order: four bytes, the token with the
-- length that the first byte announces, the options, and the payload.
pub record IsDatagram (d : List ℕ) (m : Message) : Type 0 where
  pub first : ℕ
  pub high : ℕ
  pub low : ℕ
  pub body : List ℕ
  pub found : List (ℕ × List ℕ)
  pub layout : d ≡ first ∷ m.code ∷ high ∷ low ∷ (m.token ++ body)
  pub version_one : first / 64 ≡ 1
  pub type_bits : m.type ≡ bit_and (first / 16) 0x03
  pub token_length : bit_and first 0x0f ≡ length m.token
  pub token_fits : length m.token ≤ 8
  pub id_bytes : m.message_id ≡ uint16_of high low
  pub are : AreOptions 0 body found m.payload
  pub options_are : m.options ≡ insert_each found []

-- What `Parse` returns for a header that it accepts.
abbrev message_of : ℕ → ℕ → ℕ → ℕ → List ℕ → Message
message_of first code high low d =
    let n = bit_and first 0x0f in
    record {
      type = bit_and (first / 16) 0x03;
      code = code;
      message_id = uint16_of high low;
      token = take n d;
      options = (parse_options (drop n d)).0;
      payload = (parse_options (drop n d)).1;
    }

module _ (first code high low : ℕ) (d : List ℕ) (m : Message)
    (e : parse (first ∷ code ∷ high ∷ low ∷ d) ≡ ok m) where
  header_checked : (first / 64 ≡ 1) × (bit_and first 0x0f ≤ 8) × (bit_and first 0x0f ≤ length d)
  unfolding parse
  header_checked = ground arith

  token_whole : bit_and first 0x0f ≡ length (take (bit_and first 0x0f) d)
  token_whole = omega (arith, length-take (bit_and first 0x0f) d, header_checked)

  is_message_of : m ≡ message_of first code high low d
  is_message_of =
      let n = bit_and first 0x0f in
      let (version, short, there) = header_checked in
      let reads =
        parse_reads first code high low (take n d) (drop n d) version token_whole
          (omega (arith, token_whole, short)) in
      let whole = take-append-drop n d in cc (whole, reads, e)

  parse-IsDatagram : IsDatagram (first ∷ code ∷ high ∷ low ∷ d) m
  unfolding parse_options
  parse-IsDatagram =
      let n = bit_and first 0x0f in
      let (version, short, there) = header_checked in
      let (found, are, same) =
        parse_loop-AreOptions (length (drop n d)) 0 [] (drop n d) (omega arith) (omega arith) in
      rw is_message_of (record {
        first = first;
        high = high;
        low = low;
        body = drop n d;
        found = found;
        layout = rw (take-append-drop n d);
        version_one = version;
        type_bits = refl;
        token_length = token_whole;
        token_fits = omega (arith, token_whole, short);
        id_bytes = refl;
        are = are;
        options_are = same;
      })

parse-short : (d : List ℕ) (m : Message) → parse d ≡ ok m → 4 ≤ length d
unfolding parse
parse-short d m e = ground arith

IsDatagram-parse : (d : List ℕ) (m : Message) → IsDatagram d m → parse d ≡ ok m
unfolding parse_options
IsDatagram-parse d m w =
    let read =
      AreOptions-parse_loop (length w.body) 0 [] w.body w.found m.payload (omega arith)
        (omega arith) w.are in
    rw w.layout (
      parse_reads w.first m.code w.high w.low m.token w.body w.version_one w.token_length
        w.token_fits
      ∙ cc (read, w.type_bits, w.id_bytes, w.options_are))

-- `Parse` returns the message exactly if the datagram is its fields, whole and in order: version 1,
-- the type, the code and the identifier, the token with the length that the first byte announces (8
-- at most), then options, each with a number in range and with all the bytes of value that its
-- length announces (an extended delta or length that is cut short counts as 0), a later one in place
-- of an earlier one of its number; and then the marker and the payload, or no payload where the
-- bytes end or no option can be read.
pub parse_iff : (d : List ℕ) (m : Message) → (parse d ≡ ok m) ↔ IsDatagram d m
parse_iff [] m = (λ e. absurd (omega (arith, parse-short _ m e)), IsDatagram-parse _ m)
parse_iff (a ∷ []) m = (λ e. absurd (omega (arith, parse-short _ m e)), IsDatagram-parse _ m)
parse_iff (a ∷ b ∷ []) m = (λ e. absurd (omega (arith, parse-short _ m e)), IsDatagram-parse _ m)
parse_iff (a ∷ b ∷ c ∷ []) m =
    (λ e. absurd (omega (arith, parse-short _ m e)), IsDatagram-parse _ m)
parse_iff (first ∷ code ∷ high ∷ low ∷ d) m =
    (parse-IsDatagram first code high low d m, IsDatagram-parse _ m)
