-- ===== src/Coap/Message/Truncated.antt =====
-- `Parse` reads an option header that is cut short as an option.
use shark_socket.Base.{
  ℕ, zero, suc, ◌/◌, ◌%◌, ◌≤◌, ◌<◌, ◌≡◌, refl, ap, ◌∙◌, List, [], ◌∷◌, ◌++◌, arith, length, All, ok,
  some, bit_and, uint16_of, append-nil, append_assoc, ==_iff,
}
use shark_socket.Base.Maps.{lookup, insert, lookup-insert, nat_eq}
use shark_socket.Coap.Message.{
  Message, Options, parse_option, parse_loop, parse_options, parse, marshal, decode_option_header,
  read_option_extended, sorted_option_nums, first_byte,
}
use shark_socket.Coap.Message.Options.{
  Rising, written, insert_all, last_num, parse_loop_step, parse_loop-written_more,
}
use shark_socket.Coap.Message.Sorted.{Fits, sorted_option_nums-Rising}
use shark_socket.Coap.Message.RoundTrip.{
  IsWire, datagram, marshal-datagram, parse_reads, first_byte-high, first_byte-low,
}

-- 0xD0 announces a delta in one more byte. Where that byte is missing the delta reads as 0.
parse_option-cut : (prev : ℕ) → prev < 65536 → parse_option prev (0xd0 ∷ []) ≡ some (prev, [], [])
unfolding parse_option decode_option_header read_option_extended
parse_option-cut prev h = ground arith

parse_loop-cut :
    (fuel prev : ℕ) (acc : Options)
    → prev < 65536
    → 1 ≤ fuel
    → parse_loop fuel prev acc (0xd0 ∷ []) ≡ (insert prev [] acc, [])
parse_loop-cut zero prev acc h hf = absurd (omega arith)
parse_loop-cut (suc zero) prev acc h hf =
    parse_loop_step 0 prev acc 0xd0 prev [] [] [] (omega arith) (parse_option-cut prev h)
    ∙ unfold parse_loop in refl
parse_loop-cut (suc (suc fuel)) prev acc h hf =
    parse_loop_step (suc fuel) prev acc 0xd0 prev [] [] [] (omega arith) (parse_option-cut prev h)
    ∙ unfold parse_loop in refl

last_num-lt :
    (options : Options) (prev : ℕ) (nums : List ℕ)
    → prev < 65536
    → Rising options prev nums
    → last_num prev nums < 65536
last_num-lt options prev [] h r = h
last_num-lt options prev (num ∷ nums) h (le, lt, short, rest) = last_num-lt options num nums lt rest

-- The options that `Parse` finds in what `Marshal` wrote and one more byte 0xD0.
parse_options-cut :
    (options : Options)
    → All Fits options
    → parse_options (written options (sorted_option_nums options) 0 ++ 0xd0 ∷ []) ≡ (
      insert
          (last_num 0 (sorted_option_nums options))
          []
          (insert_all options (sorted_option_nums options) []),
      [],
    )
unfolding parse_options
parse_options-cut options f =
    let nums = sorted_option_nums options in
    let rising = sorted_option_nums-Rising options f in
    parse_loop-written_more options nums 0 (0xd0 ∷ []) [] _ _ rising (omega arith)
      λ fuel h. parse_loop-cut fuel _ _ (last_num-lt options 0 nums (omega arith) rising) h

-- A message without payload that fits the wire, marshalled and followed by the byte 0xD0, the start
-- of an option header that is cut short, parses without an error: the message has an empty payload,
-- and the value of its last option number (or of number 0, if it has no option) is empty.
pub parse-cut :
    (m : Message) (d : List ℕ)
    → IsWire m
    → m.payload ≡ []
    → marshal m ≡ ok d
    → (p : Message) × (parse (d ++ 0xd0 ∷ []) ≡ ok p)
      × (p.payload ≡ [])
      × (lookup (last_num 0 (sorted_option_nums m.options)) p.options ≡ some [])
parse-cut m d w none_left e = (p, reads, ap (λ r. r.1) cut, found)
  where
    nums : List ℕ
    nums = sorted_option_nums m.options

    w₀ : List ℕ
    w₀ = written m.options nums 0

    start : ℕ
    start = first_byte m.type (length m.token)

    p : Message
    p = record {
      type = bit_and (start / 16) 0x03;
      code = m.code;
      message_id = uint16_of (m.message_id / 256 % 256) (m.message_id % 256);
      token = m.token;
      options = (parse_options (w₀ ++ 0xd0 ∷ [])).0;
      payload = (parse_options (w₀ ++ 0xd0 ∷ [])).1;
    }

    cut :
        parse_options (w₀ ++ 0xd0 ∷ [])
        ≡ (insert (last_num 0 nums) [] (insert_all m.options nums []), [])
    cut = parse_options-cut m.options w.options_fit

    whole : d ≡ datagram m
    whole = cc (e, marshal-datagram m w)

    reads : parse (d ++ 0xd0 ∷ []) ≡ ok p
    reads =
        rw (whole, none_left, append-nil w₀, append_assoc m.token w₀ (0xd0 ∷ []))
          (parse_reads start m.code _ _ m.token (w₀ ++ 0xd0 ∷ []) (first_byte-high m w)
            (first_byte-low m w) w.token_fits)

    found : lookup (last_num 0 nums) p.options ≡ some []
    found =
        rw (ap (λ r. r.0) cut, lookup-insert)
          (ground (arith, ==_iff (last_num 0 nums) (last_num 0 nums)))
