-- ===== src/Coap/Message/Parsing.antt =====
-- `Parse` on any input: the loop ends by itself, and what it returns fits the wire.
use shark_socket.Base.{
  ℕ, zero, suc, ◌+◌, ◌/◌, ◌≤◌, ◌<◌, ◌≡◌, refl, List, [], ◌∷◌, arith, true, false, ◌==◌, length, All,
  ok, some, none, drop, bit_and, low_nibble, low_two, length-take, length-drop, Option-cases,
  Bool-cases, inl, inr, IsByte,
}
use shark_socket.Base.Maps.{insert, nat_eq}
use shark_socket.Coap.Message.{
  Message, Options, decode_option_header, read_option_extended, parse_option, parse_loop,
  parse_options, parse, marshal,
}
use shark_socket.Coap.Message.Sorted.{Fits}
use shark_socket.Coap.Message.RoundTrip.{IsWire, SameMessage, parse-marshal}
use shark_socket.Coap.Message.{marshal}

-- What a round of the loop takes: a number in range that does not fall, and a part of the input.
pub record Takes (prev : ℕ) (d : List ℕ) (num : ℕ) (val behind : List ℕ) : Type 0 where
  pub rises : prev ≤ num
  pub in_range : num < 65536
  pub val_within : length val < length d
  pub behind_shorter : length behind < length d

pub parse_option-Takes :
    (prev : ℕ) (d : List ℕ) (num : ℕ) (val behind : List ℕ)
    → prev < 65536
    → parse_option prev d ≡ some (num, val, behind)
    → Takes prev d num val behind
unfolding parse_option decode_option_header
parse_option-Takes prev [] num val behind h e = cc
parse_option-Takes prev (b ∷ rest) num val behind h e =
    let (delta, delta_bytes) = read_option_extended rest (b / 16) in
    let d₂ = drop delta_bytes rest in
    let (len, length_bytes) = read_option_extended d₂ (bit_and b 0x0f) in
    let d₃ = drop length_bytes d₂ in
    ground (
      arith,
      length-drop delta_bytes rest,
      length-drop length_bytes d₂,
      length-drop len d₃,
      length-take len d₃,
    )

parse_loop-fuel :
    (f g prev : ℕ) (acc : Options) (d : List ℕ)
    → prev < 65536
    → length d ≤ f
    → length d ≤ g
    → parse_loop f prev acc d ≡ parse_loop g prev acc d
unfolding parse_loop
parse_loop-fuel zero zero prev acc d h hf hg = refl
parse_loop-fuel zero (suc g) prev acc [] h hf hg = refl
parse_loop-fuel (suc f) zero prev acc [] h hf hg = refl
parse_loop-fuel (suc f) (suc g) prev acc [] h hf hg = refl
parse_loop-fuel zero (suc g) prev acc (b ∷ rest) h hf hg = absurd (omega arith)
parse_loop-fuel (suc f) zero prev acc (b ∷ rest) h hf hg = absurd (omega arith)
parse_loop-fuel (suc f) (suc g) prev acc (b ∷ rest) h hf hg =
    elim (Option-cases (parse_option prev (b ∷ rest))) [
      | inl stop ↦ ground (arith, stop)
      | inr ((num, val, behind), more) ↦
          let t : Takes prev (b ∷ rest) num val behind =
            parse_option-Takes prev _ num val behind h more in
          ground (arith, more, parse_loop-fuel f g num (insert num val acc) behind t.in_range)
    ]

-- The loop of `parseOptions` ends by its own test: with fuel for every byte of the input the result
-- is the one of `parse_options`, whatever the fuel.
pub parse_loop_total :
    (fuel : ℕ) (d : List ℕ) → length d ≤ fuel → parse_loop fuel 0 [] d ≡ parse_options d
unfolding parse_options
parse_loop_total fuel d h = parse_loop-fuel fuel (length d) 0 [] d (omega arith) h (omega arith)

insert-Fits :
    (num : ℕ) (val : List ℕ) (acc : Options)
    → Fits (num, val)
    → All Fits acc
    → All Fits (insert num val acc)
unfolding insert
insert-Fits num val [] f a = (f, tt)
insert-Fits num val ((j, w) ∷ acc) f (g, a) = elim (Bool-cases (j == num)) [
  | inl e ↦ rw e (f, a)
  | inr e ↦ rw e (g, insert-Fits num val acc f a)
]

module _ (fuel prev b : ℕ) (acc : Options) (rest : List ℕ) where
  pub parse_loop_marker :
      (b == 0xff) ≡ true → parse_loop (suc fuel) prev acc (b ∷ rest) ≡ (acc, rest)
  unfolding parse_loop
  parse_loop_marker e = ground arith

  pub parse_loop_stop :
      (b == 0xff) ≡ false
      → parse_option prev (b ∷ rest) ≡ none
      → parse_loop (suc fuel) prev acc (b ∷ rest) ≡ (acc, [])
  unfolding parse_loop
  parse_loop_stop e stop = ground (arith, stop)

  pub parse_loop_more :
      (num : ℕ) (val behind : List ℕ)
      → (b == 0xff) ≡ false
      → parse_option prev (b ∷ rest) ≡ some (num, val, behind)
      → parse_loop (suc fuel) prev acc (b ∷ rest) ≡ parse_loop fuel num (insert num val acc) behind
  unfolding parse_loop
  parse_loop_more num val behind e more = ground (arith, more)

parse_loop-Fits :
    (fuel prev : ℕ) (acc : Options) (d : List ℕ)
    → prev < 65536
    → length d ≤ 65535
    → All Fits acc
    → All Fits (parse_loop fuel prev acc d).0
parse_loop-Fits zero prev acc d h hd a = unfold parse_loop in a
parse_loop-Fits (suc fuel) prev acc [] h hd a = unfold parse_loop in a
parse_loop-Fits (suc fuel) prev acc (b ∷ rest) h hd a = elim (Bool-cases (b == 0xff)) [
  | inl marker ↦ rw (parse_loop_marker fuel prev b acc rest marker) a
  | inr option ↦ elim (Option-cases (parse_option prev (b ∷ rest))) [
    | inl stop ↦ rw (parse_loop_stop fuel prev b acc rest option stop) a
    | inr ((num, val, behind), more) ↦
        let t : Takes prev (b ∷ rest) num val behind =
          parse_option-Takes prev _ num val behind h more in
        rw (parse_loop_more fuel prev b acc rest num val behind option more) (
          parse_loop-Fits fuel num (insert num val acc) behind t.in_range (omega arith)
            (insert-Fits num val acc (t.in_range, omega arith) a))
  ]
]

parse_options-Fits : (d : List ℕ) → length d ≤ 65535 → All Fits (parse_options d).0
unfolding parse_options
parse_options-Fits d h = parse_loop-Fits (length d) 0 [] d (omega arith) h tt

-- What `Parse` returns for a datagram of at most 65535 bytes fits the wire.
pub parse-IsWire :
    (d : List ℕ) (m : Message) → All IsByte d → length d ≤ 65535 → parse d ≡ ok m → IsWire m
unfolding parse
parse-IsWire [] m bytes h e = cc
parse-IsWire (a ∷ []) m bytes h e = cc
parse-IsWire (a ∷ b ∷ []) m bytes h e = cc
parse-IsWire (a ∷ b ∷ c ∷ []) m bytes h e = cc
parse-IsWire (a ∷ b ∷ c ∷ x ∷ rest) m bytes h e =
    let token_len = bit_and a 0x0f in
    let behind = drop (4 + token_len) (a ∷ b ∷ c ∷ x ∷ rest) in
    ground (
      arith,
      low_two (a / 16),
      low_nibble a,
      length-take token_len rest,
      parse_options-Fits behind,
      length-drop (4 + token_len) (a ∷ b ∷ c ∷ x ∷ rest),
    )

-- So it can be marshalled again, and parsing that gives the same message.
pub parse-marshal-parse :
    (d : List ℕ) (m : Message)
    → All IsByte d
    → length d ≤ 65535
    → parse d ≡ ok m
    → (d' : List ℕ) × (p : Message) × (marshal m ≡ ok d') × (parse d' ≡ ok p) × SameMessage p m
parse-marshal-parse d m bytes h e = parse-marshal m (parse-IsWire d m bytes h e)
