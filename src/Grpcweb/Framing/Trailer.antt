-- ===== src/Grpcweb/Framing/Trailer.antt =====
-- The grpc-message value: what it may contain, and that it is not lost.
use shark_socket.Base.{
  ℕ, ◌+◌, ◌-◌, ◌*◌, ◌/◌, ◌%◌, ◌≤◌, ◌<◌, ◌≡◌, refl, ap, ◌∙◌, false, List, [], ◌∷◌, ◌++◌, arith, ltb,
  leb, ◌==◌, if◌then◌else◌, get_or, low_nibble, All, All-append, IsByte, Bool-cases, inl, inr, ◌⊎◌,
  same_on, same_on-eq,
}
use shark_socket.Grpcweb.Framing.{
  grpc_web_safe_byte, needs_escape, escape_byte, escape, encode_grpc_message, upper_hex,
}

-- A byte that may stand in a trailer value: visible ASCII or a blank, so neither CR nor LF.
abbrev pub IsVisible : ℕ → Type 0
IsVisible c = (0x20 ≤ c) × (c ≤ 0x7e)

-- The character of a hexadecimal digit, and back.
hex_digit : ℕ → ℕ
hex_digit d = if ltb d 10 then 48 + d else 55 + d

pub hex_value : ℕ → ℕ
hex_value c = if leb c 57 then c - 48 else c - 55

-- Percent-decoding, as a client does it.
pub decode_grpc_message : List ℕ → List ℕ
decode_grpc_message [] = []
decode_grpc_message (c ∷ []) = c ∷ []
decode_grpc_message (c ∷ h ∷ []) = c ∷ h ∷ []
decode_grpc_message (c ∷ h ∷ l ∷ s) =
    let plain = c ∷ decode_grpc_message (h ∷ l ∷ s) in
    let escaped = (hex_value h * 16 + hex_value l) ∷ decode_grpc_message s in
    if c == b'%' then escaped else plain

upper_hex-hex_digit : (d : ℕ) → d < 16 → get_or upper_hex d 0 ≡ hex_digit d
unfolding hex_digit same_on
upper_hex-hex_digit d h = same_on-eq (λ d. get_or upper_hex d 0) hex_digit 16 refl d h

escape_byte-cases :
    (c : ℕ)
    → c < 256
    → ((escape_byte c ≡ c ∷ []) × IsVisible c × ((c == b'%') ≡ false))
      ⊎ (escape_byte c ≡ b'%' ∷ hex_digit (c / 16) ∷ hex_digit (c % 16) ∷ [])
unfolding escape_byte grpc_web_safe_byte
escape_byte-cases c h = elim (Bool-cases (grpc_web_safe_byte c)) [
  | inl safe ↦ inl (ground arith, ground arith, ground arith)
  | inr unsafe ↦ inr (
      ground
        (arith, unsafe, low_nibble c, upper_hex-hex_digit (c / 16), upper_hex-hex_digit (c % 16)))
]

hex_digit-IsVisible : (d : ℕ) → d < 16 → IsVisible (hex_digit d)
unfolding hex_digit
hex_digit-IsVisible d h = ground arith

hex_value-hex_digit : (d : ℕ) → d < 16 → hex_value (hex_digit d) ≡ d
unfolding hex_digit hex_value
hex_value-hex_digit d h = ground arith

escape_byte-IsVisible : (c : ℕ) → c < 256 → All IsVisible (escape_byte c)
escape_byte-IsVisible c h = elim (escape_byte-cases c h) [
  | inl (e, visible, plain) ↦ rw (e, All) (visible, tt)
  | inr e ↦
      rw (e, All)
        (
          omega arith,
          (
            hex_digit-IsVisible (c / 16) (omega arith),
            (hex_digit-IsVisible (c % 16) (omega arith), tt),
          ),
        )
]

escape-IsVisible : (s : List ℕ) → All IsByte s → All IsVisible (escape s)
unfolding escape
escape-IsVisible [] a = tt
escape-IsVisible (c ∷ s) (h, a) =
    All-append IsVisible (escape_byte c) (escape s) (escape_byte-IsVisible c h)
      (escape-IsVisible s a)

-- Where no byte needs it, escaping changes nothing.
escape-plain : (s : List ℕ) → needs_escape s ≡ false → escape s ≡ s
unfolding needs_escape escape escape_byte
escape-plain [] e = refl
escape-plain (c ∷ s) e = ground (arith, escape-plain s)

encode_grpc_message-escape : (s : List ℕ) → encode_grpc_message s ≡ escape s
unfolding encode_grpc_message
encode_grpc_message-escape s = ground (arith, escape-plain s)

decode_plain :
    (c : ℕ) (t : List ℕ)
    → (c == b'%') ≡ false
    → decode_grpc_message (c ∷ t) ≡ c ∷ decode_grpc_message t
unfolding decode_grpc_message
decode_plain c [] e = refl
decode_plain c (x ∷ []) e = refl
decode_plain c (x ∷ y ∷ t) e = ground arith

decode_escaped :
    (h l : ℕ) (t : List ℕ)
    → decode_grpc_message (b'%' ∷ h ∷ l ∷ t)
      ≡ (hex_value h * 16 + hex_value l) ∷ decode_grpc_message t
unfolding decode_grpc_message
decode_escaped h l t = refl

decode-escape_byte :
    (c : ℕ) (s : List ℕ)
    → c < 256
    → decode_grpc_message (escape_byte c ++ escape s) ≡ c ∷ decode_grpc_message (escape s)
decode-escape_byte c s h = elim (escape_byte-cases c h) [
  | inl (e, visible, plain) ↦ rw e (decode_plain c (escape s) plain)
  | inr e ↦ rw e (
      decode_escaped (hex_digit (c / 16)) (hex_digit (c % 16)) (escape s)
      ∙ ap (λ b. b ∷ decode_grpc_message (escape s))
          (omega (
            arith,
            hex_value-hex_digit (c / 16) (omega arith),
            hex_value-hex_digit (c % 16) (omega arith),
          )))
]

decode-escape : (s : List ℕ) → All IsByte s → decode_grpc_message (escape s) ≡ s
unfolding escape decode_grpc_message
decode-escape [] a = refl
decode-escape (c ∷ s) (h, a) = decode-escape_byte c s h ∙ ap (◌∷◌ c) (decode-escape s a)

-- The value of grpc-message has only visible ASCII and blanks, so no CR or LF can end its line, and
-- percent-decoding it gives the message back, whatever bytes the message has.
pub encode_grpc_message_safe :
    (s : List ℕ)
    → All IsByte s
    → All IsVisible (encode_grpc_message s) × (decode_grpc_message (encode_grpc_message s) ≡ s)
encode_grpc_message_safe s a =
    rw (encode_grpc_message-escape s) (escape-IsVisible s a, decode-escape s a)
