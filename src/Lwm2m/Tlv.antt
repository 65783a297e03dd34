-- ===== src/Lwm2m/Tlv.antt =====
-- OMA LwM2M TLV records: internal/protocol/lwm2m/codec_tlv.go. Identifiers and lengths are Go's int on
-- a 64-bit platform, where no length of 32 bits is negative; a byte slice is a list of numbers.
pub mod RoundTrip
pub mod Records
pub mod Decode
mod Tests
use shark_socket.Base.{
  ℕ, zero, suc, ◌+◌, ◌-◌, ◌*◌, ◌/◌, ◌%◌, ◌^◌, Bool, true, false, Option, none, some, List, [], ◌∷◌,
  ◌++◌, bit_and, bit_or, ltb, leb, ◌==◌, if◌then◌else◌, length, take, drop, Result, ok, err, ◌>>=◌,
  ◌>>◌, guard, put_uint16, put_uint32, uint16_of, uint32_of,
}

pub data ResourceType : Type 0 where
  resource_string resource_integer resource_float resource_boolean resource_opaque resource_obj_link
        resource_time :
      ResourceType

-- A resource to encode, and a decoded one: `tlvEntry` and `tlvResource` have the same fields.
pub record TlvResource : Type 0 where
  pub resource_id : ℕ
  pub type : ResourceType
  pub value : List ℕ

pub data TlvError : Type 0 where
  id_out_of_range value_too_long truncated unsupported_type reserved_id_length fixed_length
        reserved_length :
      TlvError
  -- The loop of the model ran out of fuel: no error of the source.
  stuck : TlvError

-- The flag for the identifier's length, and its bytes.
pub id_field : ℕ → ℕ × List ℕ
id_field id =
    if leb id 0xff
    then (0, (id % 256) ∷ [])
    else if leb id 0xffff
    then (8, put_uint16 (id % 65536))
    else (16, put_uint32 (id % 2 ^ 32))

pub length_field : ℕ → ℕ × List ℕ
length_field n = if leb n 0xff then (1, (n % 256) ∷ []) else (2, put_uint16 (n % 65536))

-- One round of `EncodeTLV`, for an identifier that is not negative.
pub encode_entry : TlvResource → Result TlvError (List ℕ)
encode_entry e =
    let (id_flag, id_bytes) = id_field e.resource_id in
    let (length_flag, length_bytes) = length_field (length e.value) in
    do
      guard (leb e.resource_id 0xffffffff) id_out_of_range
      guard (leb (length e.value) 0xffff) value_too_long
      ok (bit_or (bit_or 0xc0 id_flag) length_flag ∷ id_bytes ++ length_bytes ++ e.value)

pub encode_loop : List ℕ → List TlvResource → Result TlvError (List ℕ)
encode_loop buf [] = ok buf
encode_loop buf (e ∷ entries) = do
  record_bytes ← encode_entry e
  encode_loop (buf ++ record_bytes) entries

pub encode_tlv : List TlvResource → Result TlvError (List ℕ)
encode_tlv entries = encode_loop [] entries

-- Big-endian reads that take their bytes off the front of `data[offset:]`.
abbrev read_8 : List ℕ → Result TlvError (ℕ × List ℕ)
read_8 (a ∷ d) = ok (a, d)
read_8 [] = err truncated

abbrev read_16 : List ℕ → Result TlvError (ℕ × List ℕ)
read_16 (a ∷ b ∷ d) = ok (uint16_of a b, d)
read_16 _ = err truncated

abbrev read_24 : List ℕ → Result TlvError (ℕ × List ℕ)
read_24 (a ∷ b ∷ c ∷ d) = ok (bit_or (bit_or (a * 65536) (b * 256)) c, d)
read_24 _ = err truncated

abbrev read_32 : List ℕ → Result TlvError (ℕ × List ℕ)
read_32 (a ∷ b ∷ c ∷ e ∷ d) = ok (uint32_of a b c e, d)
read_32 _ = err truncated

pub read_id : ℕ → List ℕ → Result TlvError (ℕ × List ℕ)
read_id type_byte d =
    let ii = bit_and (type_byte / 8) 0x03 in
    if ii == 0
    then read_8 d
    else if ii == 1
    then read_16 d
    else if ii == 2
    then read_32 d
    else err reserved_id_length

pub read_length : ℕ → List ℕ → Result TlvError (ℕ × List ℕ)
read_length type_byte d =
    let lll = bit_and type_byte 0x07 in
    if lll == 1
    then read_8 d
    else if lll == 2
    then read_16 d
    else if lll == 3
    then read_24 d
    else if lll == 4
    then read_32 d
    else if lll == 0
    then err fixed_length
    else err reserved_length

-- One round of the loop: a record, and the bytes behind it.
pub decode_record : (ℕ → ResourceType) → ℕ → List ℕ → Result TlvError (TlvResource × List ℕ)
decode_record resolver type_byte d = do
  guard (bit_and (type_byte / 64) 0x03 == 3) unsupported_type
  (id, d₁) ← read_id type_byte d
  (len, d₂) ← read_length type_byte d₁
  guard (leb len (length d₂)) truncated
  ok (record { resource_id = id; type = resolver id; value = take len d₂ }, drop len d₂)

pub decode_loop :
    ℕ → (ℕ → ResourceType) → List ℕ → List TlvResource → Result TlvError (List TlvResource)
decode_loop fuel resolver [] results = ok results
decode_loop zero resolver (b ∷ d) results = err stuck
decode_loop (suc fuel) resolver (b ∷ d) results = do
  (r, rest) ← decode_record resolver b d
  decode_loop fuel resolver rest (results ++ r ∷ [])

-- `none` is a nil resolver.
abbrev resolve : Option (ℕ → ResourceType) → ℕ → ResourceType
resolve none id = resource_opaque
resolve (some f) id = f id

-- A record takes a byte at least, so a round for each byte is enough.
pub decode : List ℕ → Option (ℕ → ResourceType) → Result TlvError (List TlvResource)
decode d resolver = decode_loop (length d) (resolve resolver) d []

pub decode_tlv : List ℕ → Result TlvError (List TlvResource)
decode_tlv d = decode d none

pub decode_tlv_typed : List ℕ → Option (ℕ → ResourceType) → Result TlvError (List TlvResource)
decode_tlv_typed d none = decode d none
decode_tlv_typed d (some resolver) = decode d (some resolver)
