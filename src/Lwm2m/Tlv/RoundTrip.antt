-- ===== src/Lwm2m/Tlv/RoundTrip.antt =====
-- Decoding what was encoded.
use shark_socket.Base.{
  ℕ, zero, suc, ◌/◌, ◌^◌, ◌≤◌, ◌<◌, ◌≡◌, ap, ◌∙◌, true, Option, none, some, List, [], ◌∷◌, ◌++◌,
  map, arith, bit_and, bit_or, ◌==◌, length, ok, All, append_assoc, append-nil, take-append_length,
  drop-append_length, length-append,
}
use shark_socket.Lwm2m.Tlv.{
  ResourceType, TlvResource, id_field, length_field, encode_entry, encode_loop, encode_tlv, read_id,
  read_length, decode_record, decode_loop, decode, decode_tlv_typed, resolve,
}

-- A resource that the format can carry.
pub record IsTlv (e : TlvResource) : Type 0 where
  pub id_fits : e.resource_id < 2 ^ 32
  pub value_fits : length e.value ≤ 0xffff

abbrev pub type_byte : TlvResource → ℕ
type_byte e = bit_or (bit_or 0xc0 (id_field e.resource_id).0) (length_field (length e.value)).0

abbrev pub fields : TlvResource → List ℕ
fields e = (id_field e.resource_id).1 ++ (length_field (length e.value)).1 ++ e.value

-- What a decoder with this resolver makes of the resource.
abbrev pub typed : (ℕ → ResourceType) → TlvResource → TlvResource
typed resolver e = record e { type = resolver e.resource_id }

encode_entry-fields : (e : TlvResource) → IsTlv e → encode_entry e ≡ ok (type_byte e ∷ fields e)
unfolding encode_entry
encode_entry-fields e w = ground (arith, w)

read_id-id_field :
    (e : TlvResource) (rest : List ℕ)
    → IsTlv e
    → read_id (type_byte e) ((id_field e.resource_id).1 ++ rest) ≡ ok (e.resource_id, rest)
unfolding read_id id_field length_field
read_id-id_field e rest w = ground (arith, w)

read_length-length_field :
    (e : TlvResource) (rest : List ℕ)
    → IsTlv e
    → read_length (type_byte e) ((length_field (length e.value)).1 ++ rest)
      ≡ ok (length e.value, rest)
unfolding read_length id_field length_field
read_length-length_field e rest w = ground (arith, w)

top_bits : (e : TlvResource) → (bit_and (type_byte e / 64) 0x03 == 3) ≡ true
unfolding id_field length_field
top_bits e = ground arith

decode_record-fields :
    (resolver : ℕ → ResourceType) (e : TlvResource) (rest : List ℕ)
    → IsTlv e
    → decode_record resolver (type_byte e) (fields e ++ rest) ≡ ok (typed resolver e, rest)
unfolding decode_record
decode_record-fields resolver e rest w =
    let id_bytes = (id_field e.resource_id).1 in
    let length_bytes = (length_field (length e.value)).1 in
    rw
      (
        append_assoc (id_bytes ++ length_bytes) e.value rest,
        append_assoc id_bytes length_bytes (e.value ++ rest),
        top_bits e,
        read_id-id_field e (length_bytes ++ (e.value ++ rest)) w,
        read_length-length_field e (e.value ++ rest) w,
      )
      (ground (
        arith,
        length-append e.value rest,
        take-append_length e.value rest,
        drop-append_length e.value rest,
      ))

-- The bytes of all the records.
encoded : List TlvResource → List ℕ
encoded [] = []
encoded (e ∷ entries) = type_byte e ∷ (fields e ++ encoded entries)

encode_loop-encoded :
    (buf : List ℕ) (entries : List TlvResource)
    → All IsTlv entries
    → encode_loop buf entries ≡ ok (buf ++ encoded entries)
unfolding encode_loop encoded
encode_loop-encoded buf [] a = rw append-nil
encode_loop-encoded buf (e ∷ entries) (w, a) = rw (encode_entry-fields e w) (
    encode_loop-encoded (buf ++ (type_byte e ∷ fields e)) entries a
    ∙ ap ok (append_assoc buf (type_byte e ∷ fields e) (encoded entries)))

decode_loop-encoded :
    (fuel : ℕ) (resolver : ℕ → ResourceType) (entries results : List TlvResource)
    → All IsTlv entries
    → length (encoded entries) ≤ fuel
    → decode_loop fuel resolver (encoded entries) results
      ≡ ok (results ++ map (typed resolver) entries)
unfolding decode_loop encoded
decode_loop-encoded zero resolver [] results a h = rw append-nil
decode_loop-encoded (suc fuel) resolver [] results a h = rw append-nil
decode_loop-encoded zero resolver (e ∷ entries) results a h = absurd (omega arith)
decode_loop-encoded (suc fuel) resolver (e ∷ entries) results (w, a) h =
    rw (decode_record-fields resolver e (encoded entries) w) (
      decode_loop-encoded fuel resolver entries (results ++ typed resolver e ∷ []) a
        (omega (arith, length-append (fields e) (encoded entries)))
      ∙ ap ok (append_assoc results (typed resolver e ∷ []) (map (typed resolver) entries)))

-- Resources with identifiers of 32 bits and values of at most 65535 bytes are encoded, and decoding
-- the bytes gives them back in order, each with the type that the resolver has for it (opaque
-- without a resolver).
pub decode_tlv_typed-encode_tlv :
    (entries : List TlvResource) (resolver : Option (ℕ → ResourceType))
    → All IsTlv entries
    → (d : List ℕ) × (encode_tlv entries ≡ ok d)
      × (decode_tlv_typed d resolver ≡ ok (map (typed (resolve resolver)) entries))
unfolding encode_tlv decode_tlv_typed decode
decode_tlv_typed-encode_tlv entries none a = (
  encoded entries,
  encode_loop-encoded [] entries a,
  decode_loop-encoded _ _ entries [] a (omega arith),
)
decode_tlv_typed-encode_tlv entries (some f) a = (
  encoded entries,
  encode_loop-encoded [] entries a,
  decode_loop-encoded _ _ entries [] a (omega arith),
)
