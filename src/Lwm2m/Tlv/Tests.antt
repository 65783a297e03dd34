-- ===== src/Lwm2m/Tlv/Tests.antt =====
-- Runs of the codec, and the theorems at concrete records.
use shark_socket.Base.{ℕ, ◌≡◌, refl, none, List, [], ◌∷◌, map, arith, ok, err}
use shark_socket.Lwm2m.Tlv.{
  TlvResource, resource_string, resource_integer, truncated, id_field, length_field, encode_entry,
  encode_loop, encode_tlv, read_id, read_length, decode_record, decode_loop, decode, decode_tlv,
  decode_tlv_typed, resolve,
}
use shark_socket.Lwm2m.Tlv.RoundTrip.{typed, decode_tlv_typed-encode_tlv}

abbrev readings : List TlvResource
readings =
    record { resource_id = 5700; type = resource_integer; value = 0x12 ∷ 0x34 ∷ [] }
    ∷ record { resource_id = 1; type = resource_string; value = 97 ∷ [] }
    ∷ []

abbrev wire : List ℕ
wire = 0xc9 ∷ 0x16 ∷ 0x44 ∷ 2 ∷ 0x12 ∷ 0x34 ∷ 0xc1 ∷ 1 ∷ 1 ∷ 97 ∷ []

readings_encoded : encode_tlv readings ≡ ok wire
unfolding encode_tlv encode_loop encode_entry id_field length_field
readings_encoded = refl

wire_cut : decode_tlv (0xc9 ∷ 0x16 ∷ 0x44 ∷ 2 ∷ 0x12 ∷ []) ≡ err truncated
unfolding decode_tlv decode decode_loop decode_record read_id read_length
wire_cut = refl

decode_tlv_typed-encode_tlv_example :
    (d : List ℕ) × (encode_tlv readings ≡ ok d)
    × (decode_tlv_typed d none ≡ ok (map (typed (resolve none)) readings))
decode_tlv_typed-encode_tlv_example = decode_tlv_typed-encode_tlv readings none (omega arith)
