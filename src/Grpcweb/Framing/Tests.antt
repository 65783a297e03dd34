-- ===== src/Grpcweb/Framing/Tests.antt =====
-- Runs of the framing, and the theorems at concrete bodies.
use shark_socket.Base.{ℕ, ◌≡◌, refl, false, true, some, List, [], ◌∷◌, ◌++◌, arith, All, ok, err}
use shark_socket.Grpcweb.Framing.{
  payload_truncated, frames_loop, parse_data_frames, parse_request_payload, append_trailer_frame,
  trailers, itoa, encode_grpc_message, grpc_web_safe_byte, status_key, message_key, crlf,
}
use shark_socket.Grpcweb.Framing.Frames.{data_frames, flat, parse_data_frames-append_trailer_frame}
use shark_socket.Grpcweb.Framing.Trailer.{IsVisible, decode_grpc_message, encode_grpc_message_safe}

-- "a\nb%"
abbrev hostile : List ℕ
hostile = b'a' ∷ 10 ∷ b'b' ∷ b'%' ∷ []

hostile_encoded :
    encode_grpc_message hostile ≡ b'a' ∷ b'%' ∷ b'0' ∷ b'A' ∷ b'b' ∷ b'%' ∷ b'2' ∷ b'5' ∷ []
unfolding encode_grpc_message grpc_web_safe_byte
hostile_encoded = refl

hostile_trailers :
    trailers 13 (b'x' ∷ []) ≡ status_key ++ b'1' ∷ b'3' ∷ crlf ++ message_key ++ b'x' ∷ crlf
unfolding trailers encode_grpc_message grpc_web_safe_byte itoa
hostile_trailers = refl

cut_lenient :
    parse_request_payload (0 ∷ 0 ∷ 0 ∷ 0 ∷ 9 ∷ 1 ∷ []) false
    ≡ ok (0 ∷ 0 ∷ 0 ∷ 0 ∷ 9 ∷ 1 ∷ [], false)
unfolding parse_request_payload parse_data_frames frames_loop
cut_lenient = refl

cut_strict : parse_request_payload (0 ∷ 0 ∷ 0 ∷ 0 ∷ 9 ∷ 1 ∷ []) true ≡ err payload_truncated
unfolding parse_request_payload parse_data_frames frames_loop
cut_strict = refl

encode_grpc_message_safe_example :
    All IsVisible (encode_grpc_message hostile)
    × (decode_grpc_message (encode_grpc_message hostile) ≡ hostile)
encode_grpc_message_safe_example = encode_grpc_message_safe hostile (omega arith)

parse_data_frames-append_trailer_frame_example :
    parse_data_frames
      (append_trailer_frame (data_frames [] ((1 ∷ 2 ∷ []) ∷ [] ∷ (3 ∷ []) ∷ [])) 0 [])
    ≡ ok (some (flat ((1 ∷ 2 ∷ []) ∷ [] ∷ (3 ∷ []) ∷ [])))
unfolding trailers itoa
parse_data_frames-append_trailer_frame_example =
    parse_data_frames-append_trailer_frame ((1 ∷ 2 ∷ []) ∷ [] ∷ (3 ∷ []) ∷ []) 0 [] (omega arith)
      (omega arith)
