-- ===== src/Grpcweb/Framing.antt =====
-- gRPC-Web frames and trailers: internal/transport/grpcweb/framing.go. Strings and byte slices are
-- lists of numbers; a frame's size is Go's int on a 64-bit platform, where it is not negative.
pub mod Frames
pub mod Trailer
mod Tests
use shark_socket.Base.{
  ℕ, zero, suc, ◌+◌, ◌-◌, ◌*◌, ◌/◌, ◌%◌, ◌^◌, Bool, true, false, not, ◌&&◌, ◌||◌, Option, none,
  some, List, [], ◌∷◌, ◌++◌, bit_and, ltb, leb, ◌==◌, if◌then◌else◌, length, take, drop, get_or,
  Result, ok, err, put_uint32, uint32_of,
}

abbrev pub data_frame_flag : ℕ
data_frame_flag = 0x00

abbrev pub trailer_frame_flag : ℕ
trailer_frame_flag = 0x80

abbrev pub frame_header_size : ℕ
frame_header_size = 5

pub data FrameError : Type 0 where
  header_truncated payload_truncated unsupported_flag : FrameError
  -- The loop of the model ran out of fuel: no error of the source.
  stuck : FrameError

-- The `switch` on the flag: the payload so far with this frame's, or `none` for `default`.
add_frame : ℕ → List ℕ → List ℕ → Option (List ℕ)
add_frame flag payload out =
    if flag == data_frame_flag
    then some (out ++ payload)
    else if flag == trailer_frame_flag
    then some out
    else none

-- The loop: the payloads of the data frames, and whether there was a frame.
pub frames_loop : ℕ → List ℕ → Bool → List ℕ → Result FrameError (List ℕ × Bool)
unfolding add_frame
frames_loop fuel out framed [] = ok (out, framed)
frames_loop zero out framed (b ∷ body) = err stuck
frames_loop (suc fuel) out framed (flag ∷ a ∷ b ∷ c ∷ d ∷ body) =
    let size = uint32_of a b c d in
    elim (ltb (length body) size) [
      | true ↦ err payload_truncated
      | false ↦ elim (add_frame flag (take size body) out) [
        | none ↦ err unsupported_flag
        | some out' ↦ frames_loop fuel out' true (drop size body)
      ]
    ]
frames_loop (suc fuel) out framed (b ∷ body) = err header_truncated

-- The payload, or `none` where the second result is false.
pub parse_data_frames : List ℕ → Result FrameError (Option (List ℕ))
parse_data_frames body = elim (frames_loop (length body) [] false body) [
  | err e ↦ err e
  | ok r ↦ ok (if r.1 then some r.0 else none)
]

-- The payload, and whether it was framed.
pub parse_request_payload : List ℕ → Bool → Result FrameError (List ℕ × Bool)
parse_request_payload body strict =
    if ltb (length body) frame_header_size
    then ok (body, false)
    else elim (parse_data_frames body) [
      | err e ↦ if strict then err e else ok (body, false)
      | ok none ↦ ok (body, false)
      | ok (some payload) ↦ ok (payload, true)
    ]

pub append_data_frame : List ℕ → List ℕ → List ℕ
append_data_frame dst payload =
    dst ++ (data_frame_flag ∷ put_uint32 (length payload % 2 ^ 32) ++ payload)

-- strconv.Itoa of a status, which is not negative; the fuel is the number itself.
itoa_fuel : ℕ → ℕ → List ℕ
itoa_fuel zero n = (b'0' + n % 10) ∷ []
itoa_fuel (suc fuel) n =
    let front = itoa_fuel fuel (n / 10) in
    if ltb n 10 then (b'0' + n) ∷ [] else front ++ (b'0' + n % 10) ∷ []

pub itoa : ℕ → List ℕ
unfolding itoa_fuel
itoa n = itoa_fuel n n

abbrev pub upper_hex : List ℕ
upper_hex =
    b'0' ∷ b'1' ∷ b'2' ∷ b'3' ∷ b'4' ∷ b'5' ∷ b'6' ∷ b'7' ∷ b'8' ∷ b'9' ∷ b'A' ∷ b'B' ∷ b'C' ∷ b'D'
    ∷ b'E' ∷ b'F' ∷ []

pub grpc_web_safe_byte : ℕ → Bool
grpc_web_safe_byte c = leb 0x20 c && leb c 0x24 || leb 0x26 c && leb c 0x7e

needs_escape : List ℕ → Bool
needs_escape [] = false
needs_escape (c ∷ s) = not (grpc_web_safe_byte c) || needs_escape s

escape_byte : ℕ → List ℕ
escape_byte c =
    if grpc_web_safe_byte c
    then c ∷ []
    else b'%' ∷ get_or upper_hex (c / 16) 0 ∷ get_or upper_hex (bit_and c 0x0f) 0 ∷ []

escape : List ℕ → List ℕ
escape [] = []
escape (c ∷ s) = escape_byte c ++ escape s

pub encode_grpc_message : List ℕ → List ℕ
unfolding needs_escape escape escape_byte
encode_grpc_message s = if needs_escape s then escape s else s

-- "grpc-status: " and "grpc-message: "
abbrev pub status_key : List ℕ
status_key =
    b'g' ∷ b'r' ∷ b'p' ∷ b'c' ∷ b'-' ∷ b's' ∷ b't' ∷ b'a' ∷ b't' ∷ b'u' ∷ b's' ∷ b':' ∷ b' ' ∷ []

abbrev pub message_key : List ℕ
message_key =
    b'g' ∷ b'r' ∷ b'p' ∷ b'c' ∷ b'-' ∷ b'm' ∷ b'e' ∷ b's' ∷ b's' ∷ b'a' ∷ b'g' ∷ b'e' ∷ b':' ∷ b' '
    ∷ []

abbrev pub crlf : List ℕ
crlf = 13 ∷ 10 ∷ []

-- The block of trailers.
pub trailers : ℕ → List ℕ → List ℕ
trailers status [] = status_key ++ itoa status ++ crlf
trailers status (c ∷ message) =
    status_key ++ itoa status ++ crlf ++ message_key ++ encode_grpc_message (c ∷ message) ++ crlf

pub append_trailer_frame : List ℕ → ℕ → List ℕ → List ℕ
append_trailer_frame dst status message =
    let payload = trailers status message in
    dst ++ (trailer_frame_flag ∷ put_uint32 (length payload % 2 ^ 32) ++ payload)
