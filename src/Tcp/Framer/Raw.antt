-- ===== src/Tcp/Framer/Raw.antt =====
-- RawFramer. How many bytes a single Read has is an argument; a reader has one byte at least for it.
use shark_socket.Base.{
  ℕ, ◌≡◌, List, [], ◌∷◌, ◌++◌, arith, ltb, leb, if◌then◌else◌, length, take, drop,
  take-append_length, drop-append_length, Result, ok, err, ◌>>◌, guard,
}
use shark_socket.Tcp.Framer.{ReadError, eof, frame_too_large}

-- 32 * 1024
abbrev default_raw_bytes : ℕ
default_raw_bytes = 32768

pub raw_limit : ℕ → ℕ
raw_limit max_frame_bytes = if ltb 0 max_frame_bytes then max_frame_bytes else default_raw_bytes

pub read_frame : ℕ → ℕ → List ℕ → Result ReadError (List ℕ × List ℕ)
read_frame available max_frame_bytes [] = err eof
read_frame available max_frame_bytes (b ∷ r) =
    let n =
      if ltb (raw_limit max_frame_bytes) available then raw_limit max_frame_bytes else available in
    ok (take n (b ∷ r), drop n (b ∷ r))

pub write_frame : ℕ → List ℕ → Result ReadError (List ℕ)
write_frame max_frame_bytes payload = do
  guard (leb (length payload) (raw_limit max_frame_bytes)) frame_too_large
  ok payload

-- A payload that `WriteFrame` takes, and that arrives whole and alone, is one frame for `ReadFrame`.
read_raw-write_raw :
    (max_frame_bytes b : ℕ) (payload rest written : List ℕ)
    → write_frame max_frame_bytes (b ∷ payload) ≡ ok written
    → read_frame (length (b ∷ payload)) max_frame_bytes (written ++ rest) ≡ ok (b ∷ payload, rest)
unfolding read_frame write_frame
read_raw-write_raw max_frame_bytes b payload rest written e =
    ground (arith, take-append_length payload rest, drop-append_length payload rest)
