-- ===== src/Tcp/Framer/Line.antt =====
-- LineFramer.
pub mod Buffered
pub mod RoundTrip
use shark_socket.Base.{
  ℕ, zero, suc, ◌+◌, ◌-◌, ◌%◌, ◌^◌, Bool, true, false, Option, none, some, List, [], ◌∷◌, ◌++◌, ltb,
  leb, ◌==◌, if◌then◌else◌, length, take, drop, Result, ok, err, ◌>>=◌, ◌>>◌, guard, put_uint32,
  uint32_of,
}
use shark_socket.Base.Streams.{Slice, found, buffer_full, ended, longer, read_slice}
use shark_socket.Tcp.Framer.{
  ReadError, eof, unexpected_eof, frame_too_large, not_positive, size_differs, stuck, max_bytes,
  read_full, header_size,
}

unfoldable pub delimiter : ℕ → ℕ
delimiter d = if d == 0 then 10 else d

-- The loop of `ReadFrame`, one byte per round.
unfoldable pub read_loop : ℕ → ℕ → List ℕ → List ℕ → Result ReadError (List ℕ × List ℕ)
read_loop limit delim line [] = err eof
read_loop limit delim line (b ∷ r) =
    let rest = read_loop limit delim (line ++ b ∷ []) r in
    if ltb limit (length (line ++ b ∷ []))
    then err frame_too_large
    else if b == delim
    then ok (take (length (line ++ b ∷ []) - 1) (line ++ b ∷ []), r)
    else rest

unfoldable pub read_frame : ℕ → ℕ → List ℕ → Result ReadError (List ℕ × List ℕ)
unfolding read_loop
read_frame max_frame_bytes d r = read_loop (max_bytes max_frame_bytes) (delimiter d) [] r

pub buffered_loop : ℕ → ℕ → ℕ → ℕ → List ℕ → List ℕ → Result ReadError (List ℕ × List ℕ)
unfolding read_slice
buffered_loop zero capacity limit delim out r = err stuck
buffered_loop (suc fuel) capacity limit delim out r = elim (read_slice capacity delim r) [
  | found frag rest ↦
      if ltb limit (length out + (length frag - 1))
      then err frame_too_large
      else ok (out ++ take (length frag - 1) frag, rest)
  | buffer_full frag rest ↦
      let more = buffered_loop fuel capacity limit delim (out ++ frag) rest in
      if ltb limit (length (out ++ frag)) then err frame_too_large else more
  | ended ↦ err eof
]

-- There is a round for each byte at most, and one for the end.
unfoldable pub read_frame_buffered : ℕ → ℕ → ℕ → List ℕ → Result ReadError (List ℕ × List ℕ)
unfolding buffered_loop
read_frame_buffered capacity max_frame_bytes d r =
    buffered_loop (length r + 1) capacity (max_bytes max_frame_bytes) (delimiter d) [] r

unfoldable pub write_frame : ℕ → ℕ → List ℕ → Result ReadError (List ℕ)
write_frame max_frame_bytes d payload = do
  guard (leb (length payload + 1) (max_bytes max_frame_bytes)) frame_too_large
  ok (payload ++ delimiter d ∷ [])
