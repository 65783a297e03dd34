-- ===== src/Tcp/Framer/Line/RoundTrip.antt =====
-- Lines that are written and read back.
use shark_socket.Base.{
  ℕ, suc, ◌+◌, ◌-◌, ◌≤◌, ◌≡◌, ◌≢◌, subst, some, List, [], ◌∷◌, ◌++◌, append_assoc, arith, length,
  ok, All,
}
use shark_socket.Tcp.Framer.{max_bytes}
use shark_socket.Tcp.Framer.Line.{
  delimiter, read_loop, read_frame, read_frame_buffered, write_frame,
}
use shark_socket.Tcp.Framer.Line.Buffered.{
  first_line, Reads, read_loop-Reads, read_frame_buffered-read_loop,
}

first_line-append :
    (delim : ℕ) (payload rest : List ℕ)
    → All (λ b. b ≢ delim) payload
    → first_line delim (payload ++ delim ∷ rest) ≡ some (payload, rest)
unfolding first_line
first_line-append delim [] rest a = ground arith
first_line-append delim (b ∷ payload) rest (h, a) =
    rw (first_line-append delim payload rest a) (ground (arith, h))

written_line :
    (max_frame_bytes d : ℕ) (payload written : List ℕ)
    → write_frame max_frame_bytes d payload ≡ ok written
    → (length payload + 1 ≤ max_bytes max_frame_bytes) × (written ≡ payload ++ delimiter d ∷ [])
unfolding write_frame
written_line max_frame_bytes d payload written e = ground arith

-- A payload without the delimiter that `WriteFrame` takes is read back by the plain path and by the
-- buffered path, with a buffer of any size, and the bytes behind it are left in the reader.
pub read_line-write_line :
    (room max_frame_bytes d : ℕ) (payload rest written : List ℕ)
    → All (λ b. b ≢ delimiter d) payload
    → write_frame max_frame_bytes d payload ≡ ok written
    → (read_frame max_frame_bytes d (written ++ rest) ≡ ok (payload, rest))
      × (read_frame_buffered (suc room) max_frame_bytes d (written ++ rest) ≡ ok (payload, rest))
unfolding read_frame
read_line-write_line room max_frame_bytes d payload rest written a e =
    let taken = written_line max_frame_bytes d payload written e in
    let line = first_line-append (delimiter d) payload rest a in
    let r = payload ++ delimiter d ∷ rest in
    let limit = max_bytes max_frame_bytes - 1 in
    let plain =
      subst (λ o. Reads limit [] o (read_loop (limit + 1) (delimiter d) [] r)) line
        (read_loop-Reads r limit (delimiter d) []) in
    let buffered =
      subst
        (λ o.
          Reads (max_bytes max_frame_bytes) [] o
            (read_frame_buffered (suc room) max_frame_bytes d r))
        line (read_frame_buffered-read_loop room max_frame_bytes d r).0 in
    let whole : limit + 1 ≡ max_bytes max_frame_bytes = omega (arith, taken) in
    rw (taken.1, append_assoc payload (delimiter d ∷ []) rest)
      (
        subst (λ n. read_loop n (delimiter d) [] r ≡ ok (payload, rest)) whole
            (plain.0 (omega (arith, taken))),
        buffered.0 (omega (arith, taken)),
      )
