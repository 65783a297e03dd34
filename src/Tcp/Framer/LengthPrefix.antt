-- ===== src/Tcp/Framer/LengthPrefix.antt =====
-- LengthPrefixFramer.
use shark_socket.Base.{
  ℕ, ◌%◌, ◌^◌, ◌≤◌, ◌<◌, ◌≡◌, ◌∙◌, List, [], ◌∷◌, ◌++◌, arith, ltb, leb, if◌then◌else◌, length,
  take, drop, Result, ok, err, ◌>>=◌, ◌>>◌, guard, put_uint32, uint32_of, uint32_of-put_uint32,
  append_assoc,
}
use native.Mathlib.Nat.{mod-eq_of_lt}
use shark_socket.Tcp.Framer.{
  ReadError, eof, unexpected_eof, frame_too_large, max_bytes, read_full, header_size,
  read_full-append,
}

pub read_frame : ℕ → List ℕ → Result ReadError (List ℕ × List ℕ)
read_frame max_frame_bytes r = do
  header ← read_full 4 r
  guard (leb (header_size header.0) (max_bytes max_frame_bytes % 2 ^ 32)) frame_too_large
  read_full (header_size header.0) header.1

-- `Peek` leaves the header in the reader, `Discard` drops it.
pub read_frame_buffered : ℕ → List ℕ → Result ReadError (List ℕ × List ℕ)
read_frame_buffered max_frame_bytes r =
    if ltb (length r) 4 then (if ltb 0 (length r) then err unexpected_eof else err eof) else do
      guard (leb (header_size (take 4 r)) (max_bytes max_frame_bytes % 2 ^ 32)) frame_too_large
      read_full (header_size (take 4 r)) (drop 4 r)

-- The bytes that are written.
unfoldable pub write_frame : ℕ → List ℕ → Result ReadError (List ℕ)
write_frame max_frame_bytes payload = do
  guard (leb (length payload) (max_bytes max_frame_bytes)) frame_too_large
  ok (put_uint32 (length payload % 2 ^ 32) ++ payload)

-- The buffered path of the length-prefix framer reads what the plain path reads, and ends with the
-- same error, on every input.
pub read_frame_buffered-read_frame :
    (max_frame_bytes : ℕ) (r : List ℕ)
    → read_frame_buffered max_frame_bytes r ≡ read_frame max_frame_bytes r
unfolding read_frame_buffered read_frame read_full
read_frame_buffered-read_frame max_frame_bytes [] = ground arith
read_frame_buffered-read_frame max_frame_bytes (a ∷ []) = ground arith
read_frame_buffered-read_frame max_frame_bytes (a ∷ b ∷ []) = ground arith
read_frame_buffered-read_frame max_frame_bytes (a ∷ b ∷ c ∷ []) = ground arith
read_frame_buffered-read_frame max_frame_bytes (a ∷ b ∷ c ∷ d ∷ r) = ground arith

accepted :
    (max_frame_bytes : ℕ) (payload written : List ℕ)
    → write_frame max_frame_bytes payload ≡ ok written
    → (length payload ≤ max_bytes max_frame_bytes)
      × (written ≡ put_uint32 (length payload % 2 ^ 32) ++ payload)
unfolding write_frame
accepted max_frame_bytes payload written e = ground arith

max_bytes-fits :
    (max_frame_bytes : ℕ) → max_frame_bytes < 2 ^ 32 → max_bytes max_frame_bytes < 2 ^ 32
unfolding max_bytes
max_bytes-fits max_frame_bytes fits = ground arith

read_frame-header :
    (max_frame_bytes a b c d : ℕ) (r : List ℕ)
    → read_frame max_frame_bytes (a ∷ b ∷ c ∷ d ∷ r) ≡ (
        if leb (uint32_of a b c d) (max_bytes max_frame_bytes % 2 ^ 32)
        then read_full (uint32_of a b c d) r
        else err frame_too_large)
unfolding read_frame read_full
read_frame-header max_frame_bytes a b c d r = ground arith

read_frame-framed :
    (max_frame_bytes : ℕ) (payload rest : List ℕ)
    → length payload ≤ max_bytes max_frame_bytes
    → max_bytes max_frame_bytes < 2 ^ 32
    → read_frame max_frame_bytes (put_uint32 (length payload % 2 ^ 32) ++ payload ++ rest)
      ≡ ok (payload, rest)
read_frame-framed max_frame_bytes payload rest le fits =
    rw
      (
        read_frame-header,
        uint32_of-put_uint32 (length payload) (omega arith),
        mod-eq_of_lt fits,
        read_full-append payload rest,
      )
      (ground (arith, le))

-- With a limit below 2 ^ 32 every payload that `WriteFrame` takes is read back, by the buffered path
-- too, and the bytes behind it are left in the reader.
pub read_frame-write_frame :
    (max_frame_bytes : ℕ) (payload rest written : List ℕ)
    → max_frame_bytes < 2 ^ 32
    → write_frame max_frame_bytes payload ≡ ok written
    → (read_frame max_frame_bytes (written ++ rest) ≡ ok (payload, rest))
      × (read_frame_buffered max_frame_bytes (written ++ rest) ≡ ok (payload, rest))
read_frame-write_frame max_frame_bytes payload rest written fits e =
    let taken = accepted max_frame_bytes payload written e in
    rw (taken.1, append_assoc (put_uint32 (length payload % 2 ^ 32)) payload rest)
      (framed, read_frame_buffered-read_frame max_frame_bytes _ ∙ framed)
  where
    framed :
        read_frame max_frame_bytes (put_uint32 (length payload % 2 ^ 32) ++ payload ++ rest)
        ≡ ok (payload, rest)
    framed =
        read_frame-framed max_frame_bytes payload rest
          (accepted max_frame_bytes payload written e).0 (max_bytes-fits max_frame_bytes fits)
