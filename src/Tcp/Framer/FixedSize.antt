-- ===== src/Tcp/Framer/FixedSize.antt =====
-- FixedSizeFramer.
use shark_socket.Base.{ℕ, List, ◌++◌, ltb, ◌==◌, length, ◌≡◌, arith, Result, ok, ◌>>◌, guard}
use shark_socket.Tcp.Framer.{ReadError, not_positive, size_differs, read_full, read_full-append}

pub read_frame : ℕ → List ℕ → Result ReadError (List ℕ × List ℕ)
read_frame size r = do guard (ltb 0 size) not_positive; read_full size r

pub write_frame : ℕ → List ℕ → Result ReadError (List ℕ)
write_frame size payload = do
  guard (ltb 0 size) not_positive
  guard (length payload == size) size_differs
  ok payload

-- A payload that `WriteFrame` takes is read back, and the bytes behind it are left in the reader.
read_fixed-write_fixed :
    (size : ℕ) (payload rest written : List ℕ)
    → write_frame size payload ≡ ok written
    → read_frame size (written ++ rest) ≡ ok (payload, rest)
unfolding read_frame write_frame
read_fixed-write_fixed size payload rest written e = ground (arith, read_full-append payload rest)
