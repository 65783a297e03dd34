-- ===== src/Tcp/Framer/Tests.antt =====
-- Runs of the framers, and the theorems at concrete streams.
use shark_socket.Base.{ℕ, ◌+◌, ◌≡◌, refl, List, [], ◌∷◌, ◌++◌, arith, ok, err}
use shark_socket.Tcp.Framer.{frame_too_large, max_bytes}
use shark_socket.Tcp.Framer.LengthPrefix
use shark_socket.Tcp.Framer.Line
use shark_socket.Tcp.Framer.Line.Buffered.{Reads, first_line, read_frame_buffered-read_loop}
use shark_socket.Tcp.Framer.Line.RoundTrip.{read_line-write_line}

framed : LengthPrefix.write_frame 3 (7 ∷ 8 ∷ []) ≡ ok (0 ∷ 0 ∷ 0 ∷ 2 ∷ 7 ∷ 8 ∷ [])
unfolding LengthPrefix.write_frame max_bytes
framed = refl

read_frame-write_frame_example :
    (LengthPrefix.read_frame 3 ((0 ∷ 0 ∷ 0 ∷ 2 ∷ 7 ∷ 8 ∷ []) ++ 5 ∷ []) ≡ ok (7 ∷ 8 ∷ [], 5 ∷ []))
    × (LengthPrefix.read_frame_buffered 3 ((0 ∷ 0 ∷ 0 ∷ 2 ∷ 7 ∷ 8 ∷ []) ++ 5 ∷ [])
        ≡ ok (7 ∷ 8 ∷ [], 5 ∷ []))
read_frame-write_frame_example =
    LengthPrefix.read_frame-write_frame 3 (7 ∷ 8 ∷ []) (5 ∷ []) (0 ∷ 0 ∷ 0 ∷ 2 ∷ 7 ∷ 8 ∷ [])
      (omega arith) framed

-- A line as long as the limit: refused by the plain path, read by the buffered path.
abbrev at_limit : List ℕ
at_limit = 7 ∷ 8 ∷ 9 ∷ 10 ∷ 5 ∷ []

plain_refuses : Line.read_frame 3 0 at_limit ≡ err frame_too_large
unfolding Line.read_frame max_bytes Line.delimiter
plain_refuses = refl

buffered_reads : Line.read_frame_buffered 2 3 0 at_limit ≡ ok (7 ∷ 8 ∷ 9 ∷ [], 5 ∷ [])
unfolding Line.read_frame_buffered max_bytes Line.delimiter
buffered_reads = refl

read_frame_buffered-read_loop_example :
    Reads
      (max_bytes 3)
      []
      (first_line (Line.delimiter 0) at_limit)
      (Line.read_frame_buffered 2 3 0 at_limit)
    × Reads
        (max_bytes 3)
        []
        (first_line (Line.delimiter 0) at_limit)
        (Line.read_loop (max_bytes 3 + 1) (Line.delimiter 0) [] at_limit)
read_frame_buffered-read_loop_example = read_frame_buffered-read_loop 1 3 0 at_limit

line_written : Line.write_frame 3 0 (7 ∷ 8 ∷ []) ≡ ok (7 ∷ 8 ∷ 10 ∷ [])
unfolding Line.write_frame max_bytes Line.delimiter
line_written = refl

read_line-write_line_example :
    (Line.read_frame 3 0 ((7 ∷ 8 ∷ 10 ∷ []) ++ 5 ∷ []) ≡ ok (7 ∷ 8 ∷ [], 5 ∷ []))
    × (Line.read_frame_buffered 2 3 0 ((7 ∷ 8 ∷ 10 ∷ []) ++ 5 ∷ []) ≡ ok (7 ∷ 8 ∷ [], 5 ∷ []))
read_line-write_line_example =
    read_line-write_line 1 3 0 (7 ∷ 8 ∷ []) (5 ∷ []) (7 ∷ 8 ∷ 10 ∷ [])
      (unfold Line.delimiter in omega arith) line_written
