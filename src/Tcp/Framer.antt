-- ===== src/Tcp/Framer.antt =====
-- The framers of the TCP transport: internal/transport/tcp/framer.go. A reader is the list of the
-- bytes that come before its end; a read gives the bytes that follow too, and after an error nothing
-- is read. A buffered reader has `capacity` bytes for its buffer. Limits that are not positive are 0.
pub mod LengthPrefix
pub mod Line
pub mod FixedSize
pub mod Raw
mod Tests
use shark_socket.Base.{
  ℕ, zero, suc, ◌+◌, ◌-◌, ◌%◌, ◌^◌, ◌≤◌, ◌<◌, ◌≡◌, refl, sym, ap, ◌∙◌, ◌⊎◌, inl, inr, Bool, true,
  false, List, [], ◌∷◌, ◌++◌, arith, ltb, leb, ◌==◌, if◌then◌else◌, length, take, drop,
  take-append_length, drop-append_length, length-append, Result, ok, err, ◌>>=◌, ◌>>◌, guard,
  put_uint32, uint32_of, All, IsByte, append-nil,
}

pub data ReadError : Type 0 where
  eof unexpected_eof frame_too_large not_positive size_differs : ReadError
  -- The loop of the model ran out of fuel: no error of the source.
  stuck : ReadError

abbrev pub default_max_frame_bytes : ℕ
default_max_frame_bytes = 1048576

pub max_bytes : ℕ → ℕ
max_bytes max_frame_bytes =
    if ltb 0 max_frame_bytes then max_frame_bytes else default_max_frame_bytes

-- io.ReadFull: the bytes asked for, and those behind them.
pub read_full : ℕ → List ℕ → Result ReadError (List ℕ × List ℕ)
read_full zero r = ok ([], r)
read_full (suc n) [] = err eof
read_full (suc n) (b ∷ r) =
    if ltb (length r) n then err unexpected_eof else ok (b ∷ take n r, drop n r)

-- binary.BigEndian.Uint32 of a header.
abbrev pub header_size : List ℕ → ℕ
header_size (a ∷ b ∷ c ∷ d ∷ _) = uint32_of a b c d
header_size _ = 0

-- Reading off the length of what is there gives all of it.
pub read_full-append : (xs r : List ℕ) → read_full (length xs) (xs ++ r) ≡ ok (xs, r)
unfolding read_full
read_full-append [] r = refl
read_full-append (x ∷ xs) r =
    ground (arith, length-append xs r, take-append_length xs r, drop-append_length xs r)
