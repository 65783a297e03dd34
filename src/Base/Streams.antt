-- ===== src/Base/Streams.antt =====
-- Reading from a bufio.Reader, as both the framers and the PROXY protocol do: `ReadSlice`.
use Prim.Native.Nat.{ℕ, zero, suc}
use mathlib.Core.List.{List, [], ◌∷◌}
use shark_socket.Base.Tests.{◌==◌, if◌then◌else◌}

-- What `ReadSlice` gives: a fragment that ends with the delimiter, one that fills the buffer
-- without it, or what is left at the end; each with the bytes behind it.
pub data Slice : Type 0 where
  found buffer_full : List ℕ → List ℕ → Slice
  ended : Slice

unfoldable pub longer : ℕ → Slice → Slice
longer b (found frag r) = found (b ∷ frag) r
longer b (buffer_full frag r) = buffer_full (b ∷ frag) r
longer b ended = ended

unfoldable pub read_slice : ℕ → ℕ → List ℕ → Slice
unfolding longer
read_slice zero delim r = buffer_full [] r
read_slice (suc room) delim [] = ended
read_slice (suc room) delim (b ∷ r) =
    let rest = read_slice room delim r in if b == delim then found (b ∷ []) r else longer b rest
