-- ===== src/Tcp/Framer/Line/Buffered.antt =====
-- The two ways to read a line.
use shark_socket.Base.{
  ℕ, zero, suc, ◌+◌, ◌-◌, ◌≤◌, ◌<◌, ◌≡◌, refl, inl, inr, false, Option, some, none, List, [], ◌∷◌,
  ◌++◌, append-nil, append_assoc, arith, ltb, ◌==◌, if◌then◌else◌, length, take, take-append_length,
  length-append, length-take, Result, ok, err, Bool-cases, ◌≢◌,
}
use shark_socket.Tcp.Framer.{ReadError, frame_too_large, max_bytes}
use shark_socket.Base.Streams.{Slice, found, buffer_full, ended, longer, read_slice}
use shark_socket.Tcp.Framer.Line.{delimiter, read_loop, buffered_loop, read_frame_buffered}

abbrev pub prepend : List ℕ → Option (List ℕ × List ℕ) → Option (List ℕ × List ℕ)
prepend frag none = none
prepend frag (some (p, r)) = some (frag ++ p, r)

-- The line up to the first delimiter, and what is behind it.
unfoldable pub first_line : ℕ → List ℕ → Option (List ℕ × List ℕ)
first_line delim [] = none
first_line delim (b ∷ r) =
    let rest = first_line delim r in if b == delim then some ([], r) else prepend (b ∷ []) rest

-- The result has this line, if it is within the limit; any error stands for none.
abbrev pub Reads :
    ℕ → List ℕ → Option (List ℕ × List ℕ) → Result ReadError (List ℕ × List ℕ) → Type 0
Reads limit line none result = (got : List ℕ × List ℕ) → result ≢ ok got
Reads limit line (some (p, r)) result =
    ((length (line ++ p) ≤ limit) → result ≡ ok (line ++ p, r))
    × (limit < length (line ++ p) → result ≡ err frame_too_large)

take-all_but_last :
    (line : List ℕ) (b : ℕ) → take (length (line ++ b ∷ []) - 1) (line ++ b ∷ []) ≡ line
take-all_but_last line b =
    rw (length-append line (b ∷ [])) (ground (arith, take-append_length line (b ∷ [])))

-- One round that keeps a fragment, behind a test that no line within the limit fails.
Reads-extend :
    (limit bound : ℕ) (line frag : List ℕ) (o : Option (List ℕ × List ℕ))
    (result : Result ReadError (List ℕ × List ℕ))
    → limit ≤ bound
    → Reads limit (line ++ frag) o result
    → Reads limit line
        (prepend frag o)
        (if ltb bound (length (line ++ frag)) then err frame_too_large else result)
Reads-extend limit bound line frag none result h reads = λ got e. ground (arith, reads got)
Reads-extend limit bound line frag (some (p, r)) result h (fits, long) =
    rw (← append_assoc line frag p) (
      (λ le. ground (arith, fits le, length-append (line ++ frag) p)),
      (λ lt. ground (arith, long lt)),
    )

pub read_loop-Reads :
    (r : List ℕ) (limit delim : ℕ) (line : List ℕ)
    → Reads limit line (first_line delim r) (read_loop (limit + 1) delim line r)
unfolding read_loop first_line
read_loop-Reads [] limit delim line = λ got e. ground arith
read_loop-Reads (b ∷ r) limit delim line = elim (Bool-cases (b == delim)) [
  | inl end ↦
      rw (end, append-nil, take-all_but_last line b)
        (
          (λ le. ground (arith, length-append line (b ∷ []))),
          (λ lt. ground (arith, length-append line (b ∷ []))),
        )
  | inr inner ↦ rw inner (
      Reads-extend limit (limit + 1) line (b ∷ []) (first_line delim r) _ (omega arith)
        (read_loop-Reads r limit delim (line ++ b ∷ [])))
]

-- What the slices of a reader show of its first line.
abbrev Shows : ℕ → List ℕ → Slice → Type 0
Shows delim r (found frag rest) =
    (first_line delim r ≡ some (take (length frag - 1) frag, rest)) × (0 < length frag)
Shows delim r (buffer_full frag rest) =
    (first_line delim r ≡ prepend frag (first_line delim rest))
    × (length frag + length rest ≡ length r)
Shows delim r ended = first_line delim r ≡ none

prepend-cons :
    (b : ℕ) (frag : List ℕ) (o : Option (List ℕ × List ℕ))
    → prepend (b ∷ []) (prepend frag o) ≡ prepend (b ∷ frag) o
prepend-cons b frag none = refl
prepend-cons b frag (some (p, r)) = refl

Shows-longer :
    (delim b : ℕ) (r : List ℕ) (s : Slice)
    → (b == delim) ≡ false
    → Shows delim r s
    → Shows delim (b ∷ r) (longer b s)
unfolding first_line longer
Shows-longer delim b r (found frag rest) inner (e, pos) =
    rw (inner, e) (ground (arith, pos, take-front b frag pos), omega arith)
  where
    take-front :
        (b : ℕ) (frag : List ℕ)
        → 0 < length frag
        → take (length (b ∷ frag) - 1) (b ∷ frag) ≡ b ∷ take (length frag - 1) frag
    take-front b (x ∷ frag) pos = ground arith
    take-front b [] pos = absurd (omega arith)
Shows-longer delim b r (buffer_full frag rest) inner (e, n) =
    rw (inner, e) (prepend-cons b frag (first_line delim rest), omega (arith, n))
Shows-longer delim b r ended inner e = rw (inner, e)

read_slice-Shows : (room delim : ℕ) (r : List ℕ) → Shows delim r (read_slice room delim r)
unfolding read_slice
read_slice-Shows zero delim r = (prepend-nil (first_line delim r), omega arith)
  where
    prepend-nil : (o : Option (List ℕ × List ℕ)) → o ≡ prepend [] o
    prepend-nil none = refl
    prepend-nil (some (p, r)) = refl
read_slice-Shows (suc room) delim [] = unfold first_line in refl
read_slice-Shows (suc room) delim (b ∷ r) = elim (Bool-cases (b == delim)) [
  | inl end ↦ rw end (unfold first_line in rw end, omega arith)
  | inr inner ↦
      rw inner
        (Shows-longer delim b r (read_slice room delim r) inner (read_slice-Shows room delim r))
]

-- A buffer that is full holds a byte at least.
abbrev NotEmpty : Slice → Type 0
NotEmpty (buffer_full frag rest) = 0 < length frag
NotEmpty _ = Unit {0}

read_slice-NotEmpty : (room delim : ℕ) (r : List ℕ) → NotEmpty (read_slice (suc room) delim r)
unfolding read_slice
read_slice-NotEmpty room delim [] = tt
read_slice-NotEmpty room delim (b ∷ r) = elim (Bool-cases (b == delim)) [
  | inl end ↦ rw end tt
  | inr inner ↦ rw inner (longer-NotEmpty (read_slice room delim r))
]
  where
    longer-NotEmpty : (s : Slice) → NotEmpty (longer b s)
    longer-NotEmpty (found frag rest) = unfold longer in tt
    longer-NotEmpty (buffer_full frag rest) = unfold longer in omega arith
    longer-NotEmpty ended = unfold longer in tt

-- One round, by the slice that it takes.
buffered_loop-slice :
    (fuel room limit delim : ℕ) (out r : List ℕ) (s : Slice)
    → read_slice (suc room) delim r ≡ s
    → Shows delim r s
    → ((out rest : List ℕ)
        → length rest < length r
        → Reads limit out
            (first_line delim rest)
            (buffered_loop fuel (suc room) limit delim out rest))
    → NotEmpty s
    → Reads limit out (first_line delim r) (buffered_loop (suc fuel) (suc room) limit delim out r)
unfolding buffered_loop
buffered_loop-slice fuel room limit delim out r ended e shows next pos =
    rw (shows, e, buffered_loop) (λ got same. ground (arith, same))
buffered_loop-slice fuel room limit delim out r (found frag rest) e (shows, n) next pos =
    rw (shows, e, buffered_loop)
      (
        (λ le. ground (
          arith,
          le,
          length-append out (take (length frag - 1) frag),
          length-take (length frag - 1) frag,
        )),
        (λ lt. ground (
          arith,
          lt,
          length-append out (take (length frag - 1) frag),
          length-take (length frag - 1) frag,
        )),
      )
buffered_loop-slice fuel room limit delim out r (buffer_full frag rest) e (shows, n) next pos =
    rw (shows, e, buffered_loop)
      (Reads-extend limit limit out frag (first_line delim rest) _ (omega arith)
        (next (out ++ frag) rest (omega (arith, n, pos))))

buffered_loop-Reads :
    (fuel room limit delim : ℕ) (out r : List ℕ)
    → length r < fuel
    → Reads limit out (first_line delim r) (buffered_loop fuel (suc room) limit delim out r)
buffered_loop-Reads zero room limit delim out r h = absurd (omega arith)
buffered_loop-Reads (suc fuel) room limit delim out r h =
    buffered_loop-slice fuel room limit delim out r (read_slice (suc room) delim r) refl
      (read_slice-Shows (suc room) delim r)
      (λ out rest lt. buffered_loop-Reads fuel room limit delim out rest (omega (arith, lt)))
      (read_slice-NotEmpty room delim r)

-- A line of at most the limit is read by the buffered path, and by the plain path under a limit that
-- is greater by one, since the plain path counts the delimiter too; a line above the limit is
-- too large for both, and where no delimiter comes both fail. The size of the buffer does not matter.
pub read_frame_buffered-read_loop :
    (room max_frame_bytes d : ℕ) (r : List ℕ)
    → Reads
        (max_bytes max_frame_bytes)
        []
        (first_line (delimiter d) r)
        (read_frame_buffered (suc room) max_frame_bytes d r)
      × Reads
          (max_bytes max_frame_bytes)
          []
          (first_line (delimiter d) r)
          (read_loop (max_bytes max_frame_bytes + 1) (delimiter d) [] r)
unfolding read_frame_buffered
read_frame_buffered-read_loop room max_frame_bytes d r = (
  buffered_loop-Reads (length r + 1) room (max_bytes max_frame_bytes) (delimiter d) [] r
      (omega arith),
  read_loop-Reads r (max_bytes max_frame_bytes) (delimiter d) [],
)
