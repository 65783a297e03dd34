-- ===== src/Transport/Proxy/Reading.antt =====
-- Readers that take a front of the stream and look no further.
use shark_socket.Base.{
  ℕ, zero, suc, ◌≤◌, ◌≡◌, refl, List, [], ◌∷◌, ◌++◌, arith, ◌==◌, length, ok, Bool-cases,
  length-append, inl, inr, take-append-drop, take-append_length, drop-append_length, length-take,
}
use shark_socket.Base.Streams.{Slice, found, buffer_full, ended, longer, read_slice}
use shark_socket.Transport.Proxy.{read_full}

pub read_full-append : (a t : List ℕ) → read_full (length a) (a ++ t) ≡ ok (a, t)
unfolding read_full
read_full-append a t =
    ground (arith, length-append a t, take-append_length a t, drop-append_length a t)

-- What is read is the front, whatever comes behind it.
pub read_full_front :
    (n : ℕ) (r a rest : List ℕ) → read_full n r ≡ ok (a, rest) → (r ≡ a ++ rest) × (length a ≡ n)
unfolding read_full
read_full_front n r a rest h =
    (ground (arith, h, take-append-drop n r), ground (arith, h, length-take n r))

longer-found :
    (b : ℕ) (s : Slice) (line rest : List ℕ)
    → longer b s ≡ found line rest
    → (front : List ℕ) × (s ≡ found front rest) × (line ≡ b ∷ front)
unfolding longer
longer-found b (found front r) line rest h = (front, ground (arith, h), ground (arith, h))
longer-found b (buffer_full front r) line rest h = absurd (ground (arith, h))
longer-found b ended line rest h = absurd (ground (arith, h))

pub read_slice_front :
    (room delim : ℕ) (r line rest : List ℕ)
    → read_slice room delim r ≡ found line rest
    → (r ≡ line ++ rest)
      × (length line ≤ room)
      × ((t : List ℕ) → read_slice room delim (line ++ t) ≡ found line t)
unfolding read_slice longer
read_slice_front zero delim r line rest h = absurd (ground (arith, h))
read_slice_front (suc room) delim [] line rest h = absurd (ground (arith, h))
read_slice_front (suc room) delim (b ∷ r) line rest h = elim (Bool-cases (b == delim)) [
  | inl same ↦
      let e : line ≡ b ∷ [] = ground (arith, h, same) in
      (ground (arith, h, same), ground (arith, h, same), λ t. rw e (rw (same, read_slice) refl))
  | inr other ↦
      let (front, inner, e) =
        longer-found b (read_slice room delim r) line rest (ground (arith, h, other)) in
      let (whole, bound, again) = read_slice_front room delim r front rest inner in
      (
        ground (arith, e, whole),
        ground (arith, e, bound),
        λ t. rw e (rw (other, again t, read_slice) refl),
      )
]
