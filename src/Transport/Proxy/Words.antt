-- ===== src/Transport/Proxy/Words.antt =====
-- The words of a line: what the splitting of a joined line gives back.
use shark_socket.Base.{
  ℕ, zero, suc, ◌<◌, ◌≡◌, refl, ap, ◌∙◌, Bool, true, false, List, [], ◌∷◌, ◌++◌, arith, ◌==◌,
  if◌then◌else◌, length, get_or, All,
}
use shark_socket.Base.Streams.{found, longer, read_slice}
use shark_socket.Transport.Proxy.{prepend, split}

unfoldable pub lacks : ℕ → List ℕ → Bool
lacks c [] = true
lacks c (b ∷ s) = let rest = lacks c s in if b == c then false else rest

-- The pieces with a separator between two of them.
abbrev pub joined : ℕ → List (List ℕ) → List ℕ
joined sep [] = []
joined sep (piece ∷ []) = piece
joined sep (piece ∷ next ∷ pieces) = piece ++ sep ∷ joined sep (next ∷ pieces)

-- The first byte is another one, and the rest lacks it too.
lacks_cons :
    (c b : ℕ) (s : List ℕ) → lacks c (b ∷ s) ≡ true → ((b == c) ≡ false) × (lacks c s ≡ true)
unfolding lacks
lacks_cons c b s h = (ground (arith, h), ground (arith, h))

split-piece : (sep : ℕ) (s : List ℕ) → lacks sep s ≡ true → split sep s ≡ s ∷ []
unfolding split prepend
split-piece sep [] h = refl
split-piece sep (b ∷ s) h =
    let (other, rest) = lacks_cons sep b s h in
    rw (other, split-piece sep s rest, split, prepend) refl

split-append :
    (sep : ℕ) (s t : List ℕ) → lacks sep s ≡ true → split sep (s ++ sep ∷ t) ≡ s ∷ split sep t
unfolding split prepend
split-append sep [] t h = ground arith
split-append sep (b ∷ s) t h =
    let (other, rest) = lacks_cons sep b s h in
    rw (other, split-append sep s t rest, split, prepend) refl

pub split-joined :
    (sep : ℕ) (piece : List ℕ) (pieces : List (List ℕ))
    → All (λ s. lacks sep s ≡ true) (piece ∷ pieces)
    → split sep (joined sep (piece ∷ pieces)) ≡ piece ∷ pieces
split-joined sep piece [] (h, hs) = split-piece sep piece h
split-joined sep piece (next ∷ pieces) (h, hs) =
    split-append sep piece (joined sep (next ∷ pieces)) h
    ∙ ap (◌∷◌ piece) (split-joined sep next pieces hs)

pub lacks-append :
    (c : ℕ) (s t : List ℕ) → lacks c s ≡ true → lacks c t ≡ true → lacks c (s ++ t) ≡ true
unfolding lacks
lacks-append c [] t h k = k
lacks-append c (b ∷ s) t h k =
    let (other, rest) = lacks_cons c b s h in ground (arith, other, lacks-append c s t rest k)

pub lacks-joined :
    (c sep : ℕ) (pieces : List (List ℕ))
    → (sep == c) ≡ false
    → All (λ s. lacks c s ≡ true) pieces
    → lacks c (joined sep pieces) ≡ true
unfolding lacks
lacks-joined c sep [] other hs = refl
lacks-joined c sep (piece ∷ []) other (h, hs) = h
lacks-joined c sep (piece ∷ next ∷ pieces) other (h, hs) =
    lacks-append c piece (sep ∷ joined sep (next ∷ pieces)) h
      (ground (arith, other, lacks-joined c sep (next ∷ pieces) other hs))

pub read_slice-line :
    (room delim : ℕ) (s r : List ℕ)
    → lacks delim s ≡ true
    → length s < room
    → read_slice room delim (s ++ delim ∷ r) ≡ found (s ++ delim ∷ []) r
unfolding read_slice longer
read_slice-line zero delim s r h small = absurd (omega arith)
read_slice-line (suc room) delim [] r h small = ground arith
read_slice-line (suc room) delim (b ∷ s) r h small =
    let (other, rest) = lacks_cons delim b s h in
    rw (other, read_slice-line room delim s r rest (omega arith), read_slice, longer) refl

pub get_or-append : (s t : List ℕ) → get_or (s ++ t) (length s) 0 ≡ get_or t 0 0
get_or-append [] t = refl
get_or-append (b ∷ s) t = get_or-append s t
