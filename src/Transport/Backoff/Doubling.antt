-- ===== src/Transport/Backoff/Doubling.antt =====
-- The delay of each retry in a row.
use shark_socket.Base.{ℕ, zero, suc, ◌*◌, ◌^◌, ◌≤◌, ◌<◌, ◌≡◌, refl, ap, ◌∙◌, arith, min}
use native.Mathlib.Nat.{pow-suc, one-le-pow}
use shark_socket.Transport.Backoff.{Backoff, new_backoff, wait, reset}

-- The back-off after `n` waits in a row.
unfoldable pub waits : ℕ → Backoff → Backoff
waits zero b = b
waits (suc n) b = wait (waits n b)

pub record IsBackoff (b : Backoff) : Type 0 where
  pub min_pos : 0 < b.min_delay
  pub ordered : b.min_delay ≤ b.max_delay

new_backoff-IsBackoff : (low high : ℕ) → IsBackoff (new_backoff low high)
unfolding new_backoff
new_backoff-IsBackoff low high = ground arith

waits-bounds :
    (n : ℕ) (b : Backoff)
    → ((waits n b).min_delay ≡ b.min_delay) × ((waits n b).max_delay ≡ b.max_delay)
unfolding waits wait
waits-bounds zero b = (refl, refl)
waits-bounds (suc n) b = ground (arith, waits-bounds n b)

waits-delay :
    (n : ℕ) (b : Backoff)
    → IsBackoff b
    → (waits (suc n) (reset b)).delay ≡ min (b.min_delay * 2 ^ n) b.max_delay
unfolding waits wait reset
waits-delay zero b v = ground (arith, v)
waits-delay (suc n) b v =
    ground (arith, v, waits-delay n b v, waits-bounds n (reset b), next, one-le-pow n 2)
  where
    next : b.min_delay * 2 ^ suc n ≡ 2 * (b.min_delay * 2 ^ n)
    next = ap (λ (t : ℕ). b.min_delay * t) (pow-suc 2 n) ∙ omega arith

waits-IsBackoff : (n : ℕ) (b : Backoff) → IsBackoff b → IsBackoff (waits n b)
waits-IsBackoff n b v = omega (arith, v, waits-bounds n b)

new_backoff-reset : (low high : ℕ) → new_backoff low high ≡ reset (new_backoff low high)
unfolding new_backoff reset
new_backoff-reset low high = refl

-- From a new back-off, and again from a reset after any number of waits, the waits in a row take the
-- least delay, then twice as long each time, up to the greatest; whatever bounds it was made with, the
-- least delay is positive and not above the greatest.
pub waits-new_backoff :
    (low high n earlier : ℕ)
    → let b = new_backoff low high in
      IsBackoff b
      × ((waits (suc n) b).delay ≡ min (b.min_delay * 2 ^ n) b.max_delay)
      × ((waits (suc n) (reset (waits earlier b))).delay ≡ min (b.min_delay * 2 ^ n) b.max_delay)
waits-new_backoff low high n earlier =
    let b = new_backoff low high in
    let v = new_backoff-IsBackoff low high in
    let kept = waits-bounds earlier b in
    (
      v,
      ap (λ (c : Backoff). (waits (suc n) c).delay) (new_backoff-reset low high)
          ∙ waits-delay n b v,
      waits-delay n (waits earlier b) (waits-IsBackoff earlier b v)
          ∙ ap (λ (t : ℕ). min (t * 2 ^ n) (waits earlier b).max_delay) kept.0
          ∙ ap (λ (t : ℕ). min (b.min_delay * 2 ^ n) t) kept.1,
    )
