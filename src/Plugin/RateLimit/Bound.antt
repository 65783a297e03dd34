-- ===== src/Plugin/RateLimit/Bound.antt =====
-- How many messages of a key the limiter passes on in any stretch of time.
use shark_socket.Base.{ℕ, ◌+◌, ◌≤◌, ◌<◌, ap, ◌&&◌, List, [], ◌∷◌, arith, ltb, leb, if◌then◌else◌}
use shark_socket.Base.Maps.{Eq}
use shark_socket.Plugin.RateLimit.{RateLimit, sweep, on_message, new_rate_limit}
use shark_socket.Plugin.RateLimit.Windows.{
  Event, message, sweeps, Ordered, recent, Remembers, sweep-Remembers, on_message-Remembers,
  new_rate_limit-Remembers,
}

module _ {ℓ} {K : Type ℓ} ⦃e : Eq K⦄ where
  -- The messages of a key from `start` to `start + window`.
  pub within : ℕ → ℕ → K → List (K × ℕ) → ℕ
  within window start key [] = 0
  within window start key ((j, t) ∷ history) =
      (if e.beq j key && leb start t && leb t (start + window) then 1 else 0)
      + within window start key history

  within-recent :
      (window start now : ℕ) (key : K) (history : List (K × ℕ))
      → now ≤ start + window
      → within window start key history ≤ recent window now key history
  unfolding within recent
  within-recent window start now key [] h = omega arith
  within-recent window start now key ((j, t) ∷ history) h =
      ground (arith, within-recent window start now key history h)

  module _ (hash : K → ℕ) where
    -- The messages that the limiter passes on, with their keys and instants, the latest first.
    pub passed_on : RateLimit K → List (K × ℕ) → List (Event K) → List (K × ℕ)
    passed_on p history [] = history
    passed_on p history (sweeps now ∷ evs) = passed_on (sweep now p) history evs
    passed_on p history (message now key ∷ evs) =
        passed_on (on_message hash now key p).0
          (if (on_message hash now key p).1 then (key, now) ∷ history else history) evs

    bounded-from :
        (evs : List (Event K)) (rate window last : ℕ) (p : RateLimit K) (history : List (K × ℕ))
        → Remembers hash rate window last p history
        → Ordered last evs
        → ((start : ℕ) (key : K) → within window start key history ≤ rate)
        → (start : ℕ) (key : K) → within window start key (passed_on p history evs) ≤ rate
    unfolding passed_on
    bounded-from [] rate window last p history r o bound start key = bound start key
    bounded-from (sweeps now ∷ evs) rate window last p history r (h, o) bound start key =
        bounded-from evs rate window now (sweep now p) history
          (sweep-Remembers hash rate window last now p history r h) o bound start key
    bounded-from (message now j ∷ evs) rate window last p history r (h, o) bound start key =
        let next = on_message-Remembers hash rate window last now p history r h j in
        rw (next.0) (
          bounded-from evs rate window now (on_message hash now j p).0 _ next.1 o next_bound start
            key)
      where
        next_bound :
            (start : ℕ) (key : K)
            → within window start key
                (if ltb (recent window now j history) rate then (j, now) ∷ history else history)
              ≤ rate
        next_bound start key =
            unfold within in
            ground (
              arith,
              bound start key,
              within-recent window start now j history,
              e.beq_iff j key,
              ap (λ k. recent window now k history),
              ap (λ k. within window start k history),
            )

    -- Under a clock that does not go back, no closed interval as long as the window has more than
    -- `rate` messages of a key that are passed on.
    pub within-passed_on :
        (rate window : ℕ) (evs : List (Event K)) (start : ℕ) (key : K)
        → 0 < rate
        → 0 < window
        → Ordered 0 evs
        → within window start key (passed_on (new_rate_limit rate window) [] evs) ≤ rate
    within-passed_on rate window evs start key hr hw o =
        bounded-from evs rate window 0 _ [] (new_rate_limit-Remembers hash rate window hr hw) o
          (λ start key. unfold within in omega arith) start key
