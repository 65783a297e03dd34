-- ===== src/Plugin/RateLimit.antt =====
-- The rate limiter: internal/plugin/ratelimit.go. A call holds its shard's lock, so it is one step;
-- the clock and the hash of maphash are arguments. Times are nanoseconds; a rate or window that is
-- not positive is 0 here.
pub mod Stamps
pub mod Windows
pub mod Bound
mod Tests
use shark_socket.Base.{
  ℕ, zero, suc, ◌+◌, ◌%◌, Bool, true, false, Option, none, some, List, [], ◌∷◌, ◌++◌, ltb, leb,
  ◌==◌, if◌then◌else◌, length,
}
use shark_socket.Base.Maps.{Eq, lookup, insert}
use shark_socket.Base.Shards.{update}

abbrev pub rate_limit_shard_count : ℕ
rate_limit_shard_count = 32

-- time.Second
abbrev pub second : ℕ
second = 1000000000

pub record RateLimit {ℓ} (K : Type ℓ) : Type ℓ where
  pub rate : ℕ
  pub window : ℕ
  pub shards : ℕ → List (K × List ℕ)

-- The loop that drops the stamps before `now - window`, without its subtraction.
pub prune : ℕ → ℕ → List ℕ → List ℕ
prune window now [] = []
prune window now (t ∷ stamps) =
    let rest = prune window now stamps in if ltb (t + window) now then rest else t ∷ stamps

module _ {ℓ} {K : Type ℓ} where
  pub set_limit : ℕ → ℕ → RateLimit K → RateLimit K
  set_limit rate window p = record p {
    rate = if rate == 0 then 1 else rate;
    window = if window == 0 then second else window;
  }

  pub limit : RateLimit K → ℕ × ℕ
  limit p = (p.rate, p.window)

  pub new_rate_limit : ℕ → ℕ → RateLimit K
  unfolding set_limit
  new_rate_limit rate window =
      set_limit rate window (record { rate = 0; window = 0; shards = λ i. [] })

  -- The tables after `sweep` at `now`.
  pub sweep_shard : ℕ → ℕ → List (K × List ℕ) → List (K × List ℕ)
  unfolding prune
  sweep_shard window now [] = []
  sweep_shard window now ((k, stamps) ∷ counters) =
      let rest = sweep_shard window now counters in
      elim (prune window now stamps) [ [] ↦ rest | t ∷ left ↦ (k, t ∷ left) ∷ rest ]

  pub sweep : ℕ → RateLimit K → RateLimit K
  unfolding sweep_shard
  sweep now p = record p { shards = λ i. sweep_shard p.window now (p.shards i) }

module _ {ℓ} {K : Type ℓ} ⦃e : Eq K⦄ (hash : K → ℕ) where
  pub shard_for : K → ℕ
  shard_for key = hash key % rate_limit_shard_count

  -- `sh.counters[key]`, where a missing key reads as nil.
  pub counters : K → RateLimit K → List ℕ
  unfolding shard_for
  counters key p = elim (lookup key (p.shards (shard_for key))) [ none ↦ [] | some stamps ↦ stamps ]

  -- The limiter, and whether the message is passed on; `false` is ErrPluginDrop.
  pub on_message : ℕ → K → RateLimit K → RateLimit K × Bool
  unfolding counters shard_for prune
  on_message now key p =
      let stamps = prune p.window now (counters key p) in
      let store = λ (kept : List ℕ). record p {
        shards = update (shard_for key) (insert key kept (p.shards (shard_for key))) p.shards;
      } in
      if leb p.rate (length stamps)
      then (store stamps, false)
      else (store (stamps ++ now ∷ []), true)
