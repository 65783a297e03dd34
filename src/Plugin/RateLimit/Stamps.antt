-- ===== src/Plugin/RateLimit/Stamps.antt =====
-- The stamps of a key: what a call, a message of another key and a sweep make of them.
use shark_socket.Base.{
  ℕ, ◌+◌, ◌≤◌, ◌≡◌, refl, ap, ◌∙◌, inl, inr, true, false, none, some, List, [], ◌∷◌, ◌++◌, arith,
  ltb, ◌==◌, if◌then◌else◌, length, length-append, All, Bool-cases,
}
use shark_socket.Base.Maps.{Eq, lookup, insert, lookup-insert, Distinct, insert-Distinct}
use shark_socket.Base.Shards.{update}
use shark_socket.Plugin.RateLimit.{
  RateLimit, prune, sweep_shard, sweep, shard_for, counters, on_message,
}

-- Pruning twice is pruning at the later instant.
pub prune-prune :
    (window now later : ℕ) (stamps : List ℕ)
    → now ≤ later
    → prune window later (prune window now stamps) ≡ prune window later stamps
unfolding prune
prune-prune window now later [] h = refl
prune-prune window now later (t ∷ stamps) h = ground (arith, prune-prune window now later stamps)

pub prune-All :
    (limit window now : ℕ) (stamps : List ℕ)
    → All (λ t. t ≤ limit) stamps
    → All (λ t. t ≤ limit) (prune window now stamps)
unfolding prune
prune-All limit window now [] a = tt
prune-All limit window now (t ∷ stamps) (h, a) = elim (Bool-cases (ltb (t + window) now)) [
  | inl gone ↦ rw gone (prune-All limit window now stamps a)
  | inr kept ↦ rw kept (h, a)
]

-- A stamp at the end that is not older than the others counts until it expires.
pub length-prune_append :
    (window now t : ℕ) (stamps : List ℕ)
    → All (λ u. u ≤ t) stamps
    → length (prune window now (stamps ++ t ∷ []))
      ≡ length (prune window now stamps) + (if ltb (t + window) now then 0 else 1)
unfolding prune
length-prune_append window now t [] a = ground arith
length-prune_append window now t (u ∷ stamps) (h, a) =
    ground (arith, length-prune_append window now t stamps a, length-append stamps (t ∷ []))

module _ {ℓ} {K : Type ℓ} ⦃e : Eq K⦄ (hash : K → ℕ) where
  stamps_in : K → List (K × List ℕ) → List ℕ
  stamps_in key entries = elim (lookup key entries) [ none ↦ [] | some stamps ↦ stamps ]

  counters-stamps_in :
      (key : K) (p : RateLimit K)
      → counters hash key p ≡ stamps_in key (p.shards (shard_for hash key))
  unfolding counters stamps_in
  counters-stamps_in key p = refl

  stamps_in-insert :
      (key j : K) (kept : List ℕ) (entries : List (K × List ℕ))
      → stamps_in j (insert key kept entries) ≡ (if e.beq key j then kept else stamps_in j entries)
  unfolding stamps_in
  stamps_in-insert key j kept entries =
      rw (lookup-insert key j kept entries, stamps_in) (ground arith)

  -- The limiter with other stamps for one key.
  unfoldable pub store : K → List ℕ → RateLimit K → RateLimit K
  store key kept p = record p {
    shards = update (shard_for hash key) (insert key kept (p.shards (shard_for hash key))) p.shards;
  }

  pub counters-store :
      (key j : K) (kept : List ℕ) (p : RateLimit K)
      → counters hash j (store key kept p) ≡ (if e.beq key j then kept else counters hash j p)
  unfolding store
  counters-store key j kept p = rw (counters-stamps_in j p) (
      counters-stamps_in j _
      ∙ ground (
        arith,
        stamps_in-insert key j kept (p.shards (shard_for hash key)),
        e.beq_iff key j,
        ap (λ k. shard_for hash k),
        ap (λ i. stamps_in j (p.shards i)),
      ))

  pub store-Distinct :
      (key : K) (kept : List ℕ) (p : RateLimit K)
      → ((i : ℕ) → Distinct (p.shards i))
      → (i : ℕ) → Distinct ((store key kept p).shards i)
  unfolding store
  store-Distinct key kept p d i = elim (Bool-cases (shard_for hash key == i)) [
    | inl same ↦ rw same (insert-Distinct key kept _ (d (shard_for hash key)))
    | inr other ↦ rw other (d i)
  ]

  -- What a message does, by its outcome.
  pub on_message-store :
      (now : ℕ) (key : K) (p : RateLimit K)
      → let stamps = prune p.window now (counters hash key p) in
        on_message hash now key p ≡ (
          if ltb (length stamps) p.rate
          then (store key (stamps ++ now ∷ []) p, true)
          else (store key stamps p, false))
  unfolding on_message store
  on_message-store now key p = ground arith

  lookup-sweep_shard :
      (window now : ℕ) (j : K) (entries : List (K × List ℕ))
      → lookup j entries ≡ none
      → lookup j (sweep_shard window now entries) ≡ none
  unfolding lookup sweep_shard
  lookup-sweep_shard window now j [] h = refl
  lookup-sweep_shard window now j ((k, stamps) ∷ entries) h =
      ground (arith, lookup-sweep_shard window now j entries)

  sweep_shard-Distinct :
      (window now : ℕ) (entries : List (K × List ℕ))
      → Distinct entries
      → Distinct (sweep_shard window now entries)
  unfolding sweep_shard
  sweep_shard-Distinct window now [] d = tt
  sweep_shard-Distinct window now ((k, stamps) ∷ entries) (fresh, d) = ground (
    arith,
    lookup-sweep_shard window now k entries fresh,
    sweep_shard-Distinct window now entries d,
  )

  stamps_in-sweep_shard :
      (window now : ℕ) (j : K) (entries : List (K × List ℕ))
      → Distinct entries
      → stamps_in j (sweep_shard window now entries) ≡ prune window now (stamps_in j entries)
  unfolding stamps_in lookup sweep_shard
  stamps_in-sweep_shard window now j [] d = unfold prune in refl
  stamps_in-sweep_shard window now j ((k, stamps) ∷ entries) (fresh, d) = ground (
    arith,
    e.beq_iff k j,
    stamps_in-sweep_shard window now j entries d,
    lookup-sweep_shard window now j entries,
    ap (λ i. lookup i entries),
  )

  pub sweep-Distinct :
      (now : ℕ) (p : RateLimit K)
      → ((i : ℕ) → Distinct (p.shards i))
      → (i : ℕ) → Distinct ((sweep now p).shards i)
  unfolding sweep
  sweep-Distinct now p d i = sweep_shard-Distinct p.window now (p.shards i) (d i)

  pub counters-sweep :
      (now : ℕ) (p : RateLimit K) (j : K)
      → ((i : ℕ) → Distinct (p.shards i))
      → counters hash j (sweep now p) ≡ prune p.window now (counters hash j p)
  unfolding sweep
  counters-sweep now p j d =
      rw (counters-stamps_in j p)
        (counters-stamps_in j _ ∙ stamps_in-sweep_shard p.window now j _ (d (shard_for hash j)))
