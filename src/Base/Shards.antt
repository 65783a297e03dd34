-- ===== src/Base/Shards.antt =====
-- A table that is split into shards: an array of maps under an index.
use Prim.Native.Nat.{ℕ, zero, suc, ◌+◌, ◌≤◌, ◌<◌}
use mathlib.Core.Path.{◌≡◌, refl}
use mathlib.Core.List.{List}
use native.Mathlib.Omega.{arith}
use shark_socket.Base.Lists.{length}
use shark_socket.Base.Tests.{if◌then◌else◌, ◌==◌}

module _ {ℓ} {A : Type ℓ} where
  abbrev pub update : ℕ → A → (ℕ → A) → ℕ → A
  update i a shards j = if i == j then a else shards j

module _ {ℓ} {A : Type ℓ} where
  -- The number of entries in the shards below `n`.
  unfoldable pub total : ℕ → (ℕ → List A) → ℕ
  total zero shards = 0
  total (suc n) shards = total n shards + length (shards n)

  pub total-update_beyond :
      (n i : ℕ) (m : List A) (shards : ℕ → List A)
      → n ≤ i
      → total n (update i m shards) ≡ total n shards
  unfolding total
  total-update_beyond zero i m shards h = refl
  total-update_beyond (suc n) i m shards h = ground (arith, total-update_beyond n i m shards)

  pub total-update :
      (n i : ℕ) (m : List A) (shards : ℕ → List A)
      → i < n
      → total n (update i m shards) + length (shards i) ≡ total n shards + length m
  unfolding total
  total-update zero i m shards h = absurd (omega arith)
  total-update (suc n) i m shards h =
      ground (arith, total-update n i m shards, total-update_beyond n i m shards)
