-- ===== src/Transport/Quota.antt =====
-- The quota on peers: internal/transport/shared/quota.go. `Acquire` holds its shard's lock while it
-- claims the slot by compare-and-swap, so it is one step. The type of addresses, whether one is valid
-- and the shard that it is in are arguments; a ceiling that is not positive is 0 here. The counters
-- are Go's int64, which no number of slots overflows; `total` is not below 0 where no slot is
-- released that is not held.
pub mod Held
pub mod Ledger
mod Tests
use shark_socket.Base.{
  ℕ, zero, suc, ◌+◌, ◌-◌, Bool, true, false, ◌&&◌, Option, none, some, List, [], ◌∷◌, ltb, leb,
  ◌==◌, if◌then◌else◌,
}
use shark_socket.Base.Maps.{Eq, lookup, insert, erase}
use shark_socket.Base.Shards.{update}

pub data QuotaReject : Type 0 where
  quota_ok quota_full quota_peer_full : QuotaReject

pub record PeerQuota {ℓ} (A : Type ℓ) : Type ℓ where
  pub max_total : ℕ
  pub max_peer : ℕ
  pub total : ℕ
  pub shards : ℕ → List (A × ℕ)

module _ {ℓ} {A : Type ℓ} ⦃e : Eq A⦄ (is_valid : A → Bool) (shard_of : A → ℕ) where
  pub new_peer_quota : ℕ → ℕ → PeerQuota A
  new_peer_quota max_total max_peer = record {
    max_total = max_total;
    max_peer = max_peer;
    total = 0;
    shards = λ i. [];
  }

  -- A missing key reads as 0.
  pub peer_count : A → PeerQuota A → ℕ
  peer_count ip q = elim (lookup ip (q.shards (shard_of ip))) [ none ↦ 0 | some n ↦ n ]

  pub acquire : A → PeerQuota A → PeerQuota A × QuotaReject
  unfolding peer_count
  acquire ip q =
      let tracked = is_valid ip in
      let cur = peer_count ip q in
      let claimed = record q { total = q.total + 1 } in
      if tracked && ltb 0 q.max_peer && leb q.max_peer cur
      then (q, quota_peer_full)
      else if ltb 0 q.max_total && leb q.max_total q.total
      then (q, quota_full)
      else if tracked
      then (
        record claimed {
          shards = update (shard_of ip) (insert ip (cur + 1) (q.shards (shard_of ip))) q.shards;
        },
        quota_ok,
      )
      else (claimed, quota_ok)

  -- The entry of a valid address.
  pub release_peer : A → PeerQuota A → PeerQuota A
  unfolding peer_count
  release_peer ip q =
      let cur = peer_count ip q in
      let peers = q.shards (shard_of ip) in
      if ltb 1 cur
      then record q { shards = update (shard_of ip) (insert ip (cur - 1) peers) q.shards }
      else if cur == 1
      then record q { shards = update (shard_of ip) (erase ip peers) q.shards }
      else q

  pub release : A → PeerQuota A → PeerQuota A
  unfolding release_peer
  release ip q =
      let rest = if is_valid ip then release_peer ip q else q in record rest { total = q.total - 1 }
