-- ===== src/Transport/Quota/Tests.antt =====
-- A quota of three slots, two for a peer, and the theorem at it.
use shark_socket.Base.{ℕ, ◌%◌, ◌≡◌, refl, Bool, not, [], ◌∷◌, ◌==◌}
use shark_socket.Base.Maps.{nat_eq, lookup, insert}
use shark_socket.Transport.Quota.{
  quota_peer_full, PeerQuota, new_peer_quota, peer_count, acquire, release,
}
use shark_socket.Transport.Quota.Held.{Reaches, starts, takes, gives_back, Held}
use shark_socket.Transport.Quota.Ledger.{verdict, acquire-Reaches}

-- 0 stands for an address that is not valid.
abbrev known : ℕ → Bool
known ip = not (ip == 0)

abbrev shard_of : ℕ → ℕ
shard_of ip = ip % 16

abbrev start : PeerQuota ℕ
start = new_peer_quota known shard_of 3 2

abbrev taken : PeerQuota ℕ
taken =
    (acquire known shard_of 21 (acquire known shard_of 5 (acquire known shard_of 5 start).0).0).0

-- Two slots of 5 and one of 21, which has the same shard, and one of 5 given back.
taken-Reaches : Reaches known shard_of 3 2 (release known shard_of 5 taken) (21 ∷ 5 ∷ [])
unfolding acquire new_peer_quota peer_count lookup insert
taken-Reaches = gives_back (21 ∷ []) (5 ∷ []) 5 (takes 21 (takes 5 (takes 5 starts refl) refl) refl)

refused : (acquire known shard_of 5 taken).1 ≡ quota_peer_full
unfolding acquire new_peer_quota peer_count lookup insert
refused = refl

acquire-Reaches_example :
    Held known shard_of 3 2 (release known shard_of 5 taken) (21 ∷ 5 ∷ [])
    × ((acquire known shard_of 5 (release known shard_of 5 taken)).1
        ≡ verdict known shard_of 3 2 5 (21 ∷ 5 ∷ []))
acquire-Reaches_example =
    acquire-Reaches known shard_of 3 2 (release known shard_of 5 taken) (21 ∷ 5 ∷ []) 5
      taken-Reaches
