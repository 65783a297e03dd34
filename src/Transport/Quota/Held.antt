-- ===== src/Transport/Quota/Held.antt =====
-- The counters of a quota against the slots that are held.
use shark_socket.Base.{
  ℕ, ◌+◌, ◌≤◌, ◌<◌, ◌≡◌, refl, ap, inl, inr, Bool, true, false, Option, none, some, List, [], ◌∷◌,
  ◌++◌, arith, ◌==◌, if◌then◌else◌, length, All, Bool-cases,
}
use shark_socket.Base.Maps.{Eq, lookup, insert, erase}
use shark_socket.Base.Shards.{update}
use shark_socket.Transport.Quota.{quota_ok, PeerQuota, new_peer_quota, peer_count, acquire, release}

module _ {ℓ} {A : Type ℓ} ⦃e : Eq A⦄ where
  -- How many of the slots this address holds.
  unfoldable pub times : A → List A → ℕ
  times ip [] = 0
  times ip (x ∷ held) = (if e.beq x ip then 1 else 0) + times ip held

  pub times-append : (ip : A) (xs ys : List A) → times ip (xs ++ ys) ≡ times ip xs + times ip ys
  unfolding times
  times-append ip [] ys = omega arith
  times-append ip (x ∷ xs) ys = omega (arith, times-append ip xs ys)

  module _ (is_valid : A → Bool) (shard_of : A → ℕ) where
    -- A quota that calls lead to from a new one, with the slots held: each release is of a slot held.
    pub data Reaches (max_total max_peer : ℕ) : PeerQuota A → List A → Type ℓ where
      starts : Reaches max_total max_peer (new_peer_quota is_valid shard_of max_total max_peer) []
      takes :
          {q : PeerQuota A} {held : List A} (ip : A)
          → Reaches max_total max_peer q held
          → (acquire is_valid shard_of ip q).1 ≡ quota_ok
          → Reaches max_total max_peer (acquire is_valid shard_of ip q).0 (ip ∷ held)
      gives_back :
          {q : PeerQuota A} (xs ys : List A) (ip : A)
          → Reaches max_total max_peer q (xs ++ ip ∷ ys)
          → Reaches max_total max_peer (release is_valid shard_of ip q) (xs ++ ys)

    pub record Held (max_total max_peer : ℕ) (q : PeerQuota A) (held : List A) : Type ℓ where
      pub same_total : q.max_total ≡ max_total
      pub same_peer : q.max_peer ≡ max_peer
      pub counts_all : q.total ≡ length held
      pub counts_peer :
          (ip : A) → peer_count is_valid shard_of ip q ≡ (if is_valid ip then times ip held else 0)
      pub total_capped : 0 < max_total → length held ≤ max_total
      pub peer_capped : (ip : A) → is_valid ip ≡ true → 0 < max_peer → times ip held ≤ max_peer
      pub live : (i : ℕ) → All (λ entry. 0 < entry.1) (q.shards i)

    -- The quota with other entries in the shard of an address.
    unfoldable pub put : A → List (A × ℕ) → ℕ → PeerQuota A → PeerQuota A
    put ip entries n q = record q { total = n; shards = update (shard_of ip) entries q.shards }

    unfoldable pub value_of : Option ℕ → ℕ
    value_of none = 0
    value_of (some n) = n

    peer_count-put :
        (ip j : A) (entries : List (A × ℕ)) (n : ℕ) (own : Option ℕ) (q : PeerQuota A)
        → ((k : A)
            → lookup k entries ≡ (if e.beq ip k then own else lookup k (q.shards (shard_of ip))))
        → peer_count is_valid shard_of j (put ip entries n q)
          ≡ (if e.beq ip j then value_of own else peer_count is_valid shard_of j q)
    unfolding peer_count put value_of
    peer_count-put ip j entries n own q h =
        ground (arith, h j, e.beq_iff ip j, ap (λ k. shard_of k), ap q.shards)

    pub insert-live :
        (ip : A) (n : ℕ) (entries : List (A × ℕ))
        → 0 < n
        → All (λ entry. 0 < entry.1) entries
        → All (λ entry. 0 < entry.1) (insert ip n entries)
    unfolding insert
    insert-live ip n [] h a = (h, tt)
    insert-live ip n ((j, m) ∷ entries) h (b, a) = elim (Bool-cases (e.beq j ip)) [
      | inl same ↦ rw same (h, a)
      | inr other ↦ rw other (b, insert-live ip n entries h a)
    ]

    pub erase-live :
        (ip : A) (entries : List (A × ℕ))
        → All (λ entry. 0 < entry.1) entries
        → All (λ entry. 0 < entry.1) (erase ip entries)
    unfolding erase
    erase-live ip [] a = tt
    erase-live ip ((j, m) ∷ entries) (b, a) = elim (Bool-cases (e.beq j ip)) [
      | inl same ↦ rw same (erase-live ip entries a)
      | inr other ↦ rw other (b, erase-live ip entries a)
    ]

    module _ (max_total max_peer : ℕ) (q : PeerQuota A) (held held' : List A)
        (v : Held max_total max_peer q held) where
      -- The entry of a valid address is replaced, and the other addresses hold what they held.
      pub put-Held :
          (ip : A) (entries : List (A × ℕ)) (own : Option ℕ)
          → is_valid ip ≡ true
          → ((k : A)
              → lookup k entries ≡ (if e.beq ip k then own else lookup k (q.shards (shard_of ip))))
          → value_of own ≡ times ip held'
          → ((j : A) → e.beq ip j ≡ false → times j held' ≡ times j held)
          → All (λ entry. 0 < entry.1) entries
          → (0 < max_total → length held' ≤ max_total)
          → (0 < max_peer → times ip held' ≤ max_peer)
          → Held max_total max_peer (put ip entries (length held') q) held'
      put-Held ip entries own valid law mine others alive total_cap peer_cap = record {
        same_total = unfold put in v.same_total;
        same_peer = unfold put in v.same_peer;
        counts_all = unfold put in refl;
        counts_peer = λ j. elim (Bool-cases (e.beq ip j)) [
          | inl same ↦
              rw (peer_count-put ip j entries (length held') own q law, same)
                (ground (
                  arith,
                  mine,
                  valid,
                  (e.beq_iff ip j).0 same,
                  ap is_valid ((e.beq_iff ip j).0 same),
                  ap (λ k. times k held') ((e.beq_iff ip j).0 same),
                ))
          | inr other ↦
              rw (peer_count-put ip j entries (length held') own q law, other, others j other)
                (v.counts_peer j)
        ];
        total_capped = total_cap;
        peer_capped = λ j valid_j h. elim (Bool-cases (e.beq ip j)) [
          | inl same ↦ ground (arith, peer_cap h, ap (λ k. times k held') ((e.beq_iff ip j).0 same))
          | inr other ↦ ground (arith, others j other, v.peer_capped j valid_j h)
        ];
        live = λ i. unfold put in live_at i;
      }
        where
          live_at : (i : ℕ) → All (λ entry. 0 < entry.1) ((update (shard_of ip) entries q.shards) i)
          live_at i = elim (Bool-cases (shard_of ip == i)) [
            | inl same ↦ rw same alive
            | inr other ↦ rw other (v.live i)
          ]

      -- An address that is not valid changes the total alone.
      pub count-Held :
          ((j : A) → is_valid j ≡ true → times j held' ≡ times j held)
          → (0 < max_total → length held' ≤ max_total)
          → Held max_total max_peer (record q { total = length held' }) held'
      unfolding peer_count
      count-Held others total_cap = record {
        same_total = v.same_total;
        same_peer = v.same_peer;
        counts_all = refl;
        counts_peer = λ j. ground (arith, others j, v.counts_peer j);
        total_capped = total_cap;
        peer_capped = λ j valid_j h. ground (arith, others j valid_j, v.peer_capped j valid_j h);
        live = v.live;
      }
