-- ===== src/Transport/Quota/Ledger.antt =====
-- The quota over any sequence of calls.
use shark_socket.Base.{
  ℕ, ◌+◌, ◌-◌, ◌<◌, ◌≡◌, refl, sym, ap, ◌∙◌, inl, inr, Bool, true, false, ◌&&◌, none, some, List,
  ◌∷◌, ◌++◌, arith, ltb, leb, ◌==◌, if◌then◌else◌, length, length-append, Bool-cases,
}
use shark_socket.Base.Maps.{Eq, lookup, insert, erase, lookup-insert, lookup-erase}
use shark_socket.Transport.Quota.{
  QuotaReject, quota_ok, quota_full, quota_peer_full, PeerQuota, new_peer_quota, peer_count,
  acquire, release_peer, release,
}
use shark_socket.Transport.Quota.Held.{
  times, times-append, Reaches, starts, takes, gives_back, Held, put, put-Held, count-Held,
  insert-live, erase-live, value_of,
}

module _ {ℓ} {A : Type ℓ} ⦃e : Eq A⦄ (is_valid : A → Bool) (shard_of : A → ℕ) where
  -- What a call of Acquire answers where these slots are held.
  pub verdict : ℕ → ℕ → A → List A → QuotaReject
  verdict max_total max_peer ip held =
      if is_valid ip && ltb 0 max_peer && leb max_peer (times ip held)
      then quota_peer_full
      else if ltb 0 max_total && leb max_total (length held)
      then quota_full
      else quota_ok

  acquire-verdict :
      (max_total max_peer : ℕ) (q : PeerQuota A) (held : List A) (ip : A)
      → Held is_valid shard_of max_total max_peer q held
      → (acquire is_valid shard_of ip q).1 ≡ verdict max_total max_peer ip held
  unfolding acquire verdict
  acquire-verdict max_total max_peer q held ip v = ground (arith, v.counts_peer ip)

  -- What an admission makes of the quota.
  acquire-ok :
      (ip : A) (q : PeerQuota A)
      → (acquire is_valid shard_of ip q).1 ≡ quota_ok
      → (acquire is_valid shard_of ip q).0 ≡ (
          if is_valid ip
          then put is_valid shard_of ip
              (insert ip (peer_count is_valid shard_of ip q + 1) (q.shards (shard_of ip)))
              (q.total + 1)
              q
          else record q { total = q.total + 1 })
  unfolding acquire put
  acquire-ok ip q h = ground (arith, h)

  module _ (max_total max_peer : ℕ) where
    takes-Held :
        (q : PeerQuota A) (held : List A) (ip : A)
        → Held is_valid shard_of max_total max_peer q held
        → (acquire is_valid shard_of ip q).1 ≡ quota_ok
        → Held is_valid shard_of max_total max_peer (acquire is_valid shard_of ip q).0 (ip ∷ held)
    unfolding peer_count put
    takes-Held q held ip v h = elim (Bool-cases (is_valid ip)) [
      | inl valid ↦
          rw (acquire-ok ip q h, valid, v.counts_all, count)
            (put-Held is_valid shard_of max_total max_peer q held (ip ∷ held) v ip _
              (some (peer_count is_valid shard_of ip q + 1)) valid (λ k. lookup-insert ip k _ _)
              (unfold times value_of in
                ground (arith, v.counts_peer ip, valid, (e.beq_iff ip ip).1 refl))
              (λ j other. unfold times in ground (arith, other))
              (insert-live is_valid shard_of ip _ _ (omega arith) (v.live (shard_of ip)))
              (λ pos. unfold verdict in ground (arith, granted, pos))
              (λ pos.
                unfold verdict times in
                ground (arith, granted, pos, valid, (e.beq_iff ip ip).1 refl)))
      | inr invalid ↦
          rw (acquire-ok ip q h, invalid, v.counts_all, count)
            (count-Held is_valid shard_of max_total max_peer q held (ip ∷ held) v
              (λ j valid_j.
                unfold times in ground (arith, valid_j, invalid, e.beq_iff ip j, ap is_valid))
              (λ pos. unfold verdict in ground (arith, granted, pos)))
    ]
      where
        granted : verdict max_total max_peer ip held ≡ quota_ok
        granted = sym (acquire-verdict max_total max_peer q held ip v) ∙ h

        count : length held + 1 ≡ length (ip ∷ held)
        count = omega arith

    -- What a release makes of the quota, where the address holds a slot.
    release-held :
        (ip : A) (q : PeerQuota A)
        → (is_valid ip ≡ true → 0 < peer_count is_valid shard_of ip q)
        → release is_valid shard_of ip q ≡ (
            if is_valid ip
            then (if ltb 1 (peer_count is_valid shard_of ip q)
                then put is_valid shard_of ip
                    (insert ip (peer_count is_valid shard_of ip q - 1) (q.shards (shard_of ip)))
                    (q.total - 1)
                    q
                else put is_valid shard_of ip (erase ip (q.shards (shard_of ip))) (q.total - 1) q)
            else record q { total = q.total - 1 })
    unfolding release release_peer put
    release-held ip q h = elim (Bool-cases (is_valid ip)) [
      | inr invalid ↦ rw invalid refl
      | inl valid ↦ elim (Bool-cases (ltb 1 (peer_count is_valid shard_of ip q))) [
        | inl more ↦ rw (valid, more) refl
        | inr last ↦ rw (valid, last, one valid last) refl
      ]
    ]
      where
        one :
            is_valid ip ≡ true
            → ltb 1 (peer_count is_valid shard_of ip q) ≡ false
            → (peer_count is_valid shard_of ip q == 1) ≡ true
        one valid last = ground (arith, h valid, last)

    gives_back-Held :
        (q : PeerQuota A) (xs ys : List A) (ip : A)
        → Held is_valid shard_of max_total max_peer q (xs ++ ip ∷ ys)
        → Held is_valid shard_of max_total max_peer (release is_valid shard_of ip q) (xs ++ ys)
    unfolding peer_count put
    gives_back-Held q xs ys ip v = elim (Bool-cases (is_valid ip)) [
      | inl valid ↦ elim (Bool-cases (ltb 1 (peer_count is_valid shard_of ip q))) [
        | inl more ↦
            rw (release-held ip q positive, valid, more, v.counts_all, count)
              (put-Held is_valid shard_of max_total max_peer q _ (xs ++ ys) v ip _
                (some (peer_count is_valid shard_of ip q - 1)) valid (λ k. lookup-insert ip k _ _)
                (unfold value_of in ground (arith, v.counts_peer ip, valid, fewer)) others
                (insert-live is_valid shard_of ip _ _ (ground (arith, more)) (v.live (shard_of ip)))
                (λ pos. omega (arith, count, v.total_capped pos))
                (λ pos. omega (arith, fewer, v.peer_capped ip valid pos)))
        | inr last ↦
            rw (release-held ip q positive, valid, last, v.counts_all, count)
              (put-Held is_valid shard_of max_total max_peer q _ (xs ++ ys) v ip _ none valid
                (λ k. lookup-erase ip k _)
                (unfold value_of in ground (arith, v.counts_peer ip, valid, fewer, last)) others
                (erase-live is_valid shard_of ip _ (v.live (shard_of ip)))
                (λ pos. omega (arith, count, v.total_capped pos))
                (λ pos. omega (arith, fewer, v.peer_capped ip valid pos)))
      ]
      | inr invalid ↦
          rw (release-held ip q positive, invalid, v.counts_all, count)
            (count-Held is_valid shard_of max_total max_peer q _ (xs ++ ys) v
              (λ j valid_j.
                others j (ground (arith, valid_j, invalid, e.beq_iff ip j, ap is_valid)))
              (λ pos. omega (arith, count, v.total_capped pos)))
    ]
      where
        fewer : times ip (xs ++ ip ∷ ys) ≡ times ip (xs ++ ys) + 1
        fewer =
            unfold times in
            ground
              (arith, times-append ip xs (ip ∷ ys), times-append ip xs ys, (e.beq_iff ip ip).1 refl)

        others : (j : A) → e.beq ip j ≡ false → times j (xs ++ ys) ≡ times j (xs ++ ip ∷ ys)
        others j other =
            unfold times in ground (arith, times-append j xs (ip ∷ ys), times-append j xs ys, other)

        count : length (xs ++ ip ∷ ys) - 1 ≡ length (xs ++ ys)
        count = omega (arith, length-append xs (ip ∷ ys), length-append xs ys)

        positive : is_valid ip ≡ true → 0 < peer_count is_valid shard_of ip q
        positive valid = ground (arith, v.counts_peer ip, valid, fewer)

    pub Reaches-Held :
        (q : PeerQuota A) (held : List A)
        → Reaches is_valid shard_of max_total max_peer q held
        → Held is_valid shard_of max_total max_peer q held
    Reaches-Held _ _ starts = record {
      same_total = unfold new_peer_quota in refl;
      same_peer = unfold new_peer_quota in refl;
      counts_all = unfold new_peer_quota in refl;
      counts_peer = λ ip. unfold new_peer_quota peer_count times lookup in ground arith;
      total_capped = λ pos. omega arith;
      peer_capped = λ ip valid pos. unfold times in omega arith;
      live = λ i. unfold new_peer_quota in tt;
    }
    Reaches-Held _ _ (takes {q} {held} ip r h) = takes-Held q held ip (Reaches-Held q held r) h
    Reaches-Held _ _ (gives_back {q} xs ys ip r) =
        gives_back-Held q xs ys ip (Reaches-Held q (xs ++ ip ∷ ys) r)

    -- However slots are taken and given back, as long as only slots that are held are given back: the
    -- total and the count of each valid address are those of the slots held, neither is above its
    -- positive ceiling, no entry with the count 0 is kept, and a call of Acquire is refused because of
    -- the address exactly where the address is valid and holds as many slots as one peer may, and
    -- otherwise exactly where all are taken.
    pub acquire-Reaches :
        (q : PeerQuota A) (held : List A) (ip : A)
        → Reaches is_valid shard_of max_total max_peer q held
        → Held is_valid shard_of max_total max_peer q held
          × ((acquire is_valid shard_of ip q).1 ≡ verdict max_total max_peer ip held)
    acquire-Reaches q held ip r = (
      Reaches-Held q held r,
      acquire-verdict max_total max_peer q held ip (Reaches-Held q held r),
    )
