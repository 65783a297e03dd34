-- ===== src/Plugin/AutoBan/Bans.antt =====
-- A ban holds for its time.
use shark_socket.Base.{
  ℕ, ◌+◌, ◌≤◌, ◌<◌, ◌≡◌, ap, inl, inr, true, none, some, List, [], ◌∷◌, arith, leb, All, Bool-cases,
}
use shark_socket.Base.Maps.{Eq, lookup, lookup-insert, lookup-erase}
use shark_socket.Plugin.AutoBan.{
  AutoBan, ban_duration, expired_bans, sweep, record_message, on_message, on_accept, is_banned,
  count_of,
}

pub data BanCall {ℓ} (K : Type ℓ) : Type ℓ where
  messages : ℕ → K → List ℕ → BanCall K
  accepts asks : ℕ → K → BanCall K
  sweeps : ℕ → BanCall K

module _ {ℓ} {K : Type ℓ} ⦃e : Eq K⦄ where
  unfoldable pub after_call : BanCall K → AutoBan K → AutoBan K
  after_call (messages now k bytes) p = (on_message now k bytes p).0
  after_call (accepts now k) p = (on_accept now k p).0
  after_call (asks now k) p = (is_banned now k p).0
  after_call (sweeps now) p = sweep now p

  unfoldable pub after_calls : List (BanCall K) → AutoBan K → AutoBan K
  after_calls [] p = p
  after_calls (c ∷ cs) p = after_calls cs (after_call c p)

  abbrev pub time_of : BanCall K → ℕ
  time_of (messages now k bytes) = now
  time_of (accepts now k) = now
  time_of (asks now k) = now
  time_of (sweeps now) = now

  module _ (key : K) (start : ℕ) where
    -- The key is banned until the end of a ban from `start`, or longer.
    abbrev Banned : AutoBan K → Type 0
    Banned p = (expiry : ℕ) × (lookup key p.banned ≡ some expiry) × (start + ban_duration ≤ expiry)

    abbrev pub Within : ℕ → Type 0
    Within now = (start ≤ now) × (now < start + ban_duration)

    expired_bans-lookup :
        (now expiry : ℕ) (banned : List (K × ℕ))
        → now ≤ expiry
        → lookup key banned ≡ some expiry
        → lookup key (expired_bans now banned) ≡ some expiry
    unfolding expired_bans lookup
    expired_bans-lookup now expiry [] h there = there
    expired_bans-lookup now expiry ((k, x) ∷ banned) h there =
        ground (arith, there, h, expired_bans-lookup now expiry banned)

    messages-Banned :
        (now : ℕ) (k : K) (bytes : List ℕ) (p : AutoBan K)
        → Within now
        → Banned p
        → Banned (on_message now k bytes p).0
    unfolding on_message record_message
    messages-Banned now k bytes p w (expiry, there, long) =
        elim (Bool-cases (leb p.threshold (count_of k p + 1))) [
          | inr below ↦ rw (below, on_message, record_message) (expiry, there, long)
          | inl tripped ↦
              rw (tripped, on_message, record_message)
                (elim (Bool-cases (e.beq k key)) [
                  | inl same ↦ (
                    now + ban_duration,
                    ground (arith, same, lookup-insert k key (now + ban_duration) p.banned),
                    omega (arith, w),
                  )
                  | inr other ↦ (
                    expiry,
                    ground (arith, other, there, lookup-insert k key (now + ban_duration) p.banned),
                    long,
                  )
                ])
        ]

    accepts-Banned :
        (now : ℕ) (k : K) (p : AutoBan K) → Within now → Banned p → Banned (on_accept now k p).0
    unfolding on_accept
    accepts-Banned now k p w (expiry, there, long) = (
      expiry,
      ground (
        arith,
        there,
        long,
        w,
        lookup-erase k key p.banned,
        e.beq_iff k key,
        ap (λ t. lookup t p.banned),
      ),
      long,
    )

    asks-Banned :
        (now : ℕ) (k : K) (p : AutoBan K) → Within now → Banned p → Banned (is_banned now k p).0
    unfolding is_banned
    asks-Banned now k p w (expiry, there, long) = (
      expiry,
      ground (
        arith,
        there,
        long,
        w,
        lookup-erase k key p.banned,
        e.beq_iff k key,
        ap (λ t. lookup t p.banned),
      ),
      long,
    )

    after_calls-Banned :
        (cs : List (BanCall K)) (p : AutoBan K)
        → All (λ c. Within (time_of c)) cs
        → Banned p
        → Banned (after_calls cs p)
    unfolding after_calls after_call sweep
    after_calls-Banned [] p ws b = b
    after_calls-Banned (messages now k bytes ∷ cs) p (w, ws) b =
        after_calls-Banned cs _ ws (messages-Banned now k bytes p w b)
    after_calls-Banned (accepts now k ∷ cs) p (w, ws) b =
        after_calls-Banned cs _ ws (accepts-Banned now k p w b)
    after_calls-Banned (asks now k ∷ cs) p (w, ws) b =
        after_calls-Banned cs _ ws (asks-Banned now k p w b)
    after_calls-Banned (sweeps now ∷ cs) p (w, ws) (expiry, there, long) =
        after_calls-Banned cs _ ws
          (expiry, expired_bans-lookup now expiry p.banned (omega (arith, w, long)) there, long)

    first_ban :
        (bytes : List ℕ) (p : AutoBan K)
        → (on_message start key bytes p).1 ≡ none
        → Banned (on_message start key bytes p).0
    unfolding on_message record_message
    first_ban bytes p dropped = elim (Bool-cases (leb p.threshold (count_of key p + 1))) [
      | inr below ↦ absurd (ground (arith, dropped, below))
      | inl tripped ↦
          rw (tripped, on_message, record_message)
            (
              start + ban_duration,
              ground
                  (arith, lookup-insert key key (start + ban_duration) p.banned, e.beq_iff key key),
              omega arith,
            )
    ]

    pub ban_holds :
        (bytes : List ℕ) (p : AutoBan K) (cs : List (BanCall K)) (now : ℕ)
        → (on_message start key bytes p).1 ≡ none
        → All (λ c. Within (time_of c)) cs
        → Within now
        → ((on_accept now key (after_calls cs (on_message start key bytes p).0)).1 ≡ true)
          × ((is_banned now key (after_calls cs (on_message start key bytes p).0)).1 ≡ true)
    unfolding on_accept is_banned
    ban_holds bytes p cs now dropped ws w =
        let first : Banned (on_message start key bytes p).0 = first_ban bytes p dropped in
        let (expiry, there, long) =
          after_calls-Banned cs (on_message start key bytes p).0 ws first in
        (ground (arith, there, long, w), ground (arith, there, long, w))
