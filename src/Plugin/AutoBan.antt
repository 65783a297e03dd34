-- ===== src/Plugin/AutoBan.antt =====
-- The automatic ban: internal/plugin/autoban.go. Each call holds the mutex; the clock is an argument,
-- in nanoseconds, and `key` stands for the host that remoteKey or normalizeBanKey makes of an address.
pub mod Bans
mod Tests
use shark_socket.Base.{
  ℕ, ◌+◌, ◌*◌, Bool, true, false, Option, none, some, List, [], ◌∷◌, ltb, leb, ◌==◌, if◌then◌else◌,
}
use shark_socket.Base.Maps.{Eq, lookup, insert, erase}

-- 30 * time.Minute
abbrev pub ban_duration : ℕ
ban_duration = 1800000000000

pub record AutoBanCount : Type 0 where
  pub count : ℕ
  pub last : ℕ

pub record AutoBan {ℓ} (K : Type ℓ) : Type ℓ where
  pub threshold : ℕ
  pub counts : List (K × AutoBanCount)
  pub banned : List (K × ℕ)

-- A threshold that is not positive is 0 here.
pub new_auto_ban {ℓ} : {K : Type ℓ} → ℕ → AutoBan K
new_auto_ban threshold = record {
  threshold = if threshold == 0 then 3 else threshold;
  counts = [];
  banned = [];
}

module _ {ℓ} {K : Type ℓ} where
  pub expired_bans : ℕ → List (K × ℕ) → List (K × ℕ)
  expired_bans now [] = []
  expired_bans now ((k, expiry) ∷ banned) =
      let rest = expired_bans now banned in if ltb expiry now then rest else (k, expiry) ∷ rest

  -- `now.Sub(c.last) > banDuration`, without the subtraction.
  pub stale_counts : ℕ → List (K × AutoBanCount) → List (K × AutoBanCount)
  stale_counts now [] = []
  stale_counts now ((k, c) ∷ counts) =
      let rest = stale_counts now counts in
      if ltb (c.last + ban_duration) now then rest else (k, c) ∷ rest

  pub sweep : ℕ → AutoBan K → AutoBan K
  unfolding expired_bans stale_counts
  sweep now p = record p { banned = expired_bans now p.banned; counts = stale_counts now p.counts }

module _ {ℓ} {K : Type ℓ} ⦃e : Eq K⦄ where
  pub count_of : K → AutoBan K → ℕ
  count_of key p = elim (lookup key p.counts) [ none ↦ 0 | some c ↦ c.count ]

  -- Whether the message trips the threshold.
  pub record_message : ℕ → K → AutoBan K → AutoBan K × Bool
  unfolding count_of
  record_message now key p =
      let count = count_of key p + 1 in
      let c : AutoBanCount = record { count = count; last = now } in
      if leb p.threshold count
      then (
        record p {
          banned = insert key (now + ban_duration) p.banned;
          counts = erase key (insert key c p.counts);
        },
        true,
      )
      else (record p { counts = insert key c p.counts }, false)

  -- `none` is core.ErrPluginDrop, with the session closed.
  pub on_message : ℕ → K → List ℕ → AutoBan K → AutoBan K × Option (List ℕ)
  unfolding record_message
  on_message now key bytes p =
      let (p', tripped) = record_message now key p in (p', if tripped then none else some bytes)

  -- Whether the session is blocked.
  pub on_accept : ℕ → K → AutoBan K → AutoBan K × Bool
  on_accept now key p = elim (lookup key p.banned) [
    | none ↦ (p, false)
    | some expiry ↦
        if ltb now expiry then (p, true) else (record p { banned = erase key p.banned }, false)
  ]

  pub is_banned : ℕ → K → AutoBan K → AutoBan K × Bool
  is_banned now key p = elim (lookup key p.banned) [
    | none ↦ (p, false)
    | some expiry ↦
        if ltb expiry now then (record p { banned = erase key p.banned }, false) else (p, true)
  ]
