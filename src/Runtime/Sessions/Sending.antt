-- ===== src/Runtime/Sessions/Sending.antt =====
-- The calls that a broadcast makes on the registered sessions.
use shark_socket.Base.{
  ℕ, ◌+◌, ◌≡◌, refl, ap, ◌∙◌, inl, inr, true, false, some, List, [], ◌∷◌, ◌++◌, map, arith, ltb,
  if◌then◌else◌, length, All, All-zip, Bool-cases,
}
use shark_socket.Runtime.Sessions.{
  Session, SessionManager, get, snapshot, Sent, sent_shared, sent_plain, sharing, broadcast_calls,
}
use shark_socket.Runtime.Sessions.Registered.{Inv}
use shark_socket.Runtime.Sessions.Listed.{times, times-append, present, snapshot-Faithful}

abbrev target : Sent → Session
target (sent_shared s) = s
target (sent_plain s) = s

-- How often a broadcast calls the session with this ID.
pub times_called : ℕ → List Sent → ℕ
unfolding times
times_called id calls = times id (map target calls)

map-target_shared : (xs : List Session) → map target (map sent_shared xs) ≡ xs
map-target_shared [] = refl
map-target_shared (s ∷ xs) = ap (◌∷◌ s) (map-target_shared xs)

map-target_plain : (xs : List Session) → map target (map sent_plain xs) ≡ xs
map-target_plain [] = refl
map-target_plain (s ∷ xs) = ap (◌∷◌ s) (map-target_plain xs)

map-target_append : (xs ys : List Sent) → map target (xs ++ ys) ≡ map target xs ++ map target ys
map-target_append [] ys = refl
map-target_append (c ∷ xs) ys = ap (◌∷◌ (target c)) (map-target_append xs ys)

-- The sessions are split in two.
times-sharing :
    (id : ℕ) (xs : List Session)
    → times id (sharing true xs) + times id (sharing false xs) ≡ times id xs
unfolding times sharing
times-sharing id [] = refl
times-sharing id (s ∷ xs) = elim (Bool-cases s.shares) [
  | inl yes_ ↦ rw yes_ (omega (arith, times-sharing id xs))
  | inr no_ ↦ rw no_ (omega (arith, times-sharing id xs))
]

-- Where all the sessions with the ID of `s` are `s`, it is on the side of its own kind.
times-sharing-false :
    (s : Session) (xs : List Session)
    → All (λ t. t.id ≡ s.id → t ≡ s) xs
    → times s.id (sharing false xs) ≡ (if s.shares then 0 else times s.id xs)
unfolding times sharing
times-sharing-false s [] a = ground arith
times-sharing-false s (t ∷ xs) (h, a) =
    ground (arith, h, times-sharing-false s xs a, ap (λ (u : Session). u.shares))

-- A registered session is called once by a broadcast if two or more of the registered sessions share
-- frames, or if it is the one that does. Otherwise, where fewer than two share frames, a session that
-- does not is called twice: it is among the plain ones already when all are added to them.
pub times_called-broadcast_calls :
    (m : SessionManager) (s : Session)
    → Inv m
    → get s.id m ≡ some s
    → times_called s.id (broadcast_calls m)
      ≡ (if ltb 1 (length (sharing true (snapshot m))) then 1 else if s.shares then 1 else 2)
unfolding times_called broadcast_calls
times_called-broadcast_calls m s v here =
    elim (Bool-cases (ltb 1 (length (sharing true (snapshot m))))) [
      | inl two ↦
          rw (two, map-target_append, map-target_shared, map-target_plain, times-append)
            (times-sharing s.id (snapshot m) ∙ listed)
      | inr few ↦
          rw (few, map-target_plain, times-append, times-sharing-false s (snapshot m) unique)
            (ground (arith, listed))
    ]
  where
    listed : times s.id (snapshot m) ≡ 1
    listed = (snapshot-Faithful m v).once s.id ∙ ap (λ o. present o) here

    unique : All (λ t. t.id ≡ s.id → t ≡ s) (snapshot m)
    unique =
        All-zip (snapshot m)
          (λ t found again same. ground (arith, found, here, same, ap (λ k. get k m)))
          (snapshot-Faithful m v).registered (snapshot-Faithful m v).registered
