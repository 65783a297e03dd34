-- ===== src/Runtime/Sessions/Ranging.antt =====
-- The walk over the sessions that a callback can end: SessionManager.Range.
use shark_socket.Base.{
  ℕ, zero, suc, ◌≡◌, refl, ap, Bool, true, false, List, [], ◌∷◌, ◌++◌, arith, if◌then◌else◌,
}
use shark_socket.Runtime.Sessions.{
  Session, SessionManager, session_shards, values, gather, snapshot,
}

-- The sessions that the callback is called on, and whether the walk goes on behind them.
pub visit : (Session → Bool) → List Session → List Session × Bool
visit fn [] = ([], true)
visit fn (s ∷ sessions) =
    let rest = visit fn sessions in if fn s then (s ∷ rest.0, rest.1) else (s ∷ [], false)

-- The shards below `n`, one after the other.
pub range_shards : (Session → Bool) → ℕ → (ℕ → List (ℕ × Session)) → List Session × Bool
unfolding visit
range_shards fn zero shards = ([], true)
range_shards fn (suc n) shards =
    let before = range_shards fn n shards in
    let here = visit fn (values (shards n)) in
    if before.1 then (before.0 ++ here.0, here.1) else before

pub range : (Session → Bool) → SessionManager → List Session
unfolding range_shards
range fn m = (range_shards fn session_shards m.shards).0

visit-append :
    (fn : Session → Bool) (xs ys : List Session)
    → visit fn (xs ++ ys) ≡ (
        if (visit fn xs).1
        then ((visit fn xs).0 ++ (visit fn ys).0, (visit fn ys).1)
        else visit fn xs)
unfolding visit
visit-append fn [] ys = refl
visit-append fn (s ∷ xs) ys = ground (arith, visit-append fn xs ys)

range_shards-gather :
    (fn : Session → Bool) (n : ℕ) (shards : ℕ → List (ℕ × Session))
    → range_shards fn n shards ≡ visit fn (gather n shards)
unfolding range_shards gather
range_shards-gather fn zero shards = unfold visit in refl
range_shards-gather fn (suc n) shards =
    ground (
      arith,
      range_shards-gather fn n shards,
      visit-append fn (gather n shards) (values (shards n)),
    )

-- Range calls its function on the sessions that a snapshot lists, in that order, up to and with the
-- first one for which it returns false, and on all of them where it never does.
pub range-snapshot :
    (fn : Session → Bool) (m : SessionManager) → range fn m ≡ (visit fn (snapshot m)).0
unfolding range snapshot
range-snapshot fn m = ap (λ r. r.0) (range_shards-gather fn session_shards m.shards)
