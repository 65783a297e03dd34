-- ===== src/Plugin/RateLimit/Tests.antt =====
-- Runs of the limiter, and the theorems at a concrete sequence of messages.
use shark_socket.Base.{ℕ, ◌≤◌, ◌≡◌, refl, true, false, List, [], ◌∷◌, arith}
use shark_socket.Base.Maps.{nat_eq, lookup, insert}
use shark_socket.Plugin.RateLimit.{
  new_rate_limit, set_limit, prune, sweep, sweep_shard, counters, shard_for, on_message,
}
use shark_socket.Plugin.RateLimit.Windows.{
  Event, message, sweeps, decisions, reference, decisions-reference,
}
use shark_socket.Plugin.RateLimit.Bound.{within, passed_on, within-passed_on}

-- Two peers in one shard; two messages of a peer are allowed in 10 ns.
abbrev events : List (Event ℕ)
events =
    message 1 7
    ∷ message 2 7
    ∷ message 3 7
    ∷ message 3 39
    ∷ sweeps 5
    ∷ message 12 7
    ∷ message 12 7
    ∷ sweeps 40
    ∷ message 41 7
    ∷ []

decided :
    decisions (λ key. key) (new_rate_limit 2 10) events
    ≡ true ∷ true ∷ false ∷ true ∷ true ∷ false ∷ true ∷ []
unfolding decisions new_rate_limit set_limit on_message counters shard_for prune sweep sweep_shard
    lookup insert
decided = refl

decisions-reference_example :
    decisions (λ key. key) (new_rate_limit 2 10) events ≡ reference 2 10 [] events
decisions-reference_example =
    decisions-reference (λ key. key) 2 10 events (omega arith) (omega arith) (omega arith)

within-passed_on_example :
    within 10 2 7 (passed_on (λ key. key) (new_rate_limit 2 10) [] events) ≤ 2
within-passed_on_example =
    within-passed_on (λ key. key) 2 10 events 2 7 (omega arith) (omega arith) (omega arith)
