-- ===== src/Coap/Retransmit/Tests.antt =====
-- Runs of the schedule, and the theorems at concrete instants.
use shark_socket.Base.{ℕ, ◌+◌, ◌*◌, ◌≤◌, ◌<◌, ◌≡◌, refl, List, [], ◌∷◌}
use shark_socket.Coap.Retransmit.{
  PendingNotify, given_up, initial_retransmit_timeout, track, run, decide_at, advance, Ends,
  run-track, ack_timeout, ack_timeout_spread,
}

-- Seconds, in nanoseconds.
abbrev sec : ℕ → ℕ
sec n = n * 1000000000

abbrev tracked : PendingNotify
tracked = record {
  payload = 1 ∷ [];
  token = 7 ∷ [];
  attempts = 0;
  timeout = sec 2;
  deadline = sec 12;
}

tracked_lem : track (sec 10) 0 (7 ∷ []) (1 ∷ []) ≡ tracked
unfolding track initial_retransmit_timeout
tracked_lem = refl

abbrev ticks : List ℕ
ticks = sec 11 ∷ sec 12 ∷ sec 16 ∷ sec 24 ∷ sec 40 ∷ sec 71 ∷ sec 72 ∷ []

tracked_given_up : run tracked 0 ticks ≡ given_up 4 (sec 72)
unfolding run decide_at advance
tracked_given_up = refl

run-track_example :
    (ack_timeout ≤ initial_retransmit_timeout 0)
    × (initial_retransmit_timeout 0 < ack_timeout + ack_timeout_spread)
    × Ends
        (initial_retransmit_timeout 0)
        (sec 10)
        (run (track (sec 10) 0 (7 ∷ []) (1 ∷ [])) 0 ticks)
run-track_example = run-track (sec 10) 0 (7 ∷ []) (1 ∷ []) ticks
