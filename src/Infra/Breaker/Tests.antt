-- ===== src/Infra/Breaker/Tests.antt =====
-- A breaker of threshold 2 and timeout 10, run, and the theorems at it.
use shark_socket.Base.{◌≡◌, refl, true, false, [], ◌∷◌, arith}
use shark_socket.Infra.Breaker.{
  open_, Breaker, new, allow, failure, allows, succeeds, fails_at, step, run,
}
use shark_socket.Infra.Breaker.Invariant.{Inv, run-Inv}
use shark_socket.Infra.Breaker.Window.{open_window}

abbrev tripped_at_5 : Breaker
tripped_at_5 = record {
  state = open_;
  failures = 2;
  threshold = 2;
  opened_at = 5;
  timeout = 10;
  half_open_active = false;
}

run-new : run (new 2 10) (fails_at 3 ∷ allows 4 ∷ fails_at 5 ∷ []) ≡ tripped_at_5
unfolding run step new allow failure
run-new = refl

run-Inv_example : Inv (run (new 2 10) (fails_at 3 ∷ allows 4 ∷ fails_at 5 ∷ []))
run-Inv_example = run-Inv 2 10 (fails_at 3 ∷ allows 4 ∷ fails_at 5 ∷ [])

tripped-Inv : Inv tripped_at_5
tripped-Inv = ground arith

open_window_example :
    (run tripped_at_5 (succeeds ∷ allows 12 ∷ fails_at 13 ∷ []) ≡ tripped_at_5)
    × (allow 14 (run tripped_at_5 (succeeds ∷ allows 12 ∷ fails_at 13 ∷ []))
        ≡ (tripped_at_5, false))
open_window_example =
    open_window tripped_at_5 (succeeds ∷ allows 12 ∷ fails_at 13 ∷ []) 14 tripped-Inv refl
      (tt, (omega arith, (tt, tt))) (omega arith)

-- A failure that is reported late, while a probe runs, opens the breaker; after the timeout it admits
-- a second probe, though the first has not ended.
second_probe :
    (allow 20 (run (new 1 10) (allows 0 ∷ allows 0 ∷ fails_at 0 ∷ allows 10 ∷ fails_at 10 ∷ []))).1
    ≡ true
unfolding run step new allow failure
second_probe = refl
