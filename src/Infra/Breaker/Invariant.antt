-- ===== src/Infra/Breaker/Invariant.antt =====
-- What holds of a breaker after any calls.
use shark_socket.Base.{
  ℕ, ◌≤◌, ◌<◌, ◌≡◌, ◌≢◌, inl, inr, true, false, List, [], ◌∷◌, arith, Bool-cases,
}
use shark_socket.Infra.Breaker.{
  closed, half_open, Breaker, new, allow, success, failure, settle, execute, Ending, returns, fails,
  panics, refused, Event, allows, succeeds, fails_at, step, run,
}

pub record Inv (b : Breaker) : Type 0 where
  pub threshold_pos : 0 < b.threshold
  pub timeout_pos : 0 < b.timeout
  pub closed_below : b.state ≡ closed → b.failures < b.threshold
  pub tripped : b.state ≢ closed → b.threshold ≤ b.failures
  pub probing : b.state ≡ half_open → b.half_open_active ≡ true
  pub idle : b.state ≢ half_open → b.half_open_active ≡ false

pub new-Inv : (threshold timeout : ℕ) → Inv (new threshold timeout)
unfolding new
new-Inv threshold timeout = ground arith

pub step-Inv : (b : Breaker) (e : Event) → Inv b → Inv (step b e)
unfolding step allow success failure
step-Inv b (allows now) v = ground arith
step-Inv b succeeds v = ground arith
step-Inv b (fails_at now) v = ground arith

run_from-Inv : (b : Breaker) (es : List Event) → Inv b → Inv (run b es)
unfolding run
run_from-Inv b [] v = v
run_from-Inv b (e ∷ es) v = run_from-Inv (step b e) es (step-Inv b e v)

-- After any calls at all, in any order, a new breaker is consistent: its threshold and its timeout are
-- positive; while it is closed it counts fewer failures than the threshold, and while it is open or
-- half open that many at least; and `half_open_active` is set exactly while it is half open.
pub run-Inv : (threshold timeout : ℕ) (es : List Event) → Inv (run (new threshold timeout) es)
run-Inv threshold timeout es = run_from-Inv _ es (new-Inv threshold timeout)

abbrev IsSettled : Breaker → Type 0
IsSettled b = (b.state ≢ half_open) × (b.half_open_active ≡ false)

settle-IsSettled :
    (ending : Ending) (later : ℕ) (b : Breaker) → Inv b → IsSettled (settle ending later b).0
unfolding settle success failure
settle-IsSettled returns later b v = ground arith
settle-IsSettled fails later b v = ground arith
settle-IsSettled panics later b v = ground arith

-- Whatever the function does, a panic included, and whatever other calls do meanwhile, an admitted
-- `Execute` leaves a breaker that is not half open and whose flag for a probe is clear.
pub execute_settles :
    (now later : ℕ) (between : Breaker → Breaker) (ending : Ending) (b : Breaker)
    → Inv b
    → ((c : Breaker) → Inv c → Inv (between c))
    → (execute now later between ending b).1 ≢ refused
    → ((execute now later between ending b).0.state ≢ half_open)
      × ((execute now later between ending b).0.half_open_active ≡ false)
unfolding execute
execute_settles now later between ending b v keeps h = elim (Bool-cases (allow now b).1) [
  | inl yes_ ↦
      rw (yes_, execute)
        (settle-IsSettled ending later (between (allow now b).0)
          (keeps _ (unfold step in (step-Inv b (allows now) v))))
  | inr no_ ↦ absurd (h (rw (no_, execute)))
]
