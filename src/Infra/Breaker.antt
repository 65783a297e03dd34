-- ===== src/Infra/Breaker.antt =====
-- The circuit breaker: internal/infra/circuitbreaker/circuitbreaker.go. Each method holds the mutex
-- for its whole body, so a method is one step of the record; the clock is an argument. Times and
-- durations are nanoseconds; a threshold or timeout that is not positive is 0 here.
pub mod Invariant
pub mod Window
mod Tests
use shark_socket.Base.{
  ℕ, zero, suc, ◌+◌, ◌-◌, Bool, true, false, Option, none, some, List, [], ◌∷◌, ltb, leb, ◌==◌,
  if◌then◌else◌,
}

pub data State : Type 0 where
  closed open_ half_open : State

pub record Breaker : Type 0 where
  pub state : State
  pub failures : ℕ
  pub threshold : ℕ
  pub opened_at : ℕ
  pub timeout : ℕ
  pub half_open_active : Bool

pub record Snapshot : Type 0 where
  pub state : State
  pub failures : ℕ
  pub threshold : ℕ
  pub opened_at : ℕ
  pub timeout : ℕ

-- time.Second
abbrev pub second : ℕ
second = 1000000000

pub new : ℕ → ℕ → Breaker
new threshold timeout = record {
  state = closed;
  failures = 0;
  threshold = if threshold == 0 then 1 else threshold;
  opened_at = 0;
  timeout = if timeout == 0 then second else timeout;
  half_open_active = false;
}

-- The test for HalfOpen at the end of `Allow`.
admit : State → Breaker → Breaker × Bool
admit half_open b =
    if b.half_open_active then (b, false) else (record b { half_open_active = true }, true)
admit _ b = (b, true)

allow_in : State → ℕ → Breaker → Breaker × Bool
allow_in open_ now b =
    if leb b.timeout (now - b.opened_at)
    then admit half_open (record b { state = half_open })
    else (b, false)
allow_in s now b = admit s b

-- Whether the call is admitted; `false` is ErrOpen.
pub allow : ℕ → Breaker → Breaker × Bool
unfolding allow_in admit
allow now b = allow_in b.state now b

success_in : State → Breaker → Breaker
success_in open_ b = b
success_in _ b = record b { failures = 0; state = closed; half_open_active = false }

pub success : Breaker → Breaker
unfolding success_in
success b = success_in b.state b

failure_in : State → ℕ → Breaker → Breaker
failure_in open_ now b = b
failure_in _ now b =
    let counted = record b { failures = b.failures + 1; half_open_active = false } in
    if leb b.threshold (b.failures + 1)
    then record counted { state = open_; opened_at = now }
    else counted

pub failure : ℕ → Breaker → Breaker
unfolding failure_in
failure now b = failure_in b.state now b

abbrev pub snapshot : Breaker → Snapshot
snapshot b = record {
  state = b.state;
  failures = b.failures;
  threshold = b.threshold;
  opened_at = b.opened_at;
  timeout = b.timeout;
}

-- What the function handed to `Execute` does.
pub data Ending : Type 0 where
  returns fails panics : Ending

-- What `Execute` does: it refuses, returns, passes the error on, or panics again.
pub data Executed : Type 0 where
  refused returned failed panicked : Executed

settle : Ending → ℕ → Breaker → Breaker × Executed
settle returns now b = (success b, returned)
settle fails now b = (failure now b, failed)
settle panics now b = (failure now b, panicked)

-- `now` is the instant of `Allow`, `later` that of the function's end; `between` is what other calls
-- make of the breaker while the function runs.
pub execute : ℕ → ℕ → (Breaker → Breaker) → Ending → Breaker → Breaker × Executed
unfolding settle
execute now later between ending b =
    let (b', admitted) = allow now b in
    if admitted then settle ending later (between b') else (b', refused)

-- What can happen to a breaker, in the order of the lock.
pub data Event : Type 0 where
  allows : ℕ → Event
  succeeds : Event
  fails_at : ℕ → Event

pub step : Breaker → Event → Breaker
step b (allows now) = (allow now b).0
step b succeeds = success b
step b (fails_at now) = failure now b

pub run : Breaker → List Event → Breaker
run b [] = b
run b (e ∷ es) = run (step b e) es
