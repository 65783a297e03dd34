-- ===== src/Coap/Retransmit.antt =====
-- The retransmission schedule of confirmable messages: internal/transport/coap/retransmit.go, with
-- `pendingNotify` of server.go. Times are nanoseconds, counted from the start of the process.
mod Tests
use native.Mathlib.Nat.{pow-suc}
use native.Mathlib.Numerals.{add-one}
use shark_socket.Base.{
  ℕ, zero, suc, ◌+◌, ◌-◌, ◌*◌, ◌/◌, ◌%◌, ◌^◌, ◌≤◌, ◌<◌, ◌≡◌, refl, ap, Bool, List, [], ◌∷◌, arith,
  ltb, leb, if◌then◌else◌, ◌⊎◌, inl, inr,
}

-- 2 * time.Second
abbrev pub ack_timeout : ℕ
ack_timeout = 2000000000

abbrev pub ack_timeout_spread : ℕ
ack_timeout_spread = ack_timeout / 2

abbrev pub max_retransmit : ℕ
max_retransmit = 4

-- A draw below 0, which the source sets to 0, is no number here.
pub initial_retransmit_timeout : ℕ → ℕ
initial_retransmit_timeout draw = ack_timeout + draw % ack_timeout_spread

pub data RetransmitAction : Type 0 where
  retransmit_wait retransmit_send retransmit_give_up : RetransmitAction

pub record PendingNotify : Type 0 where
  pub payload : List ℕ
  pub token : List ℕ
  pub attempts : ℕ
  pub timeout : ℕ
  pub deadline : ℕ

pub decide_at : PendingNotify → ℕ → RetransmitAction
decide_at pn now =
    if ltb now pn.deadline
    then retransmit_wait
    else if leb max_retransmit pn.attempts
    then retransmit_give_up
    else retransmit_send

pub advance : PendingNotify → ℕ → PendingNotify
advance pn now =
    let doubled = pn.timeout * 2 in
    record pn {
      attempts = pn.attempts + 1;
      timeout = doubled;
      deadline = if ltb (pn.deadline + doubled) now then now + doubled else pn.deadline + doubled;
    }

-- The entry that `trackNotify` stores after the first transmission at `now`.
pub track : ℕ → ℕ → List ℕ → List ℕ → PendingNotify
track now draw token payload = record {
  payload = payload;
  token = token;
  attempts = 0;
  timeout = initial_retransmit_timeout draw;
  deadline = now + initial_retransmit_timeout draw;
}

-- What one round of `retransmitDue` at `now` leaves of an entry: it goes on, or it is given up.
pub data Outcome : Type 0 where
  goes_on : PendingNotify → ℕ → Outcome
  given_up : ℕ → ℕ → Outcome

-- The rounds at the given instants. `goes_on` has the entry and the retransmissions made, `given_up`
-- the retransmissions made and the instant.
pub run : PendingNotify → ℕ → List ℕ → Outcome
run pn sent [] = goes_on pn sent
run pn sent (now ∷ ticks) =
    let advanced = run (advance pn now) (sent + 1) ticks in
    let same = run pn sent ticks in
    elim (decide_at pn now) [
      | retransmit_wait ↦ same
      | retransmit_send ↦ advanced
      | retransmit_give_up ↦ given_up sent now
    ]

-- The entry after `attempts` retransmissions: its timeout has doubled that often, and its deadline
-- has moved on by all the timeouts so far at least.
pub record Scheduled (first : ℕ) (start : ℕ) (pn : PendingNotify) : Type 0 where
  pub capped : pn.attempts ≤ max_retransmit
  pub doubled : pn.timeout ≡ first * 2 ^ pn.attempts
  pub not_early : start + first * 2 ^ (pn.attempts + 1) ≤ pn.deadline + first

two_pow-add_one : (n : ℕ) → 2 ^ (n + 1) ≡ 2 * 2 ^ n
two_pow-add_one n = rw (add-one, pow-suc) (omega arith)

track-Scheduled :
    (now draw : ℕ) (token payload : List ℕ)
    → Scheduled (initial_retransmit_timeout draw) now (track now draw token payload)
unfolding track
track-Scheduled now draw token payload = omega arith

advance-Scheduled :
    (first start now : ℕ) (pn : PendingNotify)
    → Scheduled first start pn
    → decide_at pn now ≡ retransmit_send
    → Scheduled first start (advance pn now)
unfolding advance decide_at
advance-Scheduled first start now pn s e = record {
  capped = ground arith;
  doubled = omega (arith, s, once);
  not_early = ground (arith, s, once, twice);
}
  where
    once : first * 2 ^ (pn.attempts + 1) ≡ 2 * (first * 2 ^ pn.attempts)
    once = omega (arith, ap (λ (t : ℕ). first * t) (two_pow-add_one pn.attempts))

    twice : first * 2 ^ (pn.attempts + 1 + 1) ≡ 2 * (first * 2 ^ (pn.attempts + 1))
    twice = omega (arith, ap (λ (t : ℕ). first * t) (two_pow-add_one (pn.attempts + 1)))

-- What the rounds make of a scheduled entry: it stays scheduled, with one attempt for each
-- retransmission, or it is given up after `max_retransmit` and never before the last timeout.
abbrev pub Ends : ℕ → ℕ → Outcome → Type 0
Ends first start (goes_on pn sent) = Scheduled first start pn × (pn.attempts ≡ sent)
Ends first start (given_up sent at) =
    (sent ≡ max_retransmit) × (start + first * 2 ^ (max_retransmit + 1) ≤ at + first)

give_up-late :
    (first start now : ℕ) (pn : PendingNotify)
    → Scheduled first start pn
    → decide_at pn now ≡ retransmit_give_up
    → Ends first start (given_up pn.attempts now)
unfolding decide_at
give_up-late first start now pn s e = ground (arith, s)

RetransmitAction-cases :
    (a : RetransmitAction)
    → (a ≡ retransmit_wait) ⊎ (a ≡ retransmit_send) ⊎ (a ≡ retransmit_give_up)
RetransmitAction-cases retransmit_wait = inl refl
RetransmitAction-cases retransmit_send = inr (inl refl)
RetransmitAction-cases retransmit_give_up = inr (inr refl)

run-Ends :
    (first start sent : ℕ) (pn : PendingNotify) (ticks : List ℕ)
    → Scheduled first start pn
    → pn.attempts ≡ sent
    → Ends first start (run pn sent ticks)
unfolding run
run-Ends first start sent pn [] s e = (s, e)
run-Ends first start sent pn (now ∷ ticks) s e = elim (RetransmitAction-cases (decide_at pn now)) [
  | inl wait ↦ rw (wait, run) (run-Ends first start sent pn ticks s e)
  | inr (inl send) ↦
      rw (send, run)
        (run-Ends first start (sent + 1) (advance pn now) ticks
          (advance-Scheduled first start now pn s send) (unfold advance in omega arith))
  | inr (inr stop) ↦ rw (stop, run, ← e) (give_up-late first start now pn s stop)
]

-- A confirmable message that is tracked at `start` is retransmitted at most four times whatever the
-- ticks of the scheduler are; it is given up after exactly four, and not before 31 times its first
-- timeout has passed; and that timeout lies from 2 s on, below 3 s.
pub run-track :
    (start draw : ℕ) (token payload ticks : List ℕ)
    → (ack_timeout ≤ initial_retransmit_timeout draw)
      × (initial_retransmit_timeout draw < ack_timeout + ack_timeout_spread)
      × Ends (initial_retransmit_timeout draw) start (run (track start draw token payload) 0 ticks)
unfolding initial_retransmit_timeout
run-track start draw token payload ticks = (
  omega arith,
  omega arith,
  run-Ends _ start 0 _ ticks (track-Scheduled start draw token payload) (unfold track in refl),
)

-- A transmission at `now`, at or after the deadline, moves the deadline on by twice the timeout at
-- least, and never to an instant before `now`: a late tick leaves no deadline in the past.
pub advance-waits :
    (pn : PendingNotify) (now : ℕ)
    → pn.deadline ≤ now
    → (now ≤ (advance pn now).deadline) × (pn.deadline + pn.timeout * 2 ≤ (advance pn now).deadline)
unfolding advance
advance-waits pn now due = ground arith
