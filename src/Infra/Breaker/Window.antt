-- ===== src/Infra/Breaker/Window.antt =====
-- Tripping, and the time during which a tripped breaker refuses.
use shark_socket.Base.{
  ℕ, zero, suc, ◌+◌, ◌≤◌, ◌<◌, ◌≡◌, refl, ap, ◌∙◌, true, false, List, [], ◌∷◌, arith, All, ltb,
  if◌then◌else◌, replicate,
}
use native.Mathlib.Decide.{dec_lt}
use shark_socket.Infra.Breaker.{
  closed, open_, Breaker, new, allow, success, failure, Event, allows, succeeds, fails_at, step,
  run,
}
use shark_socket.Infra.Breaker.Invariant.{Inv, new-Inv}

-- The event comes before `limit`, if it has a time that matters.
abbrev pub Before : ℕ → Event → Type 0
Before limit (allows now) = now < limit
Before limit succeeds = Unit {0}
Before limit (fails_at now) = Unit {0}

step_open :
    (b : Breaker) (e : Event)
    → Inv b
    → b.state ≡ open_
    → Before (b.opened_at + b.timeout) e
    → step b e ≡ b
unfolding step allow success failure
step_open b (allows now) v s t = ground arith
step_open b succeeds v s t = ground arith
step_open b (fails_at now) v s t = ground arith

-- Until the timeout has passed an open breaker stays as it is and refuses, whatever is reported
-- meanwhile: late successes do not close it, and late failures do not put the probe off.
pub open_window :
    (b : Breaker) (es : List Event) (now : ℕ)
    → Inv b
    → b.state ≡ open_
    → All (Before (b.opened_at + b.timeout)) es
    → now < b.opened_at + b.timeout
    → (run b es ≡ b) × (allow now (run b es) ≡ (b, false))
unfolding run
open_window b [] now v s a h = (refl, unfold allow in ground arith)
open_window b (e ∷ es) now v s (t, a) h = rw (step_open b e v s t) (open_window b es now v s a h)

-- The first call after the timeout is admitted as the one probe: every other is refused until
-- something is reported; a success then closes the breaker, and a failure opens it for another full
-- window.
pub probe_alone :
    (b : Breaker) (now other done : ℕ)
    → Inv b
    → b.state ≡ open_
    → b.opened_at + b.timeout ≤ now
    → let probed = (allow now b).0 in
      ((allow now b).1 ≡ true)
      × (allow other probed ≡ (probed, false))
      × ((success probed).state ≡ closed)
      × ((success probed).failures ≡ 0)
      × ((failure done probed).state ≡ open_)
      × ((failure done probed).opened_at ≡ done)
unfolding allow success failure
probe_alone b now other done v s h = ground arith

module _ (now : ℕ) where
  stays_open :
      (k : ℕ) (b : Breaker) → b.state ≡ open_ → (run b (replicate k (fails_at now))).state ≡ open_
  unfolding run
  stays_open zero b s = s
  stays_open (suc k) b s =
      stays_open k (step b (fails_at now)) (unfold step failure in ground arith)

  counts_failures :
      (k : ℕ) (b : Breaker)
      → b.state ≡ closed
      → b.failures < b.threshold
      → (run b (replicate k (fails_at now))).state
        ≡ (if ltb (b.failures + k) b.threshold then closed else open_)
  unfolding run
  counts_failures zero b s h = ground arith
  counts_failures (suc k) b s h = elim (dec_lt (b.failures + 1) b.threshold) [
    | yes more ↦
        counts_failures k (step b (fails_at now)) (unfold step failure in ground arith)
          (unfold step failure in ground arith)
        ∙ unfold step failure in ground arith
    | no last ↦
        stays_open k (step b (fails_at now)) (unfold step failure in ground arith)
        ∙ unfold step failure in ground arith
  ]

-- From a new breaker, `k` failures in a row leave it closed while `k` is below the threshold, and
-- open it at the threshold, where it stays.
pub failures-trip :
    (k now threshold timeout : ℕ)
    → (run (new threshold timeout) (replicate k (fails_at now))).state
      ≡ (if ltb k (new threshold timeout).threshold then closed else open_)
failures-trip k now threshold timeout =
    counts_failures now k (new threshold timeout) (unfold new in refl)
      ((new-Inv threshold timeout).closed_below (unfold new in refl))
    ∙ ap (λ n. if ltb n (new threshold timeout).threshold then closed else open_) (start_at k)
  where
    start_at : (k : ℕ) → (new threshold timeout).failures + k ≡ k
    start_at k = unfold new in omega arith
