-- ===== src/Transport/Backoff.antt =====
-- The delays between retries: internal/transport/shared/backoff.go. A duration that is not positive is
-- 0 here; `wait` is the new delay, without the timer.
pub mod Doubling
mod Tests
use shark_socket.Base.{ℕ, zero, suc, ◌*◌, ltb, leb, ◌==◌, if◌then◌else◌}

-- 5 * time.Millisecond
abbrev pub default_backoff_min : ℕ
default_backoff_min = 5000000

-- time.Second
abbrev pub default_backoff_max : ℕ
default_backoff_max = 1000000000

pub record Backoff : Type 0 where
  pub min_delay : ℕ
  pub max_delay : ℕ
  pub delay : ℕ

pub new_backoff : ℕ → ℕ → Backoff
new_backoff min_ max_ =
    let low = if min_ == 0 then default_backoff_min else min_ in
    let high = if max_ == 0 then default_backoff_max else max_ in
    record { min_delay = low; max_delay = if ltb high low then low else high; delay = 0 }

pub wait : Backoff → Backoff
wait b =
    if b.delay == 0
    then record b { delay = b.min_delay }
    else if leb b.max_delay b.delay
    then record b { delay = b.max_delay }
    else record b { delay = if ltb b.max_delay (b.delay * 2) then b.max_delay else b.delay * 2 }

pub reset : Backoff → Backoff
reset b = record b { delay = 0 }
