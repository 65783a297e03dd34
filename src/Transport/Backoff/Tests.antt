-- ===== src/Transport/Backoff/Tests.antt =====
-- Runs of the back-off, and the theorem at the default bounds.
use shark_socket.Base.{◌≡◌, refl}
use shark_socket.Transport.Backoff.{new_backoff, wait}
use shark_socket.Transport.Backoff.Doubling.{waits}

ninth : (waits 9 (new_backoff 0 0)).delay ≡ 1000000000
unfolding waits wait new_backoff
ninth = refl
