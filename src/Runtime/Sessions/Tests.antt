-- ===== src/Runtime/Sessions/Tests.antt =====
-- Runs of the session manager, and the theorems at concrete managers.
use shark_socket.Base.{
  ℕ, ◌≡◌, refl, none, some, true, false, List, [], ◌∷◌, length, ltb, if◌then◌else◌,
}
use shark_socket.Base.Maps.{lookup, insert, erase}
use shark_socket.Runtime.Sessions.{
  Session, SessionManager, CallEnd, fails, panics, new, register, unregister, get, shard, snapshot,
  sharing, broadcast_calls, sent_plain, close_all, duplicate_session, session_capacity,
}
use shark_socket.Runtime.Sessions.Table.{
  Call, registers, unregisters, counts, replies, single_replies, accepted, rejected, was_present,
  counted, answer, replies-single_replies,
}
use shark_socket.Runtime.Sessions.Registered.{Inv}
use shark_socket.Runtime.Sessions.Listed.{after, Faithful, snapshot-after}
use shark_socket.Runtime.Sessions.Closing.{first_close_error, close_all-ends}
use shark_socket.Runtime.Sessions.Sending.{times_called, times_called-broadcast_calls}

abbrev tcp : Session
tcp = record { id = 3; shares = true }

abbrev udp : Session
udp = record { id = 67; shares = false }

abbrev calls : List Call
calls =
    registers (some tcp)
    ∷ registers (some udp)
    ∷ registers (some tcp)
    ∷ registers (some (record { id = 5; shares = false }))
    ∷ unregisters 9
    ∷ counts
    ∷ []

-- A duplicate is reported though the ceiling is reached.
told :
    replies (new 2) calls
    ≡ accepted
      ∷ accepted
      ∷ rejected duplicate_session
      ∷ rejected session_capacity
      ∷ was_present false
      ∷ counted 2
      ∷ []
unfolding replies answer register unregister new shard lookup insert erase
told = refl

replies-single_replies_example :
    replies (new 2) calls ≡ single_replies (record { ceiling = 2; table = [] }) calls
replies-single_replies_example = replies-single_replies 2 calls

snapshot-after_example : Inv (after calls (new 2)) × Faithful (after calls (new 2))
snapshot-after_example = snapshot-after 2 calls

-- The manager with both sessions.
abbrev both : SessionManager
both = after calls (new 2)

both-Inv : Inv both
both-Inv = (snapshot-after 2 calls).0

-- Without a second session that shares frames the UDP session is called twice.
both_calls : broadcast_calls both ≡ sent_plain udp ∷ sent_plain tcp ∷ sent_plain udp ∷ []
unfolding broadcast_calls after answer register unregister new shard lookup insert erase
both_calls = refl

both-get : get 67 both ≡ some udp
unfolding get after answer register unregister new shard lookup insert erase
both-get = refl

times_called-broadcast_calls_example :
    times_called 67 (broadcast_calls both)
    ≡ (if ltb 1 (length (sharing true (snapshot both))) then 1 else if udp.shares then 1 else 2)
times_called-broadcast_calls_example = times_called-broadcast_calls both udp both-Inv both-get

-- The TCP session fails to close, and the UDP session panics.
abbrev closing : Session → CallEnd ℕ
closing s = if s.shares then fails 7 else panics

close_all-ends_example :
    (m' : SessionManager) × (close_all 1 2 closing none both
      ≡ some (m', first_close_error 1 closing (snapshot both) none))
    × (snapshot m' ≡ [])
    × (m'.count ≡ 0)
    × ((id : ℕ) → get id m' ≡ none)
close_all-ends_example = close_all-ends 1 closing both both-Inv
