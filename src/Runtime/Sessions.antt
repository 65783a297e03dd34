-- ===== src/Runtime/Sessions.antt =====
-- The session manager: internal/runtime/session_manager.go. Each call is one step of the record; the
-- order of a shard's list stands for the order in which Go's `range` visits its map. A ceiling that
-- is not positive is 0 here.

pub mod Table
pub mod Registered
pub mod Listed
pub mod Closing
pub mod Sending
pub mod Ranging
mod Tests
use shark_socket.Base.{
  ℕ, zero, suc, ◌+◌, ◌-◌, ◌%◌, ◌^◌, Bool, true, false, ◌&&◌, Option, none, some, List, [], ◌∷◌,
  ◌++◌, map, ltb, leb, if◌then◌else◌, length, Result, ok, err,
}
use shark_socket.Base.Maps.{lookup, insert, erase, nat_eq}
use shark_socket.Base.Shards.{update}

abbrev pub session_shards : ℕ
session_shards = 64

-- What the manager sees of a `core.Session`: its ID, and whether it is a `core.SharedSender`.
pub record Session : Type 0 where
  pub id : ℕ  -- uint64
  pub shares : Bool

pub record SessionManager : Type 0 where
  pub next_id : ℕ  -- uint64
  pub count : ℕ
  pub max_sessions : ℕ
  pub shards : ℕ → List (ℕ × Session)

pub data RegisterError : Type 0 where
  invalid_argument duplicate_session session_capacity : RegisterError

pub new : ℕ → SessionManager
new max_sessions = record { next_id = 0; count = 0; max_sessions = max_sessions; shards = λ i. [] }

-- The new identifier, and the manager.
pub next_id : SessionManager → ℕ × SessionManager
next_id m = let id = (m.next_id + 1) % 2 ^ 64 in (id, record m { next_id = id })

pub shard : SessionManager → ℕ → List (ℕ × Session)
shard m id = m.shards (id % session_shards)

-- `none` is a nil session.
pub register : Option Session → SessionManager → Result RegisterError SessionManager
unfolding shard
register none m = err invalid_argument
register (some sess) m = elim (lookup sess.id (shard m sess.id)) [
  | some present ↦ err duplicate_session
  | none ↦
      if ltb 0 m.max_sessions && leb m.max_sessions m.count
      then err session_capacity
      else ok (record m {
        count = m.count + 1;
        shards = update (sess.id % session_shards) (insert sess.id sess (shard m sess.id)) m.shards;
      })
]

-- The manager, and whether the session was present.
pub unregister : ℕ → SessionManager → SessionManager × Bool
unfolding shard
unregister id m =
    let shards = update (id % session_shards) (erase id (shard m id)) m.shards in
    elim (lookup id (shard m id)) [
      | some present ↦ (record m { count = m.count - 1; shards = shards }, true)
      | none ↦ (record m { shards = shards }, false)
    ]

pub get : ℕ → SessionManager → Option Session
unfolding shard
get id m = lookup id (shard m id)

pub count : SessionManager → ℕ
count m = m.count

pub capacity : SessionManager → ℕ
capacity m = m.max_sessions

abbrev values : List (ℕ × Session) → List Session
values [] = []
values ((id, sess) ∷ entries) = sess ∷ values entries

-- The sessions of the shards below `n`, one shard after the other.
gather : ℕ → (ℕ → List (ℕ × Session)) → List Session
gather zero shards = []
gather (suc n) shards = gather n shards ++ values (shards n)

pub snapshot : SessionManager → List Session
unfolding gather
snapshot m = gather session_shards m.shards

-- What a call on a session ends with: it returns, returns an error, or panics.
pub data CallEnd (E : Type 0) : Type 0 where
  returns : CallEnd E
  fails : E → CallEnd E
  panics : CallEnd E

-- The error of `safeSessionCall`, if any; a panic is `handler_panic`.
pub safe_session_call : {E : Type 0} → E → CallEnd E → Option E
safe_session_call handler_panic returns = none
safe_session_call handler_panic (fails e) = some e
safe_session_call handler_panic panics = some handler_panic

-- `if err != nil && firstErr == nil { firstErr = err }`
abbrev pub first_error : {E : Type 0} → Option E → Option E → Option E
first_error (some e) latest = some e
first_error none latest = latest

-- One call that `Broadcast` makes.
pub data Sent : Type 0 where
  sent_shared sent_plain : Session → Sent

-- `shared` and `plain` of `Broadcast`.
pub sharing : Bool → List Session → List Session
sharing wanted [] = []
sharing wanted (sess ∷ sessions) =
    let rest = sharing wanted sessions in
    elim wanted [
      | true ↦ if sess.shares then sess ∷ rest else rest
      | false ↦ if sess.shares then rest else sess ∷ rest
    ]

-- The calls of `Broadcast`, in order. The manager is not changed.
pub broadcast_calls : SessionManager → List Sent
unfolding snapshot sharing
broadcast_calls m =
    let sessions = snapshot m in
    let shared = sharing true sessions in
    let plain = sharing false sessions in
    if ltb 1 (length shared)
    then map sent_shared shared ++ map sent_plain plain
    else map sent_plain (plain ++ sessions)

module _ {E : Type 0} (handler_panic : E) where
  -- The first error of the calls; `send` is what each call ends with.
  pub first_send_error : (Sent → CallEnd E) → List Sent → Option E
  first_send_error send [] = none
  first_send_error send (call ∷ calls) =
      first_error (safe_session_call handler_panic (send call)) (first_send_error send calls)

  pub broadcast : (Sent → CallEnd E) → SessionManager → Option E
  unfolding first_send_error
  broadcast send m = first_send_error send (broadcast_calls m)

  -- The inner loop of `CloseAll`; `close` is what closing each session ends with.
  pub close_each :
      (Session → CallEnd E) → List Session → Option E → SessionManager → SessionManager × Option E
  close_each close [] first m = (m, first)
  close_each close (sess ∷ sessions) first m =
      close_each close sessions (first_error first (safe_session_call handler_panic (close sess)))
        (unregister sess.id m).0

  -- What `CloseAll` does in `fuel` rounds with a context that is not cancelled; `none` where it would
  -- go on. No session is registered meanwhile.
  pub close_all :
      ℕ → (Session → CallEnd E) → Option E → SessionManager → Option (SessionManager × Option E)
  unfolding close_each
  close_all zero close first m = none
  close_all (suc fuel) close first m = elim (snapshot m) [
    | [] ↦ some (m, first)
    | sess ∷ sessions ↦
        let (m', first') = close_each close (sess ∷ sessions) first m in
        close_all fuel close first' m'
  ]
