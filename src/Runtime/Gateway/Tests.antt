-- ===== src/Runtime/Gateway/Tests.antt =====
-- Runs of the gateway on two servers.
use shark_socket.Base.{
  ℕ, ◌≡◌, ◌≢◌, ◌||◌, refl, true, false, Option, none, some, List, [], ◌∷◌, ◌++◌, map, arith, All,
  if◌then◌else◌,
}
use shark_socket.Base.Maps.{lookup, nat_eq}
use shark_socket.Runtime.Sessions.{CallEnd, returns}
use shark_socket.Runtime.Chain.{Plugin, start_all, start_loop, stop_loop}
use shark_socket.Runtime.Gateway.{
  Server, Gateway, GatewayCall, starts_server, closes_sessions, starts_admin, GatewayError, failed,
  snapshot, start, stop, pick, calls_plugin,
}
use shark_socket.Runtime.Gateway.Starting.{Undone, before, start-Undone, start_succeeds}
use shark_socket.Runtime.Gateway.Stopping.{
  or_else, any_errors, first_error, stage_calls, admin_calls, stop-first_error,
}
use shark_socket.Runtime.Gateway.Registering.{
  register_each, first_of_each, idle_gateway, register_each-first_of_each,
}

abbrev tcp_server : Server
tcp_server = record { protocol = 1; configurable = true; staged = true }

abbrev coap_server : Server
coap_server = record { protocol = 3; configurable = false; staged = false }

-- A second server of the first protocol.
abbrev tcp_again : Server
tcp_again = record { protocol = 1; configurable = false; staged = true }

abbrev heartbeat : Plugin
heartbeat = record { name = 0; priority = 5; lifecycle = true }

-- Two servers, a plugin and an admin listener.
abbrev two_servers : Gateway
two_servers = record {
  servers = (1, tcp_server) ∷ (3, coap_server) ∷ [];
  order = 1 ∷ 3 ∷ [];
  plugins = heartbeat ∷ [];
  admin_addr = true;
  admin = true;
  started = false;
}

abbrev calm : Plugin → CallEnd ℕ
calm p = returns

-- The port of the second server is taken, and so on with what may fail.
coap_fails : GatewayCall → Option ℕ
coap_fails (starts_server s) = if s.staged then none else some 7
coap_fails (closes_sessions s) = some 8
coap_fails c = none

all_fine : GatewayCall → Option ℕ
all_fine c = none

plugins_start : (start_all 99 calm calm (heartbeat ∷ [])).1 ≡ []
unfolding start_all
plugins_start = refl

two_snapshot : snapshot two_servers ≢ []
unfolding snapshot pick lookup
two_snapshot h = ground (arith, h)

undone_error : (start 99 calm calm coap_fails two_servers).2 ≡ some (failed (7 ∷ []))
unfolding start snapshot pick coap_fails lookup start_all start_loop
undone_error = refl

start-Undone_example :
    ((start 99 calm calm coap_fails two_servers).0 ≡ two_servers)
    × (e : ℕ) × (calls : List GatewayCall) × (◌≡◌ {A = GatewayError ℕ}
        (failed (7 ∷ []))
        (failed (e ∷ [])))
    × ((start 99 calm calm coap_fails two_servers).1
        ≡ before 99 calm calm coap_fails two_servers ++ calls)
    × Undone 99 calm calm coap_fails (heartbeat ∷ []) [] (snapshot two_servers) calls e
start-Undone_example =
    start-Undone 99 calm calm coap_fails two_servers (failed (7 ∷ [])) refl two_snapshot
      plugins_start undone_error

two_fine : All (λ s. all_fine (starts_server s) ≡ none) (snapshot two_servers)
unfolding snapshot pick lookup all_fine
two_fine = (refl, (refl, tt))

start_succeeds_example : start 99 calm calm all_fine two_servers ≡ (
  record two_servers { admin = true || true; started = true },
  before 99 calm calm all_fine two_servers
      ++ (map starts_server (snapshot two_servers) ++ (if true then starts_admin ∷ [] else [])),
  none,
)
start_succeeds_example =
    start_succeeds 99 calm calm all_fine two_servers refl two_snapshot plugins_start two_fine
      (unfold all_fine in refl)

stop-first_error_example : stop 99 calm calm coap_fails two_servers ≡ (
  record two_servers { started = false },
  stage_calls 99 calm calm coap_fails two_servers
      ++ (map calls_plugin (stop_loop 99 calm (heartbeat ∷ [])).0
          ++ admin_calls 99 calm calm coap_fails two_servers),
  or_else (first_error 99 calm calm coap_fails (stage_calls 99 calm calm coap_fails two_servers)) (
      or_else
        (any_errors (stop_loop 99 calm (heartbeat ∷ [])).1)
        (first_error 99 calm calm coap_fails (admin_calls 99 calm calm coap_fails two_servers))),
)
stop-first_error_example = stop-first_error 99 calm calm coap_fails two_servers

-- The session stage of the first server is the one that fails.
stopped : (stop 99 calm calm coap_fails two_servers).2 ≡ some (8 ∷ [])
unfolding stop snapshot pick coap_fails lookup stop_loop
stopped = refl

register_each-first_of_each_example :
    snapshot (
      register_each ℕ
        (tcp_server ∷ tcp_again ∷ coap_server ∷ [])
        (idle_gateway (heartbeat ∷ []) true))
    ≡ first_of_each [] (tcp_server ∷ tcp_again ∷ coap_server ∷ [])
register_each-first_of_each_example =
    register_each-first_of_each ℕ (tcp_server ∷ tcp_again ∷ coap_server ∷ []) (heartbeat ∷ []) true
