-- ===== src/Runtime/Gateway.antt =====
-- The gateway: internal/runtime/gateway.go. A call of Register, Start or Stop holds the start mutex;
-- what it does is the list of the calls that it makes of servers, plugins, sessions and the admin
-- listener, and its error. What these answer is an argument. Deadlines and logging are not modelled.
pub mod Starting
pub mod Stopping
pub mod Registering
mod Tests
use shark_socket.Base.{
  ℕ, Bool, true, false, Option, none, some, List, [], ◌∷◌, ◌++◌, map, if◌then◌else◌,
}
use shark_socket.Base.Maps.{lookup, insert, nat_eq}
use shark_socket.Runtime.Sessions.{CallEnd}
use shark_socket.Runtime.Chain.{Plugin, Call, start_all, stop_loop}

-- A `core.Server`, by what the gateway sees of it.
pub record Server : Type 0 where
  pub protocol : ℕ
  pub configurable : Bool  -- is a core.RuntimeConfigurable
  pub staged : Bool  -- is a core.StagedServer

pub data GatewayCall : Type 0 where
  uses_runtime starts_server stops_server stops_accept drains closes_sessions : Server → GatewayCall
  calls_plugin : Call → GatewayCall
  closes_all starts_admin stops_admin : GatewayCall

-- The servers in a map and the order in which they came; `admin_addr` tells that an address is set,
-- `admin` that the field holds a listener.
pub record Gateway : Type 0 where
  pub servers : List (ℕ × Server)
  pub order : List ℕ
  pub plugins : List Plugin
  pub admin_addr : Bool
  pub admin : Bool
  pub started : Bool

-- An error of a call is a list, since that of the plugins has several.
pub data GatewayError (E : Type 0) : Type 0 where
  no_servers duplicate_protocol register_after_start already_started : GatewayError E
  failed : List E → GatewayError E

-- A protocol without a server would be a nil server.
pub pick : List ℕ → List (ℕ × Server) → List Server
pick [] servers = []
pick (proto ∷ order) servers =
    let rest = pick order servers in elim (lookup proto servers) [ none ↦ rest | some s ↦ s ∷ rest ]

pub snapshot : Gateway → List Server
unfolding pick
snapshot g = pick g.order g.servers

-- `none` is a nil server.
pub register : {E : Type 0} → Option Server → Gateway → Gateway × Option (GatewayError E)
register none g = (g, some no_servers)
register (some s) g =
    if g.started then (g, some register_after_start) else elim (lookup s.protocol g.servers) [
      | some other ↦ (g, some duplicate_protocol)
      | none ↦ (
        record g { servers = insert s.protocol s g.servers; order = g.order ++ s.protocol ∷ [] },
        none,
      )
    ]

pub configured : List Server → List GatewayCall
configured [] = []
configured (s ∷ servers) =
    let rest = configured servers in if s.configurable then uses_runtime s ∷ rest else rest

-- A stage's calls of the staged servers.
pub staged_calls : (Server → GatewayCall) → List Server → List GatewayCall
staged_calls stage [] = []
staged_calls stage (s ∷ servers) =
    let rest = staged_calls stage servers in if s.staged then stage s ∷ rest else rest

-- The third stage: a server that is not staged stops as a whole.
pub close_calls : List Server → List GatewayCall
close_calls [] = []
close_calls (s ∷ servers) =
    (if s.staged then closes_sessions s else stops_server s) ∷ close_calls servers

-- The last server first.
pub backwards : List Server → List Server → List Server
backwards started [] = started
backwards started (s ∷ servers) = backwards (s ∷ started) servers

module _ {E : Type 0} (plugin_panic : E) (start_plugin stop_plugin : Plugin → CallEnd E)
    (answer : GatewayCall → Option E) where
  -- `rollbackStart`, where `started` has the last server first.
  pub rollback_start : List Plugin → List Server → List GatewayCall
  rollback_start plugins started =
      map stops_server started ++ map calls_plugin (stop_loop plugin_panic stop_plugin plugins).0

  -- The loop of `Start` over the servers.
  pub start_servers : List Plugin → List Server → List Server → List GatewayCall × Option E
  unfolding rollback_start
  start_servers plugins started [] = ([], none)
  start_servers plugins started (s ∷ servers) =
      let rest = start_servers plugins (s ∷ started) servers in
      elim (answer (starts_server s)) [
        | none ↦ (starts_server s ∷ rest.0, rest.1)
        | some e ↦ (starts_server s ∷ rollback_start plugins started, some e)
      ]

  -- The admin listener comes up last.
  pub start_admin : Gateway → List Server → Gateway × List GatewayCall × Option (GatewayError E)
  unfolding rollback_start backwards
  start_admin g servers =
      if g.admin_addr
      then elim (answer starts_admin) [
        | none ↦ (record g { admin = true; started = true }, starts_admin ∷ [], none)
        | some e ↦ (
          g,
          starts_admin ∷ rollback_start g.plugins (backwards [] servers),
          some (failed (e ∷ [])),
        )
      ]
      else (record g { started = true }, [], none)

  -- `Start` once the plugins run.
  pub start_running : Gateway → List Server → Gateway × List GatewayCall × Option (GatewayError E)
  unfolding start_servers start_admin
  start_running g servers =
      let (calls, error) = start_servers g.plugins [] servers in
      let (g', more, result) = start_admin g servers in
      elim error [
        | none ↦ (g', calls ++ more, result)
        | some e ↦ (g, calls, some (failed (e ∷ [])))
      ]

  pub start : Gateway → Gateway × List GatewayCall × Option (GatewayError E)
  unfolding snapshot configured start_running
  start g =
      let servers = snapshot g in
      let (calls, errors) = start_all plugin_panic start_plugin stop_plugin g.plugins in
      let before = configured servers ++ map calls_plugin calls in
      let (g', more, result) = start_running g servers in
      if g.started then (g, [], some already_started) else elim servers [
        | [] ↦ (g, [], some no_servers)
        | s ∷ others ↦ elim errors [
          | e ∷ es ↦ (g, before, some (failed (e ∷ es)))
          | [] ↦ (g', before ++ more, result)
        ]
      ]

  -- `if err != nil && firstErr == nil { firstErr = err }` for each call.
  pub run_calls : List GatewayCall → Option (List E) → Option (List E)
  run_calls [] first = first
  run_calls (c ∷ calls) first = run_calls calls (elim first [
    | some e ↦ some e
    | none ↦ elim (answer c) [ none ↦ none | some e ↦ some (e ∷ []) ]
  ])

  -- The error of `StopAll`.
  pub join_plugins : List E → Option (List E) → Option (List E)
  join_plugins [] first = first
  join_plugins (e ∷ es) none = some (e ∷ es)
  join_plugins (e ∷ es) (some first) = some first

  pub stop : Gateway → Gateway × List GatewayCall × Option (List E)
  unfolding snapshot staged_calls close_calls run_calls join_plugins
  stop g =
      let servers = snapshot g in
      let first = run_calls (staged_calls stops_accept servers) none in
      let second = run_calls (staged_calls drains servers) first in
      let third = run_calls (close_calls servers) second in
      let fourth = run_calls (closes_all ∷ []) third in
      let (calls, errors) = stop_loop plugin_panic stop_plugin g.plugins in
      let fifth = join_plugins errors fourth in
      let admin = if g.admin then stops_admin ∷ [] else [] in
      (
        record g { started = false },
        staged_calls stops_accept servers
            ++ (staged_calls drains servers
                ++ (close_calls servers ++ (closes_all ∷ map calls_plugin calls ++ admin))),
        run_calls admin fifth,
      )

-- `Ready` and `Protocols` read the record.
pub ready : Gateway → Bool
ready g = g.started

pub protocols : Gateway → List ℕ
protocols g = g.order
