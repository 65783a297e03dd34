-- ===== src/Runtime/Gateway/Stopping.antt =====
-- The calls and the error of `Stop`.
use shark_socket.Base.{
  ◌≡◌, refl, sym, ap, ◌∙◌, inl, inr, Option, none, some, List, [], ◌∷◌, ◌++◌, arith, false,
  if◌then◌else◌, Option-cases, map, append_assoc,
}
use shark_socket.Runtime.Sessions.{CallEnd}
use shark_socket.Runtime.Chain.{Plugin, stop_loop}
use shark_socket.Runtime.Gateway.{
  Server, closes_sessions, stops_server, Gateway, GatewayCall, stops_accept, drains, closes_all,
  stops_admin, calls_plugin, snapshot, staged_calls, close_calls, run_calls, join_plugins, stop,
}

-- The first of two errors.
abbrev pub or_else {ℓ} : {A : Type ℓ} → Option A → Option A → Option A
or_else none later = later
or_else (some e) later = some e

-- Several errors, where there are any.
abbrev pub any_errors {ℓ} : {A : Type ℓ} → List A → Option (List A)
any_errors [] = none
any_errors (e ∷ es) = some (e ∷ es)

-- The servers that stop in stages.
abbrev pub staged_of : List Server → List Server
staged_of [] = []
staged_of (s ∷ servers) = if s.staged then s ∷ staged_of servers else staged_of servers

-- The call of the third stage on a server.
abbrev pub closing : Server → GatewayCall
closing s = if s.staged then closes_sessions s else stops_server s

staged_calls-map :
    (stage : Server → GatewayCall) (servers : List Server)
    → staged_calls stage servers ≡ map stage (staged_of servers)
unfolding staged_calls
staged_calls-map stage [] = refl
staged_calls-map stage (s ∷ servers) = ground (arith, staged_calls-map stage servers)

close_calls-map : (servers : List Server) → close_calls servers ≡ map closing servers
unfolding close_calls
close_calls-map [] = refl
close_calls-map (s ∷ servers) = ap (◌∷◌ (closing s)) (close_calls-map servers)

module _ {E : Type 0} (plugin_panic : E) (start_plugin stop_plugin : Plugin → CallEnd E)
    (answer : GatewayCall → Option E) where
  -- The answer of the first call that fails.
  abbrev pub first_error : List GatewayCall → Option (List E)
  first_error [] = none
  first_error (c ∷ calls) = elim (answer c) [ none ↦ first_error calls | some e ↦ some (e ∷ []) ]

  run_calls-or_else :
      (calls : List GatewayCall) (first : Option (List E))
      → run_calls plugin_panic start_plugin stop_plugin answer calls first
        ≡ or_else first (first_error calls)
  unfolding run_calls
  run_calls-or_else [] none = refl
  run_calls-or_else [] (some e) = refl
  run_calls-or_else (c ∷ calls) (some e) = run_calls-or_else calls (some e)
  run_calls-or_else (c ∷ calls) none = elim (Option-cases (answer c)) [
    | inl fine ↦ ground (arith, fine, run_calls-or_else calls none)
    | inr (e, fails) ↦ ground (arith, fails, run_calls-or_else calls (some (e ∷ [])))
  ]

  first_error-append :
      (calls more : List GatewayCall)
      → first_error (calls ++ more) ≡ or_else (first_error calls) (first_error more)
  first_error-append [] more = refl
  first_error-append (c ∷ calls) more = elim (Option-cases (answer c)) [
    | inl fine ↦ ground (arith, fine, first_error-append calls more)
    | inr (e, fails) ↦ ground (arith, fails)
  ]

  or_else_assoc : (a b c : Option (List E)) → or_else (or_else a b) c ≡ or_else a (or_else b c)
  or_else_assoc none b c = refl
  or_else_assoc (some e) b c = refl

  join_plugins-or_else :
      (es : List E) (first : Option (List E))
      → join_plugins plugin_panic start_plugin stop_plugin answer es first
        ≡ or_else first (any_errors es)
  unfolding join_plugins
  join_plugins-or_else [] none = refl
  join_plugins-or_else [] (some e) = refl
  join_plugins-or_else (e ∷ es) none = refl
  join_plugins-or_else (e ∷ es) (some first) = refl

  -- The calls of servers and sessions, as the code makes them.
  abbrev coded_calls : Gateway → List GatewayCall
  coded_calls g =
      staged_calls stops_accept (snapshot g)
      ++ (staged_calls drains (snapshot g) ++ (close_calls (snapshot g) ++ closes_all ∷ []))

  -- The stages hand the first error on.
  stages :
      (g : Gateway)
      → run_calls plugin_panic start_plugin stop_plugin answer (closes_all ∷ []) (
          run_calls plugin_panic start_plugin stop_plugin answer (close_calls (snapshot g)) (
            run_calls plugin_panic start_plugin stop_plugin answer
              (staged_calls drains (snapshot g))
              (run_calls plugin_panic start_plugin stop_plugin answer
                (staged_calls stops_accept (snapshot g))
                none)))
        ≡ first_error (coded_calls g)
  stages g =
      let a = staged_calls stops_accept (snapshot g) in
      let b = staged_calls drains (snapshot g) in
      let c = close_calls (snapshot g) in
      let d = closes_all ∷ [] in
      let fa = first_error a in
      let fb = first_error b in
      let fc = first_error c in
      let fd = first_error d in
      run_calls-or_else d _
      ∙ ap (λ t. or_else t fd)
          (run_calls-or_else c _
            ∙ ap (λ t. or_else t fc)
                (run_calls-or_else b _ ∙ ap (λ t. or_else t fb) (run_calls-or_else a none)))
      ∙ or_else_assoc (or_else fa fb) fc fd
      ∙ or_else_assoc fa fb (or_else fc fd)
      ∙ sym (
          first_error-append a (b ++ (c ++ d))
          ∙ ap (or_else fa)
              (first_error-append b (c ++ d) ∙ ap (or_else fb) (first_error-append c d)))

  -- The calls of servers and sessions, stage by stage.
  abbrev pub stage_calls : Gateway → List GatewayCall
  stage_calls g =
      let servers = snapshot g in
      map stops_accept (staged_of servers)
      ++ (map drains (staged_of servers) ++ (map closing servers ++ closes_all ∷ []))

  coded_calls-eq-stage_calls : (g : Gateway) → coded_calls g ≡ stage_calls g
  coded_calls-eq-stage_calls g =
      rw
        (
          staged_calls-map stops_accept (snapshot g),
          staged_calls-map drains (snapshot g),
          close_calls-map (snapshot g),
        )
        refl

  -- The calls of the admin listener.
  abbrev pub admin_calls : Gateway → List GatewayCall
  admin_calls g = if g.admin then stops_admin ∷ [] else []

  -- Stop makes all its calls, whatever fails: each staged server stops accepting, each is drained,
  -- each server is closed (one that is not staged stops as a whole), the sessions are closed, the
  -- plugins are stopped, and the admin listener where one was started. Its error is that of the first
  -- call that fails, in this order, where the plugins count with all their errors; and it clears
  -- `started`, and the servers, the plugins and whether there is an admin listener stay.
  pub stop-first_error :
      (g : Gateway)
      → stop plugin_panic start_plugin stop_plugin answer g ≡ (
        record g { started = false },
        stage_calls g
            ++ (map calls_plugin (stop_loop plugin_panic stop_plugin g.plugins).0 ++ admin_calls g),
        or_else (first_error (stage_calls g)) (
            or_else
              (any_errors (stop_loop plugin_panic stop_plugin g.plugins).1)
              (first_error (admin_calls g))),
      )
  unfolding stop
  stop-first_error g =
      let a = staged_calls stops_accept (snapshot g) in
      let b = staged_calls drains (snapshot g) in
      let c = close_calls (snapshot g) in
      let calls = map calls_plugin (stop_loop plugin_panic stop_plugin g.plugins).0 in
      let es = (stop_loop plugin_panic stop_plugin g.plugins).1 in
      let admin = admin_calls g in
      let error =
        run_calls-or_else admin _
        ∙ ap (λ t. or_else t (first_error admin)) (join_plugins-or_else es _)
        ∙ ap (λ t. or_else (or_else t (any_errors es)) (first_error admin)) (stages g)
        ∙ or_else_assoc (first_error (coded_calls g)) (any_errors es) (first_error admin) in
      let joined : a ++ (b ++ (c ++ (closes_all ∷ calls ++ admin)))
          ≡ coded_calls g ++ (calls ++ admin) =
        simp append_assoc refl in
      cc (joined, error, coded_calls-eq-stage_calls g)
