-- ===== src/Runtime/Gateway/Starting.antt =====
-- What `Start` calls when it succeeds, and what it takes back when it fails.
use shark_socket.Base.{
  ◌≡◌, ◌≢◌, ◌⊎◌, refl, sym, ap, ◌∙◌, inl, inr, true, false, Option, none, some, List, [], ◌∷◌, ◌++◌,
  ◌||◌, map, arith, if◌then◌else◌, All, Bool-cases, Option-cases,
}
use shark_socket.Runtime.Sessions.{CallEnd}
use shark_socket.Runtime.Chain.{Plugin, start_all, stop_loop}
use shark_socket.Runtime.Gateway.{
  Server, Gateway, GatewayCall, starts_server, stops_server, calls_plugin, starts_admin,
  GatewayError, failed, snapshot, configured, rollback_start, start_servers, backwards, start_admin,
  start_running, start,
}

some_first :
    (servers : List Server)
    → servers ≢ []
    → (s : Server) × (others : List Server) × (servers ≡ s ∷ others)
some_first [] h = absurd (h refl)
some_first (s ∷ others) h = (s, others, refl)

module _ {E : Type 0} (plugin_panic : E) (start_plugin stop_plugin : Plugin → CallEnd E)
    (answer : GatewayCall → Option E) where
  -- The servers `up` ran, `next` failed, and what ran was stopped again, the last first, the plugins
  -- at the end.
  pub record Undone (plugins : List Plugin) (started servers : List Server)
      (calls : List GatewayCall) (e : E) : Type 0 where
    pub up : List Server
    pub next : GatewayCall
    pub made :
        calls
        ≡ map starts_server up
          ++ next
            ∷ (map stops_server (backwards started up)
                ++ map calls_plugin (stop_loop plugin_panic stop_plugin plugins).0)
    pub ran : All (λ s. answer (starts_server s) ≡ none) up
    pub broke : answer next ≡ some e
    pub reached :
        ((s : Server) × (more : List Server) × (servers ≡ up ++ s ∷ more)
          × (next ≡ starts_server s))
        ⊎ ((servers ≡ up) × (next ≡ starts_admin))

  start_servers-Undone :
      (plugins : List Plugin) (started servers : List Server) (e : E)
      → (start_servers plugin_panic start_plugin stop_plugin answer plugins started servers).1
        ≡ some e
      → Undone plugins started servers
          (start_servers plugin_panic start_plugin stop_plugin answer plugins started servers).0
          e
  unfolding start_servers rollback_start backwards
  start_servers-Undone plugins started [] e h = absurd (ground (arith, h))
  start_servers-Undone plugins started (s ∷ servers) e h =
      elim (Option-cases (answer (starts_server s))) [
        | inr (x, fails) ↦
            rw (fails, start_servers)
              (record {
                up = [];
                next = starts_server s;
                made = refl;
                ran = tt;
                broke = ground (arith, h, fails);
                reached = inl (s, servers, refl, refl);
              })
        | inl fine ↦
            let u =
              start_servers-Undone plugins (s ∷ started) servers e (ground (arith, h, fine)) in
            rw (fine, start_servers)
              (record {
                up = s ∷ u.up;
                next = u.next;
                made = ap (◌∷◌ (starts_server s)) u.made;
                ran = (fine, u.ran);
                broke = u.broke;
                reached = elim u.reached [
                  | inl (s', more, split, named) ↦ inl (s', more, ap (◌∷◌ s) split, named)
                  | inr (all, named) ↦ inr (ap (◌∷◌ s) all, named)
                ];
              })
      ]

  start_servers_fine :
      (plugins : List Plugin) (started servers : List Server)
      → (start_servers plugin_panic start_plugin stop_plugin answer plugins started servers).1
        ≡ none
      → ((start_servers plugin_panic start_plugin stop_plugin answer plugins started servers).0
          ≡ map starts_server servers)
        × All (λ s. answer (starts_server s) ≡ none) servers
  unfolding start_servers
  start_servers_fine plugins started [] h = (refl, tt)
  start_servers_fine plugins started (s ∷ servers) h =
      elim (Option-cases (answer (starts_server s))) [
        | inr (x, fails) ↦ absurd (ground (arith, h, fails))
        | inl fine ↦
            let u = start_servers_fine plugins (s ∷ started) servers (ground (arith, h, fine)) in
            rw (fine, start_servers) (ap (◌∷◌ (starts_server s)) u.0, (refl, u.1))
      ]

  start_servers_started :
      (plugins : List Plugin) (started servers : List Server)
      → All (λ s. answer (starts_server s) ≡ none) servers
      → start_servers plugin_panic start_plugin stop_plugin answer plugins started servers
        ≡ (map starts_server servers, none)
  unfolding start_servers
  start_servers_started plugins started [] up = refl
  start_servers_started plugins started (s ∷ servers) (fine, up) =
      rw (fine, start_servers_started plugins (s ∷ started) servers up, start_servers) refl

  start_admin_fails :
      (g : Gateway) (servers : List Server) (e : E)
      → g.admin_addr ≡ true
      → answer starts_admin ≡ some e
      → start_admin plugin_panic start_plugin stop_plugin answer g servers ≡ (
        g,
        starts_admin
            ∷ rollback_start plugin_panic start_plugin stop_plugin answer g.plugins
                (backwards [] servers),
        some (failed (e ∷ [])),
      )
  unfolding start_admin
  start_admin_fails g servers e opened fails = ground (arith, opened, fails)

  start_admin_fine :
      (g : Gateway) (servers : List Server)
      → answer starts_admin ≡ none
      → start_admin plugin_panic start_plugin stop_plugin answer g servers ≡ (
        record g { admin = g.admin_addr || g.admin; started = true },
        (if g.admin_addr then starts_admin ∷ [] else []),
        none,
      )
  unfolding start_admin
  start_admin_fine g servers fine = elim (Bool-cases g.admin_addr) [
    | inl opened ↦ ground (arith, opened, fine)
    | inr closed ↦ ground (arith, closed, fine)
  ]

  -- The whole of `Start`, once the plugins run.
  start_running-Undone :
      (g : Gateway) (servers : List Server) (result : GatewayError E)
      → (start_running plugin_panic start_plugin stop_plugin answer g servers).2 ≡ some result
      → ((start_running plugin_panic start_plugin stop_plugin answer g servers).0 ≡ g)
        × ((e : E) × (result ≡ failed (e ∷ []))
            × Undone g.plugins [] servers
                (start_running plugin_panic start_plugin stop_plugin answer g servers).1
                e)
  unfolding start_running start_admin rollback_start
  start_running-Undone g servers result h =
      elim (Option-cases
        (start_servers plugin_panic start_plugin stop_plugin answer g.plugins [] servers).1) [
          | inr (e, fails) ↦
              let u = start_servers-Undone g.plugins [] servers e fails in
              rw (fails, start_running) (refl, (e, (ground (arith, h, fails)), u))
          | inl fine ↦ elim (Bool-cases g.admin_addr) [
            | inr closed ↦ absurd (ground (arith, h, fine, closed))
            | inl opened ↦ elim (Option-cases (answer starts_admin)) [
              | inl up ↦ absurd (ground (arith, h, fine, opened, up))
              | inr (e, fails) ↦
                  let (all, ran) = start_servers_fine g.plugins [] servers fine in
                  rw
                    (
                      fine,
                      start_admin_fails g servers e opened fails,
                      start_running,
                      rollback_start,
                    )
                    (
                      refl,
                      (
                        e,
                        (ground (arith, h, fine, opened, fails)),
                        record {
                          up = servers;
                          next = starts_admin;
                          made =
                              ap
                                (λ t.
                                  t
                                  ++ starts_admin
                                    ∷ (map stops_server (backwards [] servers)
                                        ++ map calls_plugin
                                            (stop_loop plugin_panic stop_plugin g.plugins).0))
                                all;
                          ran = ran;
                          broke = fails;
                          reached = inr (refl, refl);
                        },
                      ),
                    )
            ]
          ]
        ]

  start_running_fine :
      (g : Gateway) (servers : List Server)
      → All (λ s. answer (starts_server s) ≡ none) servers
      → answer starts_admin ≡ none
      → start_running plugin_panic start_plugin stop_plugin answer g servers ≡ (
        record g { admin = g.admin_addr || g.admin; started = true },
        map starts_server servers ++ (if g.admin_addr then starts_admin ∷ [] else []),
        none,
      )
  unfolding start_running
  start_running_fine g servers up admin =
      let all = start_servers_started g.plugins [] servers up in
      let last = start_admin_fine g servers admin in
      ground (
        arith,
        ap (λ t. t.0) all,
        ap (λ t. t.1) all,
        ap (λ t. t.0) last,
        ap (λ t. t.1) last,
        ap (λ t. t.2) last,
      )

  -- What Start calls before the servers.
  abbrev pub before : Gateway → List GatewayCall
  before g =
      configured (snapshot g)
      ++ map calls_plugin (start_all plugin_panic start_plugin stop_plugin g.plugins).0

  -- Start hands over to the servers once the plugins run.
  start_runs :
      (g : Gateway)
      → g.started ≡ false
      → snapshot g ≢ []
      → (start_all plugin_panic start_plugin stop_plugin g.plugins).1 ≡ []
      → start plugin_panic start_plugin stop_plugin answer g ≡ (
        (start_running plugin_panic start_plugin stop_plugin answer g (snapshot g)).0,
        before g ++ (start_running plugin_panic start_plugin stop_plugin answer g (snapshot g)).1,
        (start_running plugin_panic start_plugin stop_plugin answer g (snapshot g)).2,
      )
  unfolding start
  start_runs g idle some_server fine =
      let (s, others, split) = some_first (snapshot g) some_server in
      ground (arith, idle, split, fine)

  pub start-Undone :
      (g : Gateway) (result : GatewayError E)
      → g.started ≡ false
      → snapshot g ≢ []
      → (start_all plugin_panic start_plugin stop_plugin g.plugins).1 ≡ []
      → (start plugin_panic start_plugin stop_plugin answer g).2 ≡ some result
      → ((start plugin_panic start_plugin stop_plugin answer g).0 ≡ g)
        × (e : E) × (calls : List GatewayCall) × (result ≡ failed (e ∷ []))
        × ((start plugin_panic start_plugin stop_plugin answer g).1 ≡ before g ++ calls)
        × Undone g.plugins [] (snapshot g) calls e
  start-Undone g result idle some_server fine h =
      let runs = start_runs g idle some_server fine in
      let (same, (e, named, u)) =
        start_running-Undone g (snapshot g) result (ap (λ t. t.2) (sym runs) ∙ h) in
      (ap (λ t. t.0) runs ∙ same, e, _, named, ap (λ t. t.1) runs, u)

  pub start_succeeds :
      (g : Gateway)
      → g.started ≡ false
      → snapshot g ≢ []
      → (start_all plugin_panic start_plugin stop_plugin g.plugins).1 ≡ []
      → All (λ s. answer (starts_server s) ≡ none) (snapshot g)
      → answer starts_admin ≡ none
      → start plugin_panic start_plugin stop_plugin answer g ≡ (
        record g { admin = g.admin_addr || g.admin; started = true },
        before g
            ++ (map starts_server (snapshot g) ++ (if g.admin_addr then starts_admin ∷ [] else [])),
        none,
      )
  start_succeeds g idle some_server fine up admin =
      start_runs g idle some_server fine
      ∙ ap (λ t. (t.0, before g ++ t.1, t.2)) (start_running_fine g (snapshot g) up admin)
