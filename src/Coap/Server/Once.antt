-- ===== src/Coap/Server/Once.antt =====
-- The handler runs at most once for each confirmable exchange.
use shark_socket.Base.{
  ℕ, ◌+◌, ◌≤◌, ◌≡◌, refl, ap, inl, inr, Bool, true, false, Option, none, some, List, [], ◌∷◌, ◌++◌,
  arith, ◌==◌, Bool-cases, Option-cases, Result-cases,
}
use shark_socket.Base.Maps.{lookup, insert, erase, lookup-insert, text_eq, nat_eq}
use shark_socket.Coap.Message.{Message, parse, type_ack, type_rst}
use shark_socket.Coap.Retransmit.{PendingNotify}
use shark_socket.Coap.Observe.{Text, remove_by_token}
use shark_socket.Coap.Server.{
  Exchange, exchange_eq, Server, Service, Step, reply_block1_unsupported, reply_to_duplicate,
  handle_observe, serve, reset, handle_con, handle_parsed, handle_coap_message,
}
use shark_socket.Coap.Server.Bounds.{
  runs_of, recorded, own, Bounded, runs_of-append, runs_of-sent, respond_with-Bounded,
  run_plugins-Bounded,
}

-- What comes in on the sockets: over DTLS or not, from whom, and the bytes.
abbrev pub Datagram : Type 0
Datagram = Bool × Text × List ℕ

unfoldable pub handle_all : Service → List Datagram → Server → Step
handle_all service [] s = (s, [])
handle_all service ((dtls, remote, bytes) ∷ datagrams) s =
    let t = handle_coap_message service dtls remote bytes s in
    let rest = handle_all service datagrams t.0 in (rest.0, t.1 ++ rest.1)

module _ (key : Exchange) where
  serve-Bounded :
      (service : Service) (dtls : Bool) (k : Exchange) (remote : Text) (msg : Message) (con : Bool)
      (s : Server)
      → Bounded key (own key k con) s (serve service dtls k remote msg con s)
  unfolding serve reply_block1_unsupported recorded
  serve-Bounded service dtls k remote msg con s = elim (Option-cases (lookup 27 msg.options)) [
    | inl single ↦
        rw (single, serve)
          (run_plugins-Bounded key (service.on_message msg.payload) service dtls k remote msg con
            (handle_observe remote msg s.observers).1
            (record s { observers = (handle_observe remote msg s.observers).0 }))
    | inr (value, blocks) ↦
        rw (blocks, serve, reply_block1_unsupported)
          (omega (arith, respond_with-Bounded key k con _ s))
  ]

  reply_to_duplicate_quiet :
      (msg : Message) (response : Option (List ℕ))
      → runs_of key (reply_to_duplicate msg response) ≡ 0
  unfolding reply_to_duplicate runs_of
  reply_to_duplicate_quiet msg (some bytes) = refl
  reply_to_duplicate_quiet msg none = runs_of-sent key _

  handle_con-Bounded :
      (service : Service) (dtls : Bool) (k : Exchange) (remote : Text) (msg : Message) (s : Server)
      → Bounded key 0 s (handle_con service dtls k remote msg s)
  unfolding handle_con recorded
  handle_con-Bounded service dtls k remote msg s = elim (Option-cases (lookup k s.seen)) [
    | inr (response, twice) ↦
        rw (twice, handle_con) (omega (arith, reply_to_duplicate_quiet msg response))
    | inl fresh ↦
        rw (fresh, handle_con)
          (ground (
            arith,
            serve-Bounded service dtls k remote msg true (record s { seen = insert k none s.seen }),
            lookup-insert k key none s.seen,
            exchange_eq.beq_iff k key,
            fresh,
            ap (λ t. lookup t s.seen),
          ))
  ]

  recorded-reset :
      (k : Exchange) (remote : Text) (s : Server) → recorded key (reset k remote s) ≡ recorded key s
  unfolding reset recorded
  recorded-reset k remote s = elim (Option-cases (lookup k s.pending)) [
    | inl none_there ↦ rw (none_there, reset) refl
    | inr (pn, there) ↦ rw (there, reset) (without_token pn pn.token)
  ]
    where
      without_token :
          (pn : PendingNotify) (token : List ℕ)
          → recorded key (elim token [
            | [] ↦ record s { pending = erase k s.pending }
            | b ∷ token ↦ record s {
              pending = erase k s.pending;
              observers = remove_by_token remote (b ∷ token) s.observers;
            }
          ])
            ≡ recorded key s
      without_token pn [] = refl
      without_token pn (b ∷ token) = refl

  handle_parsed-Bounded :
      (service : Service) (dtls : Bool) (remote : Text) (msg : Message) (s : Server)
      → Bounded key 0 s (handle_parsed service dtls remote msg s)
  unfolding handle_parsed
  handle_parsed-Bounded service dtls remote msg s =
      let k : Exchange = (remote, msg.message_id) in
      elim (Bool-cases (msg.type == type_ack)) [
        | inl is_ack ↦ rw (is_ack, handle_parsed) (unfold recorded runs_of in omega arith)
        | inr no_ack ↦ elim (Bool-cases (msg.type == type_rst)) [
          | inl is_rst ↦
              rw (no_ack, is_rst, handle_parsed)
                (unfold runs_of in omega (arith, recorded-reset k remote s))
          | inr no_rst ↦ elim (Bool-cases (msg.code == 0)) [
            | inl empty ↦ elim (Bool-cases (msg.type == 0)) [
              | inl ping ↦
                  rw (no_ack, no_rst, empty, ping, handle_parsed)
                    (omega (arith, runs_of-sent key _))
              | inr other ↦
                  rw (no_ack, no_rst, empty, other, handle_parsed) (unfold runs_of in omega arith)
            ]
            | inr full ↦ elim (Bool-cases (msg.type == 0)) [
              | inl is_con ↦
                  rw (no_ack, no_rst, full, is_con, handle_parsed)
                    (handle_con-Bounded service dtls k remote msg s)
              | inr no_con ↦
                  rw (no_ack, no_rst, full, no_con, handle_parsed)
                    (serve-Bounded service dtls k remote msg false s)
            ]
          ]
        ]
      ]

  handle_coap_message-Bounded :
      (service : Service) (dtls : Bool) (remote : Text) (datagram : List ℕ) (s : Server)
      → Bounded key 0 s (handle_coap_message service dtls remote datagram s)
  unfolding handle_coap_message
  handle_coap_message-Bounded service dtls remote datagram s =
      elim (Result-cases (parse datagram)) [
        | inl (e, bad) ↦ rw (bad, handle_coap_message) (unfold runs_of in omega arith)
        | inr (msg, good) ↦
            rw (good, handle_coap_message) (handle_parsed-Bounded service dtls remote msg s)
      ]

  recorded_once : (s : Server) → recorded key s ≤ 1
  unfolding recorded
  recorded_once s = elim (Option-cases (lookup key s.seen)) [
    | inl missing ↦ ground (arith, missing)
    | inr (r, there) ↦ ground (arith, there)
  ]

  handle_all-Bounded :
      (service : Service) (datagrams : List Datagram) (s : Server)
      → Bounded key 0 s (handle_all service datagrams s)
  unfolding handle_all runs_of
  handle_all-Bounded service [] s = omega arith
  handle_all-Bounded service ((dtls, remote, bytes) ∷ datagrams) s =
      let t = handle_coap_message service dtls remote bytes s in
      omega (
        arith,
        runs_of-append key t.1 (handle_all service datagrams t.0).1,
        handle_coap_message-Bounded service dtls remote bytes s,
        handle_all-Bounded service datagrams t.0,
      )

  pub handle_all_once :
      (service : Service) (datagrams : List Datagram) (s : Server)
      → runs_of key (handle_all service datagrams s).1 + recorded key s ≤ 1
  handle_all_once service datagrams s = omega (
    arith,
    handle_all-Bounded service datagrams s,
    recorded_once (handle_all service datagrams s).0,
  )
