-- ===== src/Coap/Server.antt =====
-- The handling of a datagram: internal/transport/coap/server.go. The tables of the server are a
-- record, what it does to the outside is a list of effects. The plugins, the handler and the block
-- size are a record of the user's; a failed write is only logged, so it does not show. A nil slice is
-- the empty one.
pub mod Bounds
pub mod Once
pub mod Sequence
pub mod Fetch
mod Tests
use shark_socket.Base.{
  ℕ, ◌+◌, ◌-◌, ◌*◌, ◌/◌, ◌%◌, ◌^◌, ◌≡◌, ◌↔◌, refl, ap, Bool, true, false, ◌&&◌, Option, none, some,
  List, [], ◌∷◌, ◌++◌, arith, ltb, leb, ◌==◌, if◌then◌else◌, length, get_or, Result, ok, err,
}
use shark_socket.Base.Maps.{Eq, lookup, insert, erase, nat_eq, text_eq}
use shark_socket.Coap.Message.{
  Message, MessageError, Options, parse, marshal, ack, type_ack, type_rst,
}
use shark_socket.Coap.Block.{BlockOption, marshal_block, negotiate_block2, block_for}
use shark_socket.Coap.Retransmit.{PendingNotify, track}
use shark_socket.Coap.Observe.{
  Text, Observer, ObserverRegistry, observer_key, subs_of, next_seq, register, remove,
  remove_by_token, remove_by_session,
}

-- A remote address and a message id.
abbrev pub Exchange : Type 0
Exchange = Text × ℕ

pub exchange_beq : Exchange → Exchange → Bool
exchange_beq a b = text_eq.beq a.0 b.0 && a.1 == b.1

pub exchange_beq_iff : (a b : Exchange) → (exchange_beq a b ≡ true) ↔ (a ≡ b)
unfolding exchange_beq
exchange_beq_iff (s, i) (t, j) = ground (arith, text_eq.beq_iff s t)

instance abbrev pub exchange_eq : Eq Exchange
exchange_eq = record { beq = exchange_beq; beq_iff = exchange_beq_iff }

-- `pending` has each notification that waits for its ACK; `seen` the response of each
-- confirmable exchange, where there is one yet.
pub record Server : Type 0 where
  pub observers : ObserverRegistry
  pub pending : List (Exchange × PendingNotify)
  pub seen : List (Exchange × Option (List ℕ))

pub data PluginAnswer : Type 0 where
  passes : List ℕ → PluginAnswer
  drops refuses : PluginAnswer  -- core.ErrPluginDrop, and any other error

-- A Responder may fail, and so may a Handler.
pub data Handling : Type 0 where
  responder : (List ℕ → Option (List ℕ)) → Handling
  handler : (List ℕ → Bool) → Handling
  no_handler : Handling

pub record Service : Type 0 where
  pub on_message : List ℕ → PluginAnswer
  pub handling : Handling
  pub max_block_size : ℕ

pub data Effect : Type 0 where
  sends : List ℕ → Effect
  -- The handler runs on the payload, for a confirmable request or not.
  runs : Exchange → Bool → List ℕ → Effect
  closes : Effect

abbrev pub Step : Type 0
Step = Server × List Effect

pub encode_observe_seq : ℕ → List ℕ
encode_observe_seq seq =
    if seq == 0
    then 0 ∷ []
    else if leb seq 0xFF
    then seq % 256 ∷ []
    else if leb seq 0xFFFF
    then (seq / 256 % 256) ∷ (seq % 256) ∷ []
    else (seq / 65536 % 256) ∷ (seq / 256 % 256) ∷ (seq % 256) ∷ []

pub response_code : ℕ → ℕ
response_code code =
    if code == 2 then 65 else if code == 3 then 68 else if code == 4 then 66 else 69

-- `!= nil`
is_some : Option Observer → Bool
is_some none = false
is_some (some o) = true

-- Whether a new observer is registered.
pub handle_observe : Text → Message → ObserverRegistry → ObserverRegistry × Bool
unfolding is_some
handle_observe remote msg r =
    let option = lookup 6 msg.options in
    if msg.code == 1
    then elim option [
      | none ↦ (r, false)
      | some value ↦
          if get_or value 0 0 == 0
          then (
            (register msg.payload remote msg.token r).0,
            is_some (register msg.payload remote msg.token r).1,
          )
          else if get_or value 0 0 == 1
          then (remove msg.payload remote msg.token r, false)
          else (r, false)
    ]
    else (r, false)

-- The next number of the request's observer, which keeps the one after it.
pub observer_seq : Text → Message → ObserverRegistry → ObserverRegistry × Option ℕ
observer_seq remote msg r =
    let key = observer_key remote msg.token in
    if msg.code == 1
    then elim (lookup key (subs_of msg.payload r)) [
      | none ↦ (r, none)
      | some o ↦
          let (seq, o') = next_seq o in
          (
            record r { subs = insert msg.payload (insert key o' (subs_of msg.payload r)) r.subs },
            some seq,
          )
    ]
    else (r, none)

pub sent : Result MessageError (List ℕ) → List Effect
sent (ok bytes) = sends bytes ∷ []
sent (err e) = []

-- `dedup.setResponse` and the write; nothing is written where Marshal fails.
pub respond_with : Exchange → Bool → Message → Server → Step
unfolding sent
respond_with key con resp s = elim (marshal resp) [
  | err e ↦ (s, [])
  | ok bytes ↦
      (if con then record s { seen = insert key (some bytes) s.seen } else s, sends bytes ∷ [])
]

pub reply_block1_unsupported : Exchange → Bool → Message → Server → Step
unfolding respond_with
reply_block1_unsupported key con msg s =
    let hint : BlockOption = record { num = 0; more = false; size_exp = 0 } in
    respond_with key con (record (ack msg 141 []) { options = (27, marshal_block hint) ∷ [] }) s

pub reply_to_duplicate : Message → Option (List ℕ) → List Effect
unfolding sent
reply_to_duplicate msg (some bytes) = sends bytes ∷ []
reply_to_duplicate msg none = sent (
    marshal record {
      type = type_ack;
      code = 0;
      message_id = msg.message_id;
      token = [];
      options = [];
      payload = [];
    })

-- `closeSession`, or the close of the DTLS connection, whose own handler does the rest.
pub close_peer : Bool → Text → Server → Server
close_peer dtls remote s =
    if dtls then s else record s { observers = remove_by_session remote s.observers }

-- The answer of a confirmable request: the sequence number of its observer where `observe` holds,
-- and the Block2 option.
pub send_dedup_response :
    Exchange → Text → Message → ℕ → List ℕ → Bool → Bool → Option BlockOption → Server → Step
unfolding observer_seq encode_observe_seq respond_with
send_dedup_response key remote msg code payload con observe block s =
    let resp = ack msg code payload in
    let (observers, seq) =
      if observe then observer_seq remote msg s.observers else (s.observers, none) in
    let with_seq : Options = elim seq [
      | none ↦ resp.options
      | some n ↦ insert 6 (encode_observe_seq n) resp.options
    ] in
    let with_block : Options = elim block [
      | none ↦ with_seq
      | some b ↦ insert 23 (marshal_block b) with_seq
    ] in
    respond_with key con (record resp { options = with_block }) (record s { observers = observers })

-- The slice of the body that the request asks for; `none` is a bad option.
pub apply_block2 : ℕ → Message → List ℕ → Option (List ℕ × Option BlockOption)
apply_block2 max_size msg body =
    if max_size == 0 then some (body, none) else elim (negotiate_block2 msg.options max_size) [
      | err e ↦ none
      | ok request ↦ block_for body request
    ]

-- The first notification of a request that needs no ACK.
pub notify_first : Text → Message → List ℕ → Server → Step
unfolding observer_seq encode_observe_seq sent
notify_first remote msg body s =
    let (observers, seq) = observer_seq remote msg s.observers in
    let n : ℕ = elim seq [ none ↦ 0 | some n ↦ n ] in
    (
      record s { observers = observers },
      sent (
          marshal record {
            type = 1;
            code = 69;
            message_id = msg.message_id;
            token = msg.token;
            options = (6, encode_observe_seq n) ∷ [];
            payload = body;
          }),
    )

-- What follows the handler.
pub answer : ℕ → Exchange → Text → Message → Bool → Bool → List ℕ → Server → Step
unfolding send_dedup_response apply_block2 notify_first response_code
answer max_size key remote msg con registered body s =
    if con
    then elim (apply_block2 max_size msg body) [
      | none ↦ send_dedup_response key remote msg 130 [] con true none s
      | some (part, block) ↦
          send_dedup_response key remote msg (response_code msg.code) part con true block s
    ]
    else if msg.type == 1 && registered
    then notify_first remote msg body s
    else (s, [])

-- An effect before those of a step.
pub after : List Effect → Step → Step
after effects (s, more) = (s, effects ++ more)

-- The handler, and what follows it.
pub run_handler :
    Handling → ℕ → Bool → Exchange → Text → Message → Bool → Bool → List ℕ → Server → Step
unfolding answer after close_peer
run_handler no_handler max_size dtls key remote msg con registered payload s =
    answer max_size key remote msg con registered [] s
run_handler (responder f) max_size dtls key remote msg con registered payload s = elim (f payload) [
  | none ↦ (close_peer dtls remote s, runs key con payload ∷ closes ∷ [])
  | some body ↦
      after (runs key con payload ∷ []) (answer max_size key remote msg con registered body s)
]
run_handler (handler f) max_size dtls key remote msg con registered payload s =
    if f payload
    then after (runs key con payload ∷ []) (answer max_size key remote msg con registered [] s)
    else after (runs key con payload ∷ closes ∷ [])
        (answer max_size key remote msg con registered [] (close_peer dtls remote s))

-- The answer of a confirmable request that the plugins do not let through.
pub refuse : Exchange → Text → Message → Bool → Server → Step
unfolding send_dedup_response
refuse key remote msg con s =
    if con then send_dedup_response key remote msg 160 [] con false none s else (s, [])

-- The plugins' answer, and what follows it.
pub run_plugins :
    PluginAnswer → Service → Bool → Exchange → Text → Message → Bool → Bool → Server → Step
unfolding run_handler refuse after close_peer
run_plugins (passes payload) service dtls key remote msg con registered s =
    run_handler service.handling service.max_block_size dtls key remote msg con registered payload s
run_plugins drops service dtls key remote msg con registered s = refuse key remote msg con s
run_plugins refuses service dtls key remote msg con registered s =
    after (closes ∷ []) (refuse key remote msg con (close_peer dtls remote s))

-- A request that is no duplicate.
pub serve : Service → Bool → Exchange → Text → Message → Bool → Server → Step
unfolding handle_observe reply_block1_unsupported run_plugins
serve service dtls key remote msg con s =
    let (observers, registered) = handle_observe remote msg s.observers in
    let block1 = lookup 27 msg.options in
    elim block1 [
      | some value ↦ reply_block1_unsupported key con msg s
      | none ↦
          run_plugins (service.on_message msg.payload) service dtls key remote msg con registered
            (record s { observers = observers })
    ]

-- `takePendingNotify`, and the relation that goes with its token.
pub reset : Exchange → Text → Server → Server
reset key remote s = elim (lookup key s.pending) [
  | none ↦ s
  | some pn ↦ elim pn.token [
    | [] ↦ record s { pending = erase key s.pending }
    | b ∷ token ↦ record s {
      pending = erase key s.pending;
      observers = remove_by_token remote (b ∷ token) s.observers;
    }
  ]
]

-- Confirmable requests go through the table of exchanges.
pub handle_con : Service → Bool → Exchange → Text → Message → Server → Step
unfolding serve reply_to_duplicate
handle_con service dtls key remote msg s = elim (lookup key s.seen) [
  | some response ↦ (s, reply_to_duplicate msg response)
  | none ↦ serve service dtls key remote msg true (record s { seen = insert key none s.seen })
]

pub handle_parsed : Service → Bool → Text → Message → Server → Step
unfolding handle_con serve reset sent
handle_parsed service dtls remote msg s =
    let key : Exchange = (remote, msg.message_id) in
    if msg.type == type_ack
    then (record s { pending = erase key s.pending }, [])
    else if msg.type == type_rst
    then (reset key remote s, [])
    else if msg.code == 0
    then (
      s,
      (if msg.type == 0
          then sent (
              marshal record {
                type = type_rst;
                code = 0;
                message_id = msg.message_id;
                token = [];
                options = [];
                payload = [];
              })
          else []),
    )
    else if msg.type == 0
    then handle_con service dtls key remote msg s
    else serve service dtls key remote msg false s

pub handle_coap_message : Service → Bool → Text → List ℕ → Server → Step
unfolding handle_parsed
handle_coap_message service dtls remote datagram s = elim (parse datagram) [
  | err e ↦ (s, [])
  | ok msg ↦ handle_parsed service dtls remote msg s
]
