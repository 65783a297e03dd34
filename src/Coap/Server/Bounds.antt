-- ===== src/Coap/Server/Bounds.antt =====
-- What a step runs and records, up to the answer of a request.
use shark_socket.Base.{
  ℕ, ◌+◌, ◌≤◌, ◌≡◌, refl, inl, inr, Bool, true, false, ◌&&◌, Option, none, some, List, [], ◌∷◌,
  ◌++◌, arith, ◌==◌, if◌then◌else◌, Result, ok, err, Bool-cases, Option-cases, Result-cases,
}
use shark_socket.Base.Maps.{lookup, lookup-insert, text_eq, nat_eq}
use shark_socket.Coap.Message.{Message, MessageError, marshal}
use shark_socket.Coap.Block.{BlockOption}
use shark_socket.Coap.Observe.{Text}
use shark_socket.Coap.Server.{
  Exchange, exchange_eq, Server, PluginAnswer, passes, drops, refuses, Handling, responder, handler,
  no_handler, Service, Effect, sends, runs, closes, Step, sent, respond_with, close_peer,
  send_dedup_response, apply_block2, notify_first, answer, after, run_handler, run_plugins, refuse,
}

module _ (key : Exchange) where
  -- How often the handler runs for the confirmable exchange.
  unfoldable pub runs_of : List Effect → ℕ
  runs_of [] = 0
  runs_of (runs k true payload ∷ effects) =
      let rest = runs_of effects in if exchange_eq.beq k key then rest + 1 else rest
  runs_of (runs k false payload ∷ effects) = runs_of effects
  runs_of (sends bytes ∷ effects) = runs_of effects
  runs_of (closes ∷ effects) = runs_of effects

  -- One where the exchange is in the table.
  unfoldable pub recorded : Server → ℕ
  recorded s = elim (lookup key s.seen) [ none ↦ 0 | some r ↦ 1 ]

  -- One where a confirmable request is of the exchange.
  abbrev pub own : Exchange → Bool → ℕ
  own k con = if con then (if exchange_eq.beq k key then 1 else 0) else 0

  pub runs_of-append : (a b : List Effect) → runs_of (a ++ b) ≡ runs_of a + runs_of b
  unfolding runs_of
  runs_of-append [] b = omega arith
  runs_of-append (runs k true payload ∷ a) b = ground (arith, runs_of-append a b)
  runs_of-append (runs k false payload ∷ a) b = runs_of-append a b
  runs_of-append (sends bytes ∷ a) b = runs_of-append a b
  runs_of-append (closes ∷ a) b = runs_of-append a b

  pub runs_of-sent : (r : Result MessageError (List ℕ)) → runs_of (sent r) ≡ 0
  unfolding runs_of sent
  runs_of-sent (ok bytes) = refl
  runs_of-sent (err e) = refl

  -- What a step runs and finds recorded is recorded after it, but for `n` runs.
  abbrev pub Bounded : ℕ → Server → Step → Type 0
  Bounded n s t = runs_of t.1 + recorded s ≤ n + recorded t.0

  pub respond_with-Bounded :
      (k : Exchange) (con : Bool) (resp : Message) (s : Server)
      → Bounded 0 s (respond_with k con resp s)
  unfolding respond_with runs_of recorded
  respond_with-Bounded k con resp s = elim (Result-cases (marshal resp)) [
    | inl (e, fails) ↦ ground (arith, fails)
    | inr (bytes, made) ↦ elim (Bool-cases con) [
      | inl yes_con ↦ ground (arith, made, yes_con, lookup-insert k key (some bytes) s.seen)
      | inr no_con ↦ ground (arith, made, no_con)
    ]
  ]

  send_dedup_response-Bounded :
      (k : Exchange) (remote : Text) (msg : Message) (code : ℕ) (payload : List ℕ)
      (con observe : Bool) (block : Option BlockOption) (s : Server)
      → Bounded 0 s (send_dedup_response k remote msg code payload con observe block s)
  unfolding send_dedup_response recorded
  send_dedup_response-Bounded k remote msg code payload con observe block s =
      respond_with-Bounded k con _ (record s { observers = _ })

  notify_first-Bounded :
      (remote : Text) (msg : Message) (body : List ℕ) (s : Server)
      → Bounded 0 s (notify_first remote msg body s)
  unfolding notify_first recorded
  notify_first-Bounded remote msg body s = omega (arith, runs_of-sent _)

  answer-Bounded :
      (max_size : ℕ) (k : Exchange) (remote : Text) (msg : Message) (con registered : Bool)
      (body : List ℕ) (s : Server)
      → Bounded 0 s (answer max_size k remote msg con registered body s)
  unfolding answer runs_of
  answer-Bounded max_size k remote msg true registered body s =
      elim (Option-cases (apply_block2 max_size msg body)) [
        | inl bad ↦
            rw (bad, answer) (send_dedup_response-Bounded k remote msg 130 [] true true none s)
        | inr (part, fine) ↦
            rw (fine, answer) (send_dedup_response-Bounded k remote msg _ part.0 true true part.1 s)
      ]
  answer-Bounded max_size k remote msg false registered body s =
      elim (Bool-cases (msg.type == 1 && registered)) [
        | inl first ↦ rw (first, answer) (notify_first-Bounded remote msg body s)
        | inr silent ↦ rw (silent, answer) (omega arith)
      ]

  -- The effects before a step add their runs.
  after-Bounded :
      (n : ℕ) (effects : List Effect) (s s' : Server) (t : Step)
      → runs_of effects ≤ n
      → recorded s' ≡ recorded s
      → Bounded 0 s' t
      → Bounded n s (after effects t)
  unfolding after
  after-Bounded n effects s s' t few same b = omega (arith, runs_of-append effects t.1)

  first_run :
      (k : Exchange) (con : Bool) (payload : List ℕ) (effects : List Effect)
      → runs_of effects ≡ 0
      → runs_of (runs k con payload ∷ effects) ≤ own k con
  unfolding runs_of
  first_run k true payload effects h = ground (arith, h)
  first_run k false payload effects h = ground (arith, h)

  recorded-close_peer :
      (dtls : Bool) (remote : Text) (s : Server) → recorded (close_peer dtls remote s) ≡ recorded s
  unfolding close_peer recorded
  recorded-close_peer true remote s = refl
  recorded-close_peer false remote s = refl

  run_handler-Bounded :
      (h : Handling) (max_size : ℕ) (dtls : Bool) (k : Exchange) (remote : Text) (msg : Message)
      (con registered : Bool) (payload : List ℕ) (s : Server)
      → Bounded (own k con) s (run_handler h max_size dtls k remote msg con registered payload s)
  unfolding run_handler
  run_handler-Bounded no_handler max_size dtls k remote msg con registered payload s =
      omega (arith, answer-Bounded max_size k remote msg con registered [] s)
  run_handler-Bounded (responder f) max_size dtls k remote msg con registered payload s =
      elim (Option-cases (f payload)) [
        | inl failed ↦
            rw (failed, run_handler)
              (omega (
                arith,
                recorded-close_peer dtls remote s,
                first_run k con payload (closes ∷ []) (unfold runs_of in refl),
              ))
        | inr (body, made) ↦
            rw (made, run_handler)
              (after-Bounded (own k con) (runs k con payload ∷ []) s s
                (answer max_size k remote msg con registered body s)
                (first_run k con payload [] (unfold runs_of in refl)) refl
                (answer-Bounded max_size k remote msg con registered body s))
      ]
  run_handler-Bounded (handler f) max_size dtls k remote msg con registered payload s =
      elim (Bool-cases (f payload)) [
        | inl fine ↦
            rw (fine, run_handler)
              (after-Bounded (own k con) (runs k con payload ∷ []) s s
                (answer max_size k remote msg con registered [] s)
                (first_run k con payload [] (unfold runs_of in refl)) refl
                (answer-Bounded max_size k remote msg con registered [] s))
        | inr failed ↦
            rw (failed, run_handler)
              (after-Bounded (own k con) (runs k con payload ∷ closes ∷ []) s
                (close_peer dtls remote s)
                (answer max_size k remote msg con registered [] (close_peer dtls remote s))
                (first_run k con payload (closes ∷ []) (unfold runs_of in refl))
                (recorded-close_peer dtls remote s)
                (answer-Bounded max_size k remote msg con registered [] (close_peer dtls remote s)))
      ]

  refuse-Bounded :
      (k : Exchange) (remote : Text) (msg : Message) (con : Bool) (s : Server)
      → Bounded 0 s (refuse k remote msg con s)
  unfolding refuse runs_of
  refuse-Bounded k remote msg true s =
      send_dedup_response-Bounded k remote msg 160 [] true false none s
  refuse-Bounded k remote msg false s = omega arith

  pub run_plugins-Bounded :
      (a : PluginAnswer) (service : Service) (dtls : Bool) (k : Exchange) (remote : Text)
      (msg : Message) (con registered : Bool) (s : Server)
      → Bounded (own k con) s (run_plugins a service dtls k remote msg con registered s)
  unfolding run_plugins
  run_plugins-Bounded (passes payload) service dtls k remote msg con registered s =
      run_handler-Bounded service.handling service.max_block_size dtls k remote msg con registered
        payload s
  run_plugins-Bounded drops service dtls k remote msg con registered s =
      omega (arith, refuse-Bounded k remote msg con s)
  run_plugins-Bounded refuses service dtls k remote msg con registered s =
      after-Bounded (own k con) (closes ∷ []) s (close_peer dtls remote s)
        (refuse k remote msg con (close_peer dtls remote s)) (unfold runs_of in omega arith)
        (recorded-close_peer dtls remote s)
        (refuse-Bounded k remote msg con (close_peer dtls remote s))
