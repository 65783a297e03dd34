-- ===== src/Runtime/Chain/Rollback.antt =====
-- What the chain does when a plugin fails.
use shark_socket.Base.{
  ◌≡◌, refl, sym, ap, ◌∙◌, inl, inr, true, none, some, List, [], ◌∷◌, ◌++◌, map, append_assoc,
  append-nil, arith, if◌then◌else◌, Bool-cases, All, ok, err,
}
use shark_socket.Runtime.Sessions.{CallEnd, returns}
use shark_socket.Runtime.Chain.{
  Plugin, Call, starts, stops, accepts, closes, safe_call, stop_each, start_loop, start_all,
  stop_loop, accept_loop, on_accept, on_close, on_message, MessageEnd, passes, refuses, breaks,
}

module _ {E : Type 0} (plugin_panic : E) where
  module _ (accept : Plugin → CallEnd E) where
    accept_loop-refused :
        (before after accepted : List Plugin) (p : Plugin) (e : E)
        → All (λ q. accept q ≡ returns) before
        → safe_call plugin_panic (accept p) ≡ some e
        → accept_loop plugin_panic accept accepted (before ++ p ∷ after)
          ≡ (map accepts before ++ accepts p ∷ (on_close before ++ map closes accepted), some e)
    unfolding accept_loop on_close safe_call
    accept_loop-refused [] after accepted p e a h = ground (arith, h)
    accept_loop-refused (q ∷ before) after accepted p e (ok_, a) h =
        rw (ok_, accept_loop)
          (ap (λ r. (accepts q ∷ r.0, r.1))
              (accept_loop-refused before after (q ∷ accepted) p e a h)
            ∙ ap (λ cs. (accepts q ∷ (map accepts before ++ accepts p ∷ cs), some e))
                (sym (append_assoc (on_close before) (closes q ∷ []) (map closes accepted))))

    -- Where a plugin refuses a session or panics, the plugins before it are told that the session
    -- closes, as `OnClose` would tell them, the plugins behind it see nothing, and the error is
    -- returned, for a panic ErrPluginPanic.
    pub on_accept-refused :
        (before after : List Plugin) (p : Plugin) (e : E)
        → All (λ q. accept q ≡ returns) before
        → safe_call plugin_panic (accept p) ≡ some e
        → on_accept plugin_panic accept (before ++ p ∷ after)
          ≡ (map accepts before ++ accepts p ∷ on_close before, some e)
    unfolding on_accept
    on_accept-refused before after p e a h =
        accept_loop-refused before after [] p e a h
        ∙ ap (λ cs. (map accepts before ++ accepts p ∷ cs, some e)) (append-nil (on_close before))

  module _ (start stop : Plugin → CallEnd E) where
    -- The calls of `Start` on the plugins that have one.
    pub start_calls : List Plugin → List Call
    start_calls [] = []
    start_calls (p ∷ plugins) =
        let rest = start_calls plugins in if p.lifecycle then starts p ∷ rest else rest

    abbrev pub Starts : Plugin → Type 0
    Starts p = p.lifecycle ≡ true → safe_call plugin_panic (start p) ≡ none

    -- The rollback goes on with the plugins that started before.
    stop_each-append :
        (xs ys : List Plugin) (errors : List E)
        → stop_each plugin_panic stop (xs ++ ys) errors ≡ (
          (stop_each plugin_panic stop xs errors).0
              ++ (stop_each plugin_panic stop ys (stop_each plugin_panic stop xs errors).1).0,
          (stop_each plugin_panic stop ys (stop_each plugin_panic stop xs errors).1).1,
        )
    unfolding stop_each
    stop_each-append [] ys errors = refl
    stop_each-append (x ∷ xs) ys errors = ap (λ r. (stops x ∷ r.0, r.1)) (stop_each-append xs ys _)

    -- The lifecycle plugins, the last one first.
    backwards : List Plugin → List Plugin
    backwards [] = []
    backwards (p ∷ plugins) =
        let rest = backwards plugins in if p.lifecycle then rest ++ p ∷ [] else rest

    stop_loop-backwards :
        (plugins : List Plugin)
        → stop_loop plugin_panic stop plugins ≡ stop_each plugin_panic stop (backwards plugins) []
    unfolding stop_loop backwards stop_each
    stop_loop-backwards [] = unfold stop_each in refl
    stop_loop-backwards (p ∷ plugins) = elim (Bool-cases p.lifecycle) [
      | inl yes_ ↦ ground (
        arith,
        yes_,
        stop_each-append (backwards plugins) (p ∷ []) [],
        stop_loop-backwards plugins,
      )
      | inr no_ ↦ ground (arith, no_, stop_loop-backwards plugins)
    ]

    start_loop-fails :
        (before after started : List Plugin) (p : Plugin) (e : E)
        → All Starts before
        → p.lifecycle ≡ true
        → safe_call plugin_panic (start p) ≡ some e
        → start_loop plugin_panic start stop started (before ++ p ∷ after) ≡ (
          start_calls before
              ++ starts p ∷ (stop_each plugin_panic stop (backwards before ++ started) []).0,
          e ∷ (stop_each plugin_panic stop (backwards before ++ started) []).1,
        )
    unfolding start_loop start_calls backwards
    start_loop-fails [] after started p e a l h = ground (arith, l, h)
    start_loop-fails (q ∷ before) after started p e (ok_, a) l h = elim (Bool-cases q.lifecycle) [
      | inl yes_ ↦ ground (
        arith,
        yes_,
        ok_ yes_,
        start_loop-fails before after (q ∷ started) p e a l h,
        append_assoc (backwards before) (q ∷ []) started,
      )
      | inr no_ ↦ ground (arith, no_, start_loop-fails before after started p e a l h)
    ]

    -- Where a plugin fails to start, or panics, `StartAll` stops the lifecycle plugins that it has
    -- started, the last one first, as `StopAll` would; it starts no further plugin; and the errors
    -- of the stops are joined behind the error of the start.
    pub start_all-fails :
        (before after : List Plugin) (p : Plugin) (e : E)
        → All Starts before
        → p.lifecycle ≡ true
        → safe_call plugin_panic (start p) ≡ some e
        → start_all plugin_panic start stop (before ++ p ∷ after) ≡ (
          start_calls before ++ starts p ∷ (stop_loop plugin_panic stop before).0,
          e ∷ (stop_loop plugin_panic stop before).1,
        )
    unfolding start_all
    start_all-fails before after p e a l h = rw (stop_loop-backwards before) (
        start_loop-fails before after [] p e a l h
        ∙ ap
            (λ s. (
              start_calls before ++ starts p ∷ (stop_each plugin_panic stop s []).0,
              e ∷ (stop_each plugin_panic stop s []).1,
            ))
            (append-nil (backwards before)))

  module _ {D : Type 0} (handle : Plugin → D → MessageEnd plugin_panic D) where
    -- The chain of both parts does what the first part does, and what the second makes of its data.
    abbrev pub InTurn : List Plugin → List Plugin → D → Type 0
    InTurn first second data_ =
        on_message plugin_panic handle (first ++ second) data_
        ≡ elim ((on_message plugin_panic handle first data_).1) [
          | ok out ↦ (
            (on_message plugin_panic handle first data_).0
                ++ (on_message plugin_panic handle second out).0,
            (on_message plugin_panic handle second out).1,
          )
          | err e ↦ ((on_message plugin_panic handle first data_).0, err e)
        ]

    on_message-cons :
        (p : Plugin) (first second : List Plugin) (data_ : D) (r : MessageEnd plugin_panic D)
        → handle p data_ ≡ r
        → ((out : D) → InTurn first second out)
        → InTurn (p ∷ first) second data_
    unfolding on_message
    on_message-cons p first second data_ (passes out) e next = ground (arith, e, next out)
    on_message-cons p first second data_ (refuses x) e next = ground (arith, e)
    on_message-cons p first second data_ breaks e next = ground (arith, e)

    -- A chain of two parts handles a message as the first part does, and then the second with the
    -- data of the first; where the first part ends with an error or a panic, no plugin of the second
    -- sees the message.
    pub on_message-append : (first second : List Plugin) (data_ : D) → InTurn first second data_
    unfolding on_message
    on_message-append [] second data_ = refl
    on_message-append (p ∷ first) second data_ =
        on_message-cons p first second data_ (handle p data_) refl
          λ out. on_message-append first second out
