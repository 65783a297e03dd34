-- ===== src/Coap/Observe/Calls.antt =====
-- The registry over any sequence of calls.
use shark_socket.Base.{◌≡◌, refl, inl, inr, true, List, [], ◌∷◌, arith, All, Option-cases}
use shark_socket.Base.Maps.{lookup, text_eq}
use shark_socket.Coap.Observe.{
  Text, Subs, ObserverRegistry, empty_registry, observer_key, register, remove, remove_each,
  remove_by_token, remove_by_session,
}
use shark_socket.Coap.Observe.Counted.{plain, Inv, empty-Inv, count_of-erase}
use shark_socket.Coap.Observe.Removal.{uncount-count_of, remove-Counted}
use shark_socket.Coap.Observe.Leaving.{remove_by_session-Counted}
use shark_socket.Coap.Observe.Registering.{register-Inv}

pub remove-Inv :
    (resource remote token : Text) (r : ObserverRegistry)
    → plain remote ≡ true
    → Inv r
    → Inv (remove resource remote token r)
unfolding remove
remove-Inv resource remote token r p v = record {
  counted = remove-Counted resource remote token r p v.counted;
  total_capped = ground (arith, v.total_capped);
  remote_capped = λ k.
      ground
        (arith, uncount-count_of remote k r (remove resource remote token r), v.remote_capped k);
}

remove_each-Inv :
    (rest : List (Text × Subs)) (remote token : Text) (r : ObserverRegistry)
    → plain remote ≡ true
    → Inv r
    → Inv (remove_each rest remote token r)
unfolding remove_each
remove_each-Inv [] remote token r p v = v
remove_each-Inv ((resource, m) ∷ rest) remote token r p v =
    elim (Option-cases (lookup (observer_key remote token) m)) [
      | inl missing ↦ rw (missing, remove_each) (remove_each-Inv rest remote token r p v)
      | inr (o, found) ↦
          rw (found, remove_each)
            (remove_each-Inv rest remote token _ p (remove-Inv resource remote token r p v))
    ]

remove_by_session-Inv :
    (remote : Text) (r : ObserverRegistry) → Inv r → Inv (remove_by_session remote r)
unfolding remove_by_session
remove_by_session-Inv remote r v = record {
  counted = remove_by_session-Counted remote r v.counted;
  total_capped = omega (arith, v.total_capped);
  remote_capped = λ k.
      ground
        (arith, count_of-erase remote k r (remove_by_session remote r) refl, v.remote_capped k);
}

-- The calls that change the registry.
pub data ObserveCall : Type 0 where
  registers removes : Text → Text → Text → ObserveCall
  rejects : Text → Text → ObserveCall
  leaves : Text → ObserveCall

unfoldable pub after_call : ObserveCall → ObserverRegistry → ObserverRegistry
after_call (registers resource remote token) r = (register resource remote token r).0
after_call (removes resource remote token) r = remove resource remote token r
after_call (rejects remote token) r = remove_by_token remote token r
after_call (leaves remote) r = remove_by_session remote r

unfoldable pub after_calls : List ObserveCall → ObserverRegistry → ObserverRegistry
after_calls [] r = r
after_calls (c ∷ cs) r = after_calls cs (after_call c r)

unfoldable pub caller : ObserveCall → Text
caller (registers resource remote token) = remote
caller (removes resource remote token) = remote
caller (rejects remote token) = remote
caller (leaves remote) = remote

after_call-Inv :
    (c : ObserveCall) (r : ObserverRegistry)
    → plain (caller c) ≡ true
    → Inv r
    → Inv (after_call c r)
unfolding after_call caller remove_by_token
after_call-Inv (registers resource remote token) r p v = register-Inv resource remote token r p v
after_call-Inv (removes resource remote token) r p v = remove-Inv resource remote token r p v
after_call-Inv (rejects remote token) r p v = remove_each-Inv r.subs remote token r p v
after_call-Inv (leaves remote) r p v = remove_by_session-Inv remote r v

after_calls_run :
    (cs : List ObserveCall) (r : ObserverRegistry)
    → All (λ c. plain (caller c) ≡ true) cs
    → Inv r
    → Inv (after_calls cs r)
unfolding after_calls
after_calls_run [] r ps v = v
after_calls_run (c ∷ cs) r (p, ps) v = after_calls_run cs _ ps (after_call-Inv c r p v)

pub after_calls-Inv :
    (cs : List ObserveCall)
    → All (λ c. plain (caller c) ≡ true) cs
    → Inv (after_calls cs empty_registry)
after_calls-Inv cs ps = after_calls_run cs empty_registry ps empty-Inv
