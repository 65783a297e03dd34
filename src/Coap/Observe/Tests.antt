-- ===== src/Coap/Observe/Tests.antt =====
-- Runs of the registry on small inputs.
use shark_socket.Base.{
  ℕ, zero, suc, map, ◌≡◌, ◌≤◌, ◌↔◌, ◌⊎◌, refl, none, some, List, [], ◌∷◌, arith, true, All, length,
  ◌+◌,
}
use shark_socket.Base.Maps.{lookup, text_eq}
use shark_socket.Coap.Observe.{
  Text, Observer, ObserverRegistry, empty_registry, register, remove, notify, count_of, subs_of,
  find_remote, max_observers_per_remote, max_observers_total,
}
use shark_socket.Coap.Observe.Counted.{Inv, plain}
use shark_socket.Coap.Observe.Calls.{
  ObserveCall, registers, removes, rejects, leaves, after_calls, after_calls-Inv, caller,
}
use shark_socket.Coap.Observe.Answers.{register_refuses, register-Holds, Holds}
use shark_socket.Coap.Observe.Growth.{asks, length-asks}

-- "a:1", "b:2", "temp" and "lamp".
abbrev remote_a : Text
remote_a = b'a' ∷ b':' ∷ b'1' ∷ []

abbrev remote_b : Text
remote_b = b'b' ∷ b':' ∷ b'2' ∷ []

abbrev temp : Text
temp = b't' ∷ b'e' ∷ b'm' ∷ b'p' ∷ []

abbrev lamp : Text
lamp = b'l' ∷ b'a' ∷ b'm' ∷ b'p' ∷ []

-- A rotates its token, B subscribes twice, one of them is rejected.
abbrev some_calls : List ObserveCall
some_calls =
    registers temp remote_a (1 ∷ [])
    ∷ registers temp remote_a (2 ∷ [])
    ∷ registers temp remote_b (1 ∷ [])
    ∷ registers lamp remote_b (3 ∷ [])
    ∷ rejects remote_b (3 ∷ [])
    ∷ []

abbrev sample : ObserverRegistry
sample = after_calls some_calls empty_registry

sample_counts : (sample.total ≡ 2) × (count_of remote_a sample ≡ 1) × (count_of remote_b sample ≡ 1)
unfolding notify subs_of count_of after_calls shark_socket.Coap.Observe.Calls.after_call
    shark_socket.Coap.Observe.remove_by_token register lookup shark_socket.Base.Maps.insert
    shark_socket.Base.Maps.text_beq shark_socket.Base.Maps.erase
sample_counts = (refl, refl, refl)

sample_token :
    notify temp sample
    ≡ record { token = 2 ∷ []; remote = remote_a; resource = temp; seq = 0 }
      ∷ record { token = 1 ∷ []; remote = remote_b; resource = temp; seq = 0 }
      ∷ []
unfolding notify subs_of count_of after_calls shark_socket.Coap.Observe.Calls.after_call
    shark_socket.Coap.Observe.remove_by_token register lookup shark_socket.Base.Maps.insert
    shark_socket.Base.Maps.text_beq shark_socket.Base.Maps.erase
sample_token = refl

some_plain : All (λ c. plain (caller c) ≡ true) some_calls
unfolding plain caller
some_plain = (refl, (refl, (refl, (refl, (refl, tt)))))

after_calls-Inv_example : Inv sample
after_calls-Inv_example = after_calls-Inv some_calls some_plain

register_refuses_example : ((register lamp remote_a (7 ∷ []) sample).1 ≡ none) ↔ (
    (find_remote remote_a (subs_of lamp sample) ≡ none)
    × ((max_observers_per_remote ≤ count_of remote_a sample)
        ⊎ (max_observers_total ≤ sample.total)))
unfolding plain register count_of lookup after_calls
register_refuses_example =
    register_refuses lamp remote_a (7 ∷ []) sample refl
      (after_calls-Inv some_calls some_plain).counted

abbrev rotated : Observer
rotated = record { token = 9 ∷ []; remote = remote_a; resource = temp; seq = 0 }

register-Holds_example :
    Holds temp remote_a (9 ∷ []) rotated (register temp remote_a (9 ∷ []) sample).0
unfolding plain register count_of lookup after_calls shark_socket.Coap.Observe.Calls.after_call
    shark_socket.Coap.Observe.remove_by_token shark_socket.Base.Maps.insert
    shark_socket.Base.Maps.text_beq shark_socket.Base.Maps.erase
register-Holds_example =
    register-Holds temp remote_a (9 ∷ []) sample rotated refl
      (after_calls-Inv some_calls some_plain).counted refl

-- 64 resources, each observed by the first remote.
abbrev pages : ℕ → List Text
pages zero = []
pages (suc n) = (n ∷ []) ∷ pages n

abbrev full_registry : ObserverRegistry
full_registry = after_calls (map (λ name. registers name remote_a []) (pages 64)) empty_registry

full_count : count_of remote_a full_registry ≡ 64
unfolding register count_of lookup after_calls shark_socket.Coap.Observe.Calls.after_call
    shark_socket.Base.Maps.insert shark_socket.Base.Maps.text_beq shark_socket.Base.Maps.erase
full_count = refl

absent : All (λ name. lookup name full_registry.subs ≡ none) (temp ∷ lamp ∷ [])
unfolding register count_of lookup after_calls shark_socket.Coap.Observe.Calls.after_call
    shark_socket.Base.Maps.insert shark_socket.Base.Maps.text_beq shark_socket.Base.Maps.erase
absent = (refl, (refl, tt))

length-asks_example :
    let (answers, after) = asks remote_a [] (temp ∷ lamp ∷ []) full_registry in
    (answers ≡ none ∷ none ∷ [])
    × (length after.subs ≡ length full_registry.subs + 2)
    × (after.remote_count ≡ full_registry.remote_count)
    × (after.total ≡ full_registry.total)
unfolding shark_socket.Base.Maps.text_beq
length-asks_example =
    length-asks remote_a [] (temp ∷ lamp ∷ []) full_registry ((refl, tt), (tt, tt)) absent
      (omega (arith, full_count))
