-- ===== src/Infra/Cache/Tests.antt =====
-- A value that is set for ten ticks, swept at the fifth, and read at the eighth.
use shark_socket.Base.{ℕ, ◌≡◌, refl, List, some, [], ◌∷◌, pos, arith}
use shark_socket.Base.Maps.{lookup, insert}
use shark_socket.Infra.Cache.{get, set, sweep, is_expired}
use shark_socket.Infra.Cache.Expiry.{CacheCall, sets, sweeps, after_calls, unswept, get-after_calls}

abbrev some_calls : List CacheCall
some_calls = sets 1 (65 ∷ []) (7 ∷ []) (pos 10) ∷ sets 2 (66 ∷ []) (8 ∷ []) (pos 1) ∷ sweeps 5 ∷ []

get-after_calls_example :
    get 8 (65 ∷ []) (after_calls some_calls [])
    ≡ get 8 (65 ∷ []) (after_calls (unswept some_calls) [])
get-after_calls_example = get-after_calls 8 some_calls (65 ∷ []) (tt, (tt, (omega arith, tt)))

still_there : get 8 (65 ∷ []) (after_calls some_calls []) ≡ some (7 ∷ [])
unfolding get after_calls shark_socket.Infra.Cache.Expiry.after_call set sweep is_expired lookup
    insert shark_socket.Base.Maps.text_beq
still_there = refl
