-- ===== src/Infra/Cache.antt =====
-- The cache in memory: internal/infra/cache/cache.go. Each call holds the mutex; the clock is an
-- argument, in nanoseconds, keys and values are bytes, and an entry that never expires has no time.
pub mod Expiry
mod Tests
use shark_socket.Base.{
  ℕ, ◌+◌, Bool, true, false, Option, none, some, List, [], ◌∷◌, ltb, if◌then◌else◌, length, ℤ, pos,
  negsuc,
}
use shark_socket.Base.Maps.{lookup, insert, erase, text_eq}

pub record Entry : Type 0 where
  pub value : List ℕ
  pub expires_at : Option ℕ

abbrev pub Memory : Type 0
Memory = List (List ℕ × Entry)

pub is_expired : ℕ → Entry → Bool
is_expired now item = elim item.expires_at [ none ↦ false | some t ↦ ltb t now ]

pub get : ℕ → List ℕ → Memory → Option (List ℕ)
unfolding is_expired
get now key m = elim (lookup key m) [
  | none ↦ none
  | some item ↦ if is_expired now item then none else some item.value
]

pub has : ℕ → List ℕ → Memory → Bool
unfolding get
has now key m = elim (get now key m) [ none ↦ false | some value ↦ true ]

pub delete : List ℕ → Memory → Memory
delete key m = erase key m

-- A negative time to live drops the value, and 0 is none.
pub set : ℕ → List ℕ → List ℕ → ℤ → Memory → Memory
unfolding delete
set now key value (negsuc n) m = delete key m
set now key value (pos n) m =
    insert key (record { value = value; expires_at = if ltb 0 n then some (now + n) else none }) m

-- What is left, and how many entries went.
pub sweep : ℕ → Memory → Memory × ℕ
unfolding is_expired
sweep now [] = ([], 0)
sweep now ((key, item) ∷ m) =
    let (m', removed) = sweep now m in
    if is_expired now item then (m', removed + 1) else ((key, item) ∷ m', removed)

-- `Len` sweeps first.
pub len : ℕ → Memory → Memory × ℕ
unfolding sweep
len now m = let (m', removed) = sweep now m in (m', length m')

pub clear : Memory → Memory
clear m = []
