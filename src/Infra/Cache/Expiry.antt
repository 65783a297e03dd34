-- ===== src/Infra/Cache/Expiry.antt =====
-- What a cache answers, whenever it is swept.
use shark_socket.Base.{
  ℕ, ◌+◌, ◌≤◌, ◌≡◌, refl, ap, ◌∙◌, inl, inr, none, some, List, [], ◌∷◌, arith, ltb, if◌then◌else◌,
  All, ℤ, pos, negsuc, Bool-cases,
}
use shark_socket.Base.Maps.{
  lookup, text_eq, lookup-insert, lookup-erase, Distinct, insert-Distinct, erase-Distinct,
}
use shark_socket.Infra.Cache.{Memory, is_expired, get, set, delete, sweep, len}

sweep_missing :
    (now : ℕ) (key : List ℕ) (m : Memory) → lookup key m ≡ none → lookup key (sweep now m).0 ≡ none
unfolding sweep lookup
sweep_missing now key [] h = h
sweep_missing now key ((k, item) ∷ m) h = ground (arith, h, sweep_missing now key m)

-- A sweep keeps what a later Get may still answer with.
get-sweep :
    (before now : ℕ) (key : List ℕ) (m : Memory)
    → Distinct m
    → before ≤ now
    → get now key (sweep before m).0 ≡ get now key m
unfolding sweep lookup get is_expired
get-sweep before now key [] d h = refl
get-sweep before now key ((k, item) ∷ m) (fresh, d) h = elim (Bool-cases (text_eq.beq k key)) [
  | inr other ↦ ground (arith, other, get-sweep before now key m d h)
  | inl same ↦
      ground (
        arith,
        same,
        sweep_missing before key m,
        fresh,
        text_eq.beq_iff k key,
        ap (λ t. lookup t m),
      )
]

sweep-Distinct : (now : ℕ) (m : Memory) → Distinct m → Distinct (sweep now m).0
unfolding sweep
sweep-Distinct now [] d = tt
sweep-Distinct now ((k, item) ∷ m) (fresh, d) = elim (Bool-cases (is_expired now item)) [
  | inl gone ↦ rw (gone, sweep) (sweep-Distinct now m d)
  | inr kept ↦ rw (kept, sweep) (sweep_missing now k m fresh, sweep-Distinct now m d)
]

pub data CacheCall : Type 0 where
  sets : ℕ → List ℕ → List ℕ → ℤ → CacheCall
  deletes : List ℕ → CacheCall
  sweeps measures : ℕ → CacheCall

unfoldable pub after_call : CacheCall → Memory → Memory
after_call (sets now key value ttl) m = set now key value ttl m
after_call (deletes key) m = delete key m
after_call (sweeps now) m = (sweep now m).0
after_call (measures now) m = (len now m).0

unfoldable pub after_calls : List CacheCall → Memory → Memory
after_calls [] m = m
after_calls (c ∷ cs) m = after_calls cs (after_call c m)

-- The calls without those that only tidy up.
abbrev pub unswept : List CacheCall → List CacheCall
unswept [] = []
unswept (sweeps now ∷ cs) = unswept cs
unswept (measures now ∷ cs) = unswept cs
unswept (sets now key value ttl ∷ cs) = sets now key value ttl ∷ unswept cs
unswept (deletes key ∷ cs) = deletes key ∷ unswept cs

-- The time of a sweep.
abbrev pub SweptBy : ℕ → CacheCall → Type 0
SweptBy now (sweeps t) = t ≤ now
SweptBy now (measures t) = t ≤ now
SweptBy now (sets t key value ttl) = Unit
SweptBy now (deletes key) = Unit

module _ (now : ℕ) where
  -- A value that is set or deleted answers alike on memories that answer alike.
  get-set :
      (t : ℕ) (key value : List ℕ) (ttl : ℤ) (m m' : Memory)
      → ((k : List ℕ) → get now k m ≡ get now k m')
      → (k : List ℕ) → get now k (set t key value ttl m) ≡ get now k (set t key value ttl m')
  unfolding get set delete is_expired
  get-set t key value (pos n) m m' same k = ground (
    arith,
    same k,
    lookup-insert key k
        (record { value = value; expires_at = if ltb 0 n then some (t + n) else none }) m,
    lookup-insert key k
        (record { value = value; expires_at = if ltb 0 n then some (t + n) else none }) m',
  )
  get-set t key value (negsuc n) m m' same k =
      ground (arith, same k, lookup-erase key k m, lookup-erase key k m')

  set-Distinct :
      (t : ℕ) (key value : List ℕ) (ttl : ℤ) (m : Memory)
      → Distinct m
      → Distinct (set t key value ttl m)
  unfolding set delete
  set-Distinct t key value (pos n) m d = insert-Distinct key _ m d
  set-Distinct t key value (negsuc n) m d = erase-Distinct key m d

  get-delete :
      (key : List ℕ) (m m' : Memory)
      → ((k : List ℕ) → get now k m ≡ get now k m')
      → (k : List ℕ) → get now k (delete key m) ≡ get now k (delete key m')
  unfolding get delete
  get-delete key m m' same k = ground (arith, same k, lookup-erase key k m, lookup-erase key k m')

  get_alike :
      (cs : List CacheCall) (m m' : Memory)
      → All (SweptBy now) cs
      → Distinct m
      → ((k : List ℕ) → get now k m ≡ get now k m')
      → (k : List ℕ) → get now k (after_calls cs m) ≡ get now k (after_calls (unswept cs) m')
  unfolding after_calls after_call delete len
  get_alike [] m m' ts d same k = same k
  get_alike (sets t key value ttl ∷ cs) m m' (_, ts) d same k =
      get_alike cs _ _ ts (set-Distinct t key value ttl m d) (get-set t key value ttl m m' same) k
  get_alike (deletes key ∷ cs) m m' (_, ts) d same k =
      get_alike cs _ _ ts (erase-Distinct key m d) (get-delete key m m' same) k
  get_alike (sweeps t ∷ cs) m m' (early, ts) d same k =
      get_alike cs _ m' ts (sweep-Distinct t m d) (λ j. get-sweep t now j m d early ∙ same j) k
  get_alike (measures t ∷ cs) m m' (early, ts) d same k =
      get_alike cs _ m' ts (sweep-Distinct t m d) (λ j. get-sweep t now j m d early ∙ same j) k

  pub get-after_calls :
      (cs : List CacheCall) (key : List ℕ)
      → All (SweptBy now) cs
      → get now key (after_calls cs []) ≡ get now key (after_calls (unswept cs) [])
  get-after_calls cs key ts = get_alike cs [] [] ts tt (λ k. refl) key
