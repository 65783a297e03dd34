-- ===== src/Runtime/Sessions/Listed.antt =====
-- What a snapshot of the 64 tables lists.
use shark_socket.Base.{
  ℕ, zero, suc, ◌+◌, ◌%◌, ◌≡◌, refl, sym, ap, subst, ◌∙◌, inl, inr, Option, none, some, List, [],
  ◌∷◌, ◌++◌, arith, ◌≢◌, ltb, ◌==◌, if◌then◌else◌, length, All, All-append, All-zip, length-append,
  Bool-cases,
}
use shark_socket.Base.Maps.{lookup, nat_eq, Distinct, All-lookup}
use shark_socket.Base.Shards.{total}
use shark_socket.Runtime.Sessions.{
  Session, SessionManager, new, shard, session_shards, get, values, gather, snapshot,
}
use shark_socket.Runtime.Sessions.Registered.{Placed, Inv, new-Inv, answer-Inv}
use shark_socket.Runtime.Sessions.Table.{Call, answer}

-- How often an ID is listed.
unfoldable pub times : ℕ → List Session → ℕ
times id [] = 0
times id (s ∷ sessions) = (if s.id == id then 1 else 0) + times id sessions

pub times-append : (id : ℕ) (xs ys : List Session) → times id (xs ++ ys) ≡ times id xs + times id ys
unfolding times
times-append id [] ys = omega arith
times-append id (s ∷ xs) ys = omega (arith, times-append id xs ys)

abbrev pub present : Option Session → ℕ
present none = 0
present (some s) = 1

length-values : (entries : List (ℕ × Session)) → length (values entries) ≡ length entries
length-values [] = refl
length-values ((id, s) ∷ entries) = omega (arith, length-values entries)

length-gather :
    (n : ℕ) (shards : ℕ → List (ℕ × Session)) → length (gather n shards) ≡ total n shards
unfolding gather total
length-gather zero shards = refl
length-gather (suc n) shards = omega (
  arith,
  length-append (gather n shards) (values (shards n)),
  length-gather n shards,
  length-values (shards n),
)

times-values :
    (i id : ℕ) (entries : List (ℕ × Session))
    → Distinct entries
    → All (Placed i) entries
    → times id (values entries) ≡ present (lookup id entries)
unfolding times lookup
times-values i id [] d a = refl
times-values i id ((k, s) ∷ entries) (fresh, d) ((own, p), a) = elim (Bool-cases (k == id)) [
  | inl same ↦
      let same_id : k ≡ id = ground (arith, same) in
      rw (same, ← own, same)
        (omega (
          arith,
          times-values i id entries d a,
          ap (λ o. present o) (subst (λ t. lookup t entries ≡ none) same_id fresh),
        ))
  | inr other ↦ rw (other, ← own, other) (omega (arith, times-values i id entries d a))
]

lookup-elsewhere :
    (i id : ℕ) (entries : List (ℕ × Session))
    → All (Placed i) entries
    → id % session_shards ≢ i
    → lookup id entries ≡ none
unfolding lookup
lookup-elsewhere i id [] a h = refl
lookup-elsewhere i id ((k, s) ∷ entries) ((own, p), a) h = elim (Bool-cases (k == id)) [
  | inl same ↦ absurd (ground (arith, same, ap (λ t. t % session_shards)))
  | inr other ↦ rw other (lookup-elsewhere i id entries a h)
]

module _ (shards : ℕ → List (ℕ × Session)) (distinct : (i : ℕ) → Distinct (shards i))
    (placed : (i : ℕ) → All (Placed i) (shards i)) (id : ℕ) where
  times-gather :
      (n : ℕ)
      → times id (gather n shards) ≡ (
          if ltb (id % session_shards) n
          then present (lookup id (shards (id % session_shards)))
          else 0)
  unfolding gather
  times-gather zero = unfold times in ground arith
  times-gather (suc n) = ground (
    arith,
    times-append id (gather n shards) (values (shards n)),
    times-gather n,
    times-values n id (shards n) (distinct n) (placed n),
    lookup-elsewhere n id (shards n) (placed n),
    ap (λ i. present (lookup id (shards i))),
  )

All-values :
    (P : Session → Type 0) (entries : List (ℕ × Session))
    → All (λ entry. P entry.1) entries
    → All P (values entries)
All-values P [] a = tt
All-values P ((id, s) ∷ entries) (p, a) = (p, All-values P entries a)

All-gather :
    (P : Session → Type 0) (shards : ℕ → List (ℕ × Session)) (n : ℕ)
    → ((i : ℕ) → All (λ entry. P entry.1) (shards i))
    → All P (gather n shards)
unfolding gather
All-gather P shards zero a = tt
All-gather P shards (suc n) a =
    All-append P (gather n shards) (values (shards n)) (All-gather P shards n a)
      (All-values P (shards n) (a n))

-- What a snapshot shows of the manager.
pub record Faithful (m : SessionManager) : Type 0 where
  pub as_many : length (snapshot m) ≡ m.count
  pub once : (id : ℕ) → times id (snapshot m) ≡ present (get id m)
  pub registered : All (λ s. get s.id m ≡ some s) (snapshot m)

pub snapshot-Faithful : (m : SessionManager) → Inv m → Faithful m
unfolding snapshot get shard
snapshot-Faithful m v = record {
  as_many = length-gather session_shards m.shards ∙ sym v.counts_entries;
  once = λ id. times-gather m.shards v.distinct v.placed id session_shards ∙ ground arith;
  registered =
      All-gather (λ s. get s.id m ≡ some s) m.shards session_shards
        λ i.
          All-zip (m.shards i) (λ entry p here. found_at i entry p here) (v.placed i)
            (All-lookup (m.shards i) (v.distinct i));
}
  where
    found_at :
        (i : ℕ) (entry : ℕ × Session)
        → Placed i entry
        → lookup entry.0 (m.shards i) ≡ some entry.1
        → get entry.1.id m ≡ some entry.1
    found_at i entry (own, p) here =
        subst (λ k. get k m ≡ some entry.1) own
          (subst (λ j. lookup entry.0 (m.shards j) ≡ some entry.1) (sym p) here)

unfoldable pub after : List Call → SessionManager → SessionManager
after [] m = m
after (c ∷ cs) m = after cs (answer m c).0

pub after-Inv : (cs : List Call) (m : SessionManager) → Inv m → Inv (after cs m)
unfolding after
after-Inv [] m v = v
after-Inv (c ∷ cs) m v = after-Inv cs (answer m c).0 (answer-Inv m c v)

-- After any calls the counter of the manager is the number of sessions in its 64 tables and is not
-- above a positive ceiling, and a snapshot lists each registered session once and no other.
pub snapshot-after :
    (ceiling : ℕ) (cs : List Call)
    → Inv (after cs (new ceiling)) × Faithful (after cs (new ceiling))
snapshot-after ceiling cs = (
  after-Inv cs (new ceiling) (new-Inv ceiling),
  snapshot-Faithful _ (after-Inv cs (new ceiling) (new-Inv ceiling)),
)
