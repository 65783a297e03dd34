-- ===== src/Coap/Observe/Leaving.antt =====
-- What is left of the relations when a remote leaves.
use shark_socket.Base.{
  ℕ, ◌+◌, ◌≡◌, refl, ap, subst, inl, inr, false, none, List, [], ◌∷◌, arith, if◌then◌else◌, All,
  Bool-cases,
}
use shark_socket.Base.Maps.{lookup, text_eq, Distinct}
use shark_socket.Base.Sums.{sum_over, sum_over-add, sum_over-agree, sum_over-less}
use shark_socket.Coap.Observe.{
  Text, Observer, Subs, ObserverRegistry, drop_remote, drop_everywhere, unless_empty,
  remove_by_session,
}
use shark_socket.Coap.Observe.Counted.{each, from, relations, Keyed, Good, Counted, count_of-erase}

-- The weight of a relation that is not of the remote.
abbrev keep : (Observer → ℕ) → Text → Observer → ℕ
keep w remote o = if text_eq.beq o.remote remote then 0 else w o

sum_over-drop_remote :
    (w : Observer → ℕ) (remote : Text) (m : Subs)
    → (sum_over w (drop_remote remote m).0 ≡ sum_over (keep w remote) m)
      × ((drop_remote remote m).1 ≡ sum_over (from remote) m)
unfolding drop_remote sum_over
sum_over-drop_remote w remote [] = (refl, refl)
sum_over-drop_remote w remote ((key, o) ∷ m) = (
  ground (arith, sum_over-drop_remote w remote m),
  ground (arith, sum_over-drop_remote w remote m),
)

drop_remote_missing :
    (remote key : Text) (m : Subs)
    → lookup key m ≡ none
    → lookup key (drop_remote remote m).0 ≡ none
unfolding drop_remote lookup
drop_remote_missing remote key [] h = h
drop_remote_missing remote key ((j, o) ∷ m) h = ground (arith, h, drop_remote_missing remote key m)

drop_remote-Distinct : (remote : Text) (m : Subs) → Distinct m → Distinct (drop_remote remote m).0
unfolding drop_remote
drop_remote-Distinct remote [] d = tt
drop_remote-Distinct remote ((j, o) ∷ m) (fresh, d) =
    elim (Bool-cases (text_eq.beq o.remote remote)) [
      | inl same ↦ rw (same, drop_remote) (drop_remote-Distinct remote m d)
      | inr other ↦
          rw (other, drop_remote)
            (drop_remote_missing remote j m fresh, drop_remote-Distinct remote m d)
    ]

drop_remote-All :
    (P : Text × Observer → Type 0) (remote : Text) (m : Subs)
    → All P m
    → All P (drop_remote remote m).0
unfolding drop_remote
drop_remote-All P remote [] a = tt
drop_remote-All P remote ((j, o) ∷ m) (b, a) = elim (Bool-cases (text_eq.beq o.remote remote)) [
  | inl same ↦ rw (same, drop_remote) (drop_remote-All P remote m a)
  | inr other ↦ rw (other, drop_remote) (b, drop_remote-All P remote m a)
]

drop_remote-Good :
    (resource remote : Text) (m : Subs) → Good resource m → Good resource (drop_remote remote m).0
drop_remote-Good resource remote m g = record {
  distinct = drop_remote-Distinct remote m g.distinct;
  keyed = drop_remote-All (λ entry. Keyed resource entry.0 entry.1) remote m g.keyed;
  one_each = λ k. omega (
    arith,
    (sum_over-drop_remote (from k) remote m).0,
    g.one_each k,
    sum_over-less (keep (from k) remote) (from k) (λ o. ground arith) m,
  );
}

relations-unless_empty :
    (w : Observer → ℕ) (resource : Text) (m : Subs) (rest : List (Text × Subs))
    → relations w (unless_empty resource m rest) ≡ sum_over w m + relations w rest
unfolding unless_empty relations sum_over
relations-unless_empty w resource [] rest = omega arith
relations-unless_empty w resource (entry ∷ m) rest = refl

unless_empty_missing :
    (resource k : Text) (m : Subs) (rest : List (Text × Subs))
    → (text_eq.beq resource k ≡ false)
    → lookup k rest ≡ none
    → lookup k (unless_empty resource m rest) ≡ none
unfolding unless_empty lookup
unless_empty_missing resource k [] rest other h = h
unless_empty_missing resource k (entry ∷ m) rest other h = ground (arith, h, other)

relations-drop_everywhere :
    (w : Observer → ℕ) (remote : Text) (subs : List (Text × Subs))
    → (relations w (drop_everywhere remote subs).0 ≡ relations (keep w remote) subs)
      × ((drop_everywhere remote subs).1 ≡ relations (from remote) subs)
unfolding drop_everywhere relations sum_over
relations-drop_everywhere w remote [] = (refl, refl)
relations-drop_everywhere w remote ((resource, m) ∷ rest) = (
  omega (
    arith,
    relations-unless_empty w resource (drop_remote remote m).0 (drop_everywhere remote rest).0,
    (sum_over-drop_remote w remote m).0,
    (relations-drop_everywhere w remote rest).0,
  ),
  omega (arith, (sum_over-drop_remote w remote m).1, (relations-drop_everywhere w remote rest).1),
)

drop_everywhere_missing :
    (remote k : Text) (subs : List (Text × Subs))
    → lookup k subs ≡ none
    → lookup k (drop_everywhere remote subs).0 ≡ none
unfolding drop_everywhere lookup
drop_everywhere_missing remote k [] h = h
drop_everywhere_missing remote k ((resource, m) ∷ rest) h =
    unless_empty_missing resource k _ _ (ground (arith, h))
      (drop_everywhere_missing remote k rest (ground (arith, h)))

drop_everywhere-Distinct :
    (remote : Text) (subs : List (Text × Subs))
    → Distinct subs
    → Distinct (drop_everywhere remote subs).0
unfolding drop_everywhere unless_empty
drop_everywhere-Distinct remote [] d = tt
drop_everywhere-Distinct remote ((resource, m) ∷ rest) (fresh, d) =
    elim (drop_remote remote m).0
      as (λ t. Distinct (unless_empty resource t (drop_everywhere remote rest).0)) [
        | [] ↦ drop_everywhere-Distinct remote rest d
        | entry ∷ m' ↦ (
          drop_everywhere_missing remote resource rest fresh,
          drop_everywhere-Distinct remote rest d,
        )
      ]

unless_empty-Good :
    (resource : Text) (m : Subs) (rest : List (Text × Subs))
    → Good resource m
    → All (λ entry. Good entry.0 entry.1) rest
    → All (λ entry. Good entry.0 entry.1) (unless_empty resource m rest)
unfolding unless_empty
unless_empty-Good resource [] rest g a = a
unless_empty-Good resource (entry ∷ m) rest g a = (g, a)

drop_everywhere-Good :
    (remote : Text) (subs : List (Text × Subs))
    → All (λ entry. Good entry.0 entry.1) subs
    → All (λ entry. Good entry.0 entry.1) (drop_everywhere remote subs).0
unfolding drop_everywhere unless_empty
drop_everywhere-Good remote [] a = tt
drop_everywhere-Good remote ((resource, m) ∷ rest) (g, a) =
    unless_empty-Good resource _ _ (drop_remote-Good resource remote m g)
      (drop_everywhere-Good remote rest a)

-- The weights of the others and of the remote are the whole.
keep-from-each :
    (remote : Text) (subs : List (Text × Subs))
    → relations (keep each remote) subs + relations (from remote) subs ≡ relations each subs
unfolding relations
keep-from-each remote subs =
    sum_over-add _ _ _
      (λ m. sum_over-add (keep each remote) (from remote) each (λ o. ground arith) m) subs

keep-from_own :
    (remote : Text) (subs : List (Text × Subs)) → relations (keep (from remote) remote) subs ≡ 0
unfolding relations
keep-from_own remote subs = omega (
  arith,
  sum_over-add _ _ _
      (λ m.
        sum_over-add (keep (from remote) remote) (from remote) (from remote) (λ o. ground arith) m)
      subs,
)

keep-from_other :
    (remote k : Text) (subs : List (Text × Subs))
    → relations (keep (from k) remote) subs
      ≡ (if text_eq.beq remote k then 0 else relations (from k) subs)
unfolding relations sum_over
keep-from_other remote k subs = elim (Bool-cases (text_eq.beq remote k)) [
  | inl same ↦ rw same (
      subst (λ t. relations (keep (from t) remote) subs ≡ 0) ((text_eq.beq_iff remote k).0 same)
        (keep-from_own remote subs))
  | inr other ↦ rw other (
      sum_over-agree _ _
        (λ m.
          sum_over-agree (keep (from k) remote) (from k)
            (λ o. ground (arith, other, text_eq.beq_iff o.remote remote, ap (λ t. text_eq.beq t k)))
            m)
        subs)
]

pub remove_by_session-Counted :
    (remote : Text) (r : ObserverRegistry) → Counted r → Counted (remove_by_session remote r)
unfolding remove_by_session
remove_by_session-Counted remote r v = record {
  resources = drop_everywhere-Distinct remote r.subs v.resources;
  good = drop_everywhere-Good remote r.subs v.good;
  counts_all = omega (
    arith,
    relations-drop_everywhere each remote r.subs,
    keep-from-each remote r.subs,
    v.counts_all,
  );
  counts_remote = λ k. ground (
    arith,
    relations-drop_everywhere (from k) remote r.subs,
    keep-from_other remote k r.subs,
    v.counts_remote k,
    count_of-erase remote k r (remove_by_session remote r) refl,
  );
}
