-- ===== src/Coap/Observe/Steps.antt =====
-- The steps of `Register` on a registry that is counted.
use shark_socket.Base.{
  ℕ, ◌+◌, ◌-◌, ◌≡◌, refl, ap, inl, inr, true, none, some, [], ◌∷◌, arith, Bool-cases, Option-cases,
}
use shark_socket.Base.Maps.{
  lookup, insert, erase, text_eq, lookup-insert, Distinct, insert-Distinct, erase-Distinct,
  insert-All, erase-All,
}
use shark_socket.Base.Sums.{sum_over, weight, sum_over-insert, sum_over-erase}
use shark_socket.Coap.Observe.{
  Text, Observer, Subs, ObserverRegistry, observer_key, subs_of, count_of, with_resource,
  find_remote, replace, add,
}
use shark_socket.Coap.Observe.Counted.{
  each, from, plain, Keyed, Good, Counted, set-Counted, subs_of-Good, subs_of_part, from-remote,
}

pub subs_of_missing :
    (resource : Text) (r : ObserverRegistry)
    → lookup resource r.subs ≡ none
    → subs_of resource r ≡ []
unfolding subs_of
subs_of_missing resource r missing = rw (missing, subs_of) refl

pub with_resource-subs_of :
    (resource : Text) (r : ObserverRegistry)
    → subs_of resource (with_resource resource r) ≡ subs_of resource r
unfolding with_resource subs_of
with_resource-subs_of resource r = elim (Option-cases (lookup resource r.subs)) [
  | inl missing ↦ ground (arith, missing, lookup-insert resource resource [] r.subs)
  | inr (m, found) ↦ ground (arith, found)
]

pub with_resource_counters :
    (resource : Text) (r : ObserverRegistry)
    → ((with_resource resource r).total ≡ r.total)
      × ((k : Text) → count_of k (with_resource resource r) ≡ count_of k r)
unfolding with_resource count_of
with_resource_counters resource r = elim (Option-cases (lookup resource r.subs)) [
  | inl missing ↦ rw (missing, with_resource) (refl, λ k. refl)
  | inr (m, found) ↦ rw (found, with_resource) (refl, λ k. refl)
]

empty-Good : (resource : Text) → Good resource []
unfolding sum_over
empty-Good resource = record { distinct = tt; keyed = tt; one_each = λ remote. omega arith }

pub with_resource-Counted :
    (resource : Text) (r : ObserverRegistry) → Counted r → Counted (with_resource resource r)
unfolding with_resource sum_over count_of
with_resource-Counted resource r v = elim (Option-cases (lookup resource r.subs)) [
  | inl missing ↦
      rw (missing, with_resource)
        (set-Counted r _ resource [] v (empty-Good resource) refl
          (omega (arith, ap (sum_over each) (subs_of_missing resource r missing)))
          (λ k. omega (arith, ap (sum_over (from k)) (subs_of_missing resource r missing))))
  | inr (m, found) ↦ rw (found, with_resource) v
]

-- What a key of a remote is found to hold.
pub find_remote-some :
    (remote key : Text) (m : Subs)
    → Distinct m
    → find_remote remote m ≡ some key
    → (o : Observer) × (lookup key m ≡ some o) × (o.remote ≡ remote)
unfolding find_remote lookup
find_remote-some remote key [] d h = absurd (ground (arith, h))
find_remote-some remote key ((j, o) ∷ m) (fresh, d) h =
    elim (Bool-cases (text_eq.beq o.remote remote)) [
      | inl same ↦ (
        o,
        ground (arith, h, same, text_eq.beq_iff j key),
        (text_eq.beq_iff o.remote remote).0 same,
      )
      | inr other ↦
          let (o', found, his) = find_remote-some remote key m d (ground (arith, h, other)) in
          (o', ground (arith, found, fresh, text_eq.beq_iff j key, ap (λ t. lookup t m)), his)
    ]

pub find_remote-none :
    (remote : Text) (m : Subs) → find_remote remote m ≡ none → sum_over (from remote) m ≡ 0
unfolding find_remote sum_over
find_remote-none remote [] h = refl
find_remote-none remote ((j, o) ∷ m) h = ground (arith, h, find_remote-none remote m)

-- A resource without the relation under a key.
pub sum_over-erase_found :
    (w : Observer → ℕ) (key : Text) (o : Observer) (m : Subs)
    → Distinct m
    → lookup key m ≡ some o
    → sum_over w (erase key m) + w o ≡ sum_over w m
sum_over-erase_found w key o m d found =
    omega (arith, sum_over-erase w key m d, ap (weight w) found)

pub erase-Good : (resource key : Text) (m : Subs) → Good resource m → Good resource (erase key m)
erase-Good resource key m g = record {
  distinct = erase-Distinct key m g.distinct;
  keyed = erase-All (λ entry. Keyed resource entry.0 entry.1) key m g.keyed;
  one_each = λ k. omega (arith, sum_over-erase (from k) key m g.distinct, g.one_each k);
}

-- The registry after the older relation of the remote gave way.
pub replace-Counted :
    (resource remote key : Text) (o : Observer) (r : ObserverRegistry)
    → Counted r
    → lookup key (subs_of resource r) ≡ some o
    → o.remote ≡ remote
    → Counted (replace resource remote key r)
unfolding replace count_of
replace-Counted resource remote key o r v found his =
    let g = subs_of-Good resource r v.good in
    set-Counted r _ resource (erase key (subs_of resource r)) v (erase-Good resource key _ g) refl
      (omega (
        arith,
        sum_over-erase_found each key o _ g.distinct found,
        subs_of_part each resource r v.resources,
        v.counts_all,
      ))
      (λ k. ground (
        arith,
        sum_over-erase_found (from k) key o _ g.distinct found,
        from-remote remote k o his,
        subs_of_part (from k) resource r v.resources,
        v.counts_remote k,
        lookup-insert remote k (count_of remote r - 1) r.remote_count,
        text_eq.beq_iff remote k,
        ap (λ t. count_of t r),
      ))

pub replace-subs_of :
    (resource remote key : Text) (r : ObserverRegistry)
    → subs_of resource (replace resource remote key r) ≡ erase key (subs_of resource r)
unfolding replace subs_of
replace-subs_of resource remote key r = ground (
  arith,
  lookup-insert resource resource (erase key (subs_of resource r)) r.subs,
  text_eq.beq_iff resource resource,
)

-- What the older relation leaves for the remote.
pub replace_alone :
    (resource remote key : Text) (o : Observer) (r : ObserverRegistry)
    → Counted r
    → lookup key (subs_of resource r) ≡ some o
    → o.remote ≡ remote
    → sum_over (from remote) (subs_of resource (replace resource remote key r)) ≡ 0
replace_alone resource remote key o r v found his =
    let g = subs_of-Good resource r v.good in
    ground (
      arith,
      ap (sum_over (from remote)) (replace-subs_of resource remote key r),
      sum_over-erase_found (from remote) key o _ g.distinct found,
      g.one_each remote,
      from-remote remote remote o his,
      text_eq.beq_iff remote remote,
    )

pub add-Counted :
    (resource remote token : Text) (r : ObserverRegistry)
    → Counted r
    → plain remote ≡ true
    → lookup (observer_key remote token) (subs_of resource r) ≡ none
    → sum_over (from remote) (subs_of resource r) ≡ 0
    → Counted (add resource remote token r).0
unfolding add count_of
add-Counted resource remote token r v p fresh alone =
    let o : Observer = record { token = token; remote = remote; resource = resource; seq = 0 } in
    let g = subs_of-Good resource r v.good in
    let grows : (w : Observer → ℕ)
        → sum_over w (insert (observer_key remote token) o (subs_of resource r))
          ≡ sum_over w (subs_of resource r) + w o =
      λ w. omega (
        arith,
        sum_over-insert w (observer_key remote token) o (subs_of resource r),
        ap (weight w) fresh,
      ) in
    set-Counted r _ resource _ v
      (record {
        distinct = insert-Distinct (observer_key remote token) o (subs_of resource r) g.distinct;
        keyed =
            insert-All (λ entry. Keyed resource entry.0 entry.1) (observer_key remote token) o _
              (record { own_key = refl; own_resource = refl; own_plain = p }) g.keyed;
        one_each = λ k. ground (
          arith,
          grows (from k),
          g.one_each k,
          alone,
          text_eq.beq_iff remote k,
          ap (λ t. sum_over (from t) (subs_of resource r)),
        );
      })
      refl (omega (arith, grows each))
      (λ k. ground (
        arith,
        grows (from k),
        lookup-insert remote k (count_of remote r + 1) r.remote_count,
        text_eq.beq_iff remote k,
        ap (λ t. count_of t r),
      ))
