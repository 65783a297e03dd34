-- ===== src/Coap/Observe/Counted.antt =====
-- The relations of a registry, and its counters.
use shark_socket.Base.{
  ℕ, ◌+◌, ◌≤◌, ◌≡◌, refl, ap, inl, inr, Bool, true, false, none, some, List, [], ◌∷◌, arith,
  if◌then◌else◌, ◌==◌, All, Option-cases,
}
use shark_socket.Base.Maps.{
  lookup, insert, erase, text_eq, lookup-insert, lookup-erase, Distinct, insert-Distinct,
  erase-Distinct, insert-All, erase-All, lookup-All,
}
use shark_socket.Base.Sums.{sum_over, weight, sum_over-insert, sum_over-erase}
use shark_socket.Coap.Observe.{
  Text, Observer, Subs, ObserverRegistry, empty_registry, observer_key, subs_of, count_of,
  max_observers_per_remote, max_observers_total,
}

-- One for each relation, and for each relation of a remote.
abbrev pub each : Observer → ℕ
each o = 1

abbrev pub from : Text → Observer → ℕ
from remote o = if text_eq.beq o.remote remote then 1 else 0

-- The relations of all resources, each with its weight.
unfoldable pub relations : (Observer → ℕ) → List (Text × Subs) → ℕ
relations w subs = sum_over (sum_over w) subs

-- No slash is in an address, so that a key is of one remote.
unfoldable pub plain : Text → Bool
plain [] = true
plain (c ∷ s) = let rest = plain s in if c == b'/' then false else rest

pub record Keyed (resource key : Text) (o : Observer) : Type 0 where
  pub own_key : key ≡ observer_key o.remote o.token
  pub own_resource : o.resource ≡ resource
  pub own_plain : plain o.remote ≡ true

-- What holds of the relations of one resource.
pub record Good (resource : Text) (m : Subs) : Type 0 where
  pub distinct : Distinct m
  pub keyed : All (λ entry. Keyed resource entry.0 entry.1) m
  pub one_each : (remote : Text) → sum_over (from remote) m ≤ 1

pub record Counted (r : ObserverRegistry) : Type 0 where
  pub resources : Distinct r.subs
  pub good : All (λ entry. Good entry.0 entry.1) r.subs
  pub counts_all : r.total ≡ relations each r.subs
  pub counts_remote : (remote : Text) → count_of remote r ≡ relations (from remote) r.subs

pub record Inv (r : ObserverRegistry) : Type 0 where
  pub counted : Counted r
  pub total_capped : r.total ≤ max_observers_total
  pub remote_capped : (remote : Text) → count_of remote r ≤ max_observers_per_remote

pub empty-Inv : Inv empty_registry
unfolding relations count_of sum_over lookup
empty-Inv = record {
  counted = record { resources = tt; good = tt; counts_all = refl; counts_remote = λ remote. refl };
  total_capped = omega arith;
  remote_capped = λ remote. omega arith;
}

-- What one resource weighs.
weight-subs_of :
    (w : Observer → ℕ) (resource : Text) (r : ObserverRegistry)
    → weight (sum_over w) (lookup resource r.subs) ≡ sum_over w (subs_of resource r)
unfolding subs_of sum_over
weight-subs_of w resource r =
    elim (lookup resource r.subs)
      as (λ o. weight (sum_over w) o ≡ sum_over w (elim o [ none ↦ [] | some m ↦ m ])) [
        | none ↦ refl
        | some m ↦ refl
      ]

-- Other relations for one resource change the whole by the difference.
pub relations-insert :
    (w : Observer → ℕ) (resource : Text) (m : Subs) (r : ObserverRegistry)
    → relations w (insert resource m r.subs) + sum_over w (subs_of resource r)
      ≡ relations w r.subs + sum_over w m
unfolding relations
relations-insert w resource m r =
    omega (arith, sum_over-insert (sum_over w) resource m r.subs, weight-subs_of w resource r)

pub relations-erase :
    (w : Observer → ℕ) (resource : Text) (r : ObserverRegistry)
    → Distinct r.subs
    → relations w (erase resource r.subs) + sum_over w (subs_of resource r) ≡ relations w r.subs
unfolding relations
relations-erase w resource r d =
    omega (arith, sum_over-erase (sum_over w) resource r.subs d, weight-subs_of w resource r)

-- One resource is a part of the whole.
pub subs_of_part :
    (w : Observer → ℕ) (resource : Text) (r : ObserverRegistry)
    → Distinct r.subs
    → sum_over w (subs_of resource r) ≤ relations w r.subs
subs_of_part w resource r d = omega (arith, relations-erase w resource r d)

-- A relation counts for its own remote.
pub from-remote :
    (remote k : Text) (o : Observer)
    → o.remote ≡ remote
    → from k o ≡ (if text_eq.beq remote k then 1 else 0)
from-remote remote k o his = ap (λ t. if text_eq.beq t k then 1 else 0) his

pub subs_of-Good :
    (resource : Text) (r : ObserverRegistry)
    → All (λ entry. Good entry.0 entry.1) r.subs
    → Good resource (subs_of resource r)
unfolding subs_of sum_over
subs_of-Good resource r v = elim (Option-cases (lookup resource r.subs)) [
  | inl missing ↦
      rw (missing, subs_of) (record { distinct = tt; keyed = tt; one_each = λ remote. omega arith })
  | inr (m, found) ↦
      rw (found, subs_of) (lookup-All (λ entry. Good entry.0 entry.1) resource m r.subs v found)
]

-- A registry with other relations for one resource.
pub set-Counted :
    (r s : ObserverRegistry) (resource : Text) (m : Subs)
    → Counted r
    → Good resource m
    → s.subs ≡ insert resource m r.subs
    → s.total + sum_over each (subs_of resource r) ≡ r.total + sum_over each m
    → ((k : Text)
        → count_of k s + sum_over (from k) (subs_of resource r)
          ≡ count_of k r + sum_over (from k) m)
    → Counted s
set-Counted r s resource m v g same all remotes = record {
  resources = rw same (insert-Distinct resource m r.subs v.resources);
  good = rw same (insert-All (λ entry. Good entry.0 entry.1) resource m r.subs g v.good);
  counts_all =
      omega
        (arith, all, ap (relations each) same, relations-insert each resource m r, v.counts_all);
  counts_remote = λ k. omega (
    arith,
    remotes k,
    ap (relations (from k)) same,
    relations-insert (from k) resource m r,
    v.counts_remote k,
  );
}

pub erase-Counted :
    (r s : ObserverRegistry) (resource : Text)
    → Counted r
    → s.subs ≡ erase resource r.subs
    → s.total + sum_over each (subs_of resource r) ≡ r.total
    → ((k : Text) → count_of k s + sum_over (from k) (subs_of resource r) ≡ count_of k r)
    → Counted s
erase-Counted r s resource v same all remotes = record {
  resources = rw same (erase-Distinct resource r.subs v.resources);
  good = rw same (erase-All (λ entry. Good entry.0 entry.1) resource r.subs v.good);
  counts_all = omega (
    arith,
    all,
    ap (relations each) same,
    relations-erase each resource r v.resources,
    v.counts_all,
  );
  counts_remote = λ k. omega (
    arith,
    remotes k,
    ap (relations (from k)) same,
    relations-erase (from k) resource r v.resources,
    v.counts_remote k,
  );
}

-- The count of another remote stays.
pub count_of-insert :
    (remote k : Text) (n : ℕ) (r s : ObserverRegistry)
    → s.remote_count ≡ insert remote n r.remote_count
    → count_of k s ≡ (if text_eq.beq remote k then n else count_of k r)
unfolding count_of
count_of-insert remote k n r s same =
    ground (arith, ap (lookup k) same, lookup-insert remote k n r.remote_count)

pub count_of-erase :
    (remote k : Text) (r s : ObserverRegistry)
    → s.remote_count ≡ erase remote r.remote_count
    → count_of k s ≡ (if text_eq.beq remote k then 0 else count_of k r)
unfolding count_of
count_of-erase remote k r s same =
    ground (arith, ap (lookup k) same, lookup-erase remote k r.remote_count)
