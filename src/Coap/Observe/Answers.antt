-- ===== src/Coap/Observe/Answers.antt =====
-- What `Register` answers, and the relation that it leaves.
use shark_socket.Base.{
  ◌≤◌, ◌<◌, ◌≡◌, ◌↔◌, refl, ap, subst, ◌⊎◌, inl, inr, true, Option, none, some, arith, leb,
  Bool-cases,
}
use shark_socket.Base.Maps.{lookup, insert, text_eq, lookup-insert, lookup-erase, Distinct}
use shark_socket.Base.Sums.{sum_over, sum_over-insert, weight}
use shark_socket.Coap.Observe.{
  Text, Observer, Subs, ObserverRegistry, observer_key, subs_of, count_of, with_resource,
  find_remote, replace, add, register, max_observers_per_remote, max_observers_total,
}
use shark_socket.Coap.Observe.Counted.{from, plain, Counted, subs_of-Good, from-remote}
use shark_socket.Coap.Observe.Steps.{
  with_resource-subs_of, with_resource_counters, with_resource-Counted, find_remote-none,
  replace-subs_of, replace_alone, sum_over-erase_found,
}
use shark_socket.Coap.Observe.Removal.{found_remote}
use shark_socket.Coap.Observe.Registering.{
  Registered, kept, replaced, refused, added, register-Registered,
}

-- A remote that has a relation for a resource is found there.
found_alone :
    (remote key : Text) (o : Observer) (m : Subs)
    → Distinct m
    → lookup key m ≡ some o
    → o.remote ≡ remote
    → 0 < sum_over (from remote) m
found_alone remote key o m d found his = ground (
  arith,
  sum_over-erase_found (from remote) key o m d found,
  from-remote remote remote o his,
  text_eq.beq_iff remote remote,
)

Registered-none :
    (resource remote token : Text) (r : ObserverRegistry) (s : ObserverRegistry × Option Observer)
    → plain remote ≡ true
    → Counted r
    → Registered resource remote token r s
    → (s.1 ≡ none) ↔ (
        (find_remote remote (subs_of resource r) ≡ none)
        × ((max_observers_per_remote ≤ count_of remote r) ⊎ (max_observers_total ≤ r.total)))
Registered-none resource remote token r _ p v (kept o found) =
    let his = (found_remote resource remote token o r p v found).0 in
    (
      λ h. absurd (ground (arith, h)),
      λ h. absurd (
          omega (
            arith,
            find_remote-none remote (subs_of resource r) h.0,
            found_alone remote _ o _ (subs_of-Good resource r v.good).distinct found his,
          )),
    )
Registered-none resource remote token r _ p v (replaced key o fresh found his) = (
  λ h. absurd (unfold add in ground (arith, h)),
  λ h. absurd (
      omega (
        arith,
        find_remote-none remote (subs_of resource r) h.0,
        found_alone remote key o _ (subs_of-Good resource r v.good).distinct found his,
      )),
)
Registered-none resource remote token r _ p v (refused fresh alone full) = (
  λ h. (
    alone,
    elim (Bool-cases (leb max_observers_per_remote (count_of remote r))) [
      | inl own ↦ inl (ground (arith, own))
      | inr other ↦ inr (ground (arith, full, other))
    ],
  ),
  λ h. refl,
)
Registered-none resource remote token r _ p v (added fresh alone room) = (
  λ h. absurd (unfold add in ground (arith, h)),
  λ h.
      absurd (elim h.1 [
        | inl own ↦ ground (arith, room, own)
        | inr total ↦ ground (arith, room, total)
      ]),
)

pub register_refuses :
    (resource remote token : Text) (r : ObserverRegistry)
    → plain remote ≡ true
    → Counted r
    → ((register resource remote token r).1 ≡ none) ↔ (
        (find_remote remote (subs_of resource r) ≡ none)
        × ((max_observers_per_remote ≤ count_of remote r) ⊎ (max_observers_total ≤ r.total)))
register_refuses resource remote token r p v =
    let h =
      Registered-none resource remote token (with_resource resource r) _ p
        (with_resource-Counted resource r v) (register-Registered resource remote token r v) in
    let (t, c) = with_resource_counters resource r in
    subst
      (λ n. ((register resource remote token r).1 ≡ none) ↔ (
        (find_remote remote (subs_of resource r) ≡ none)
        × ((max_observers_per_remote ≤ n) ⊎ (max_observers_total ≤ r.total))))
      (c remote)
      (subst
        (λ n. ((register resource remote token r).1 ≡ none) ↔ (
          (find_remote remote (subs_of resource r) ≡ none)
          × ((max_observers_per_remote ≤ count_of remote (with_resource resource r))
              ⊎ (max_observers_total ≤ n))))
        t
        (subst
          (λ m. ((register resource remote token r).1 ≡ none) ↔ (
            (find_remote remote m ≡ none)
            × ((max_observers_per_remote ≤ count_of remote (with_resource resource r))
                ⊎ (max_observers_total ≤ (with_resource resource r).total))))
          (with_resource-subs_of resource r) h))

-- The relation that a call of Register leaves.
pub record Holds (resource remote token : Text) (o : Observer) (r : ObserverRegistry) : Type 0 where
  pub his : o.remote ≡ remote
  pub his_token : o.token ≡ token
  pub found : lookup (observer_key remote token) (subs_of resource r) ≡ some o
  pub only : sum_over (from remote) (subs_of resource r) ≡ 1

add-Holds :
    (resource remote token : Text) (r : ObserverRegistry)
    → lookup (observer_key remote token) (subs_of resource r) ≡ none
    → sum_over (from remote) (subs_of resource r) ≡ 0
    → Holds resource remote token
        (record { token = token; remote = remote; resource = resource; seq = 0 })
        (add resource remote token r).0
unfolding add
add-Holds resource remote token r fresh alone =
    let o : Observer = record { token = token; remote = remote; resource = resource; seq = 0 } in
    let key = observer_key remote token in
    let m = subs_of resource r in
    let here : subs_of resource (add resource remote token r).0 ≡ insert key o m =
      unfold subs_of in
      ground (
        arith,
        lookup-insert resource resource (insert key o m) r.subs,
        text_eq.beq_iff resource resource,
      ) in
    record {
      his = refl;
      his_token = refl;
      found =
          ground (arith, ap (lookup key) here, lookup-insert key key o m, text_eq.beq_iff key key);
      only = ground (
        arith,
        ap (sum_over (from remote)) here,
        sum_over-insert (from remote) key o m,
        ap (weight (from remote)) fresh,
        alone,
        text_eq.beq_iff remote remote,
      );
    }

Registered-Holds :
    (resource remote token : Text) (r : ObserverRegistry) (s : ObserverRegistry × Option Observer)
    (o : Observer)
    → plain remote ≡ true
    → Counted r
    → Registered resource remote token r s
    → s.1 ≡ some o
    → Holds resource remote token o s.0
unfolding add
Registered-Holds resource remote token r _ o p v (kept o' found) h =
    subst (λ t. Holds resource remote token t r) (ground (arith, h))
      (record {
        his = (found_remote resource remote token o' r p v found).0;
        his_token = (found_remote resource remote token o' r p v found).1;
        found = found;
        only = omega (
          arith,
          (subs_of-Good resource r v.good).one_each remote,
          found_alone remote _ o' _ (subs_of-Good resource r v.good).distinct found
              (found_remote resource remote token o' r p v found).0,
        );
      })
Registered-Holds resource remote token r _ o p v (replaced key o' fresh found his) h =
    subst
      (λ t.
        Holds resource remote token t (add resource remote token (replace resource remote key r)).0)
      (ground (arith, h))
      (add-Holds resource remote token (replace resource remote key r)
        (ground (
          arith,
          ap (lookup (observer_key remote token)) (replace-subs_of resource remote key r),
          lookup-erase key (observer_key remote token) (subs_of resource r),
          fresh,
        ))
        (replace_alone resource remote key o' r v found his))
Registered-Holds resource remote token r _ o p v (refused fresh alone full) h =
    absurd (ground (arith, h))
Registered-Holds resource remote token r _ o p v (added fresh alone room) h =
    subst (λ t. Holds resource remote token t (add resource remote token r).0) (ground (arith, h))
      (add-Holds resource remote token r fresh (find_remote-none remote _ alone))

pub register-Holds :
    (resource remote token : Text) (r : ObserverRegistry) (o : Observer)
    → plain remote ≡ true
    → Counted r
    → (register resource remote token r).1 ≡ some o
    → Holds resource remote token o (register resource remote token r).0
register-Holds resource remote token r o p v h =
    Registered-Holds resource remote token (with_resource resource r) _ o p
      (with_resource-Counted resource r v) (register-Registered resource remote token r v) h
