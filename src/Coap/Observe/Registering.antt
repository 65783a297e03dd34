-- ===== src/Coap/Observe/Registering.antt =====
-- The ways a call of `Register` goes, and what each keeps.
use shark_socket.Base.{
  ◌+◌, ◌-◌, ◌<◌, ◌≡◌, refl, ap, inl, inr, true, false, ◌||◌, Option, none, some, arith, leb,
  if◌then◌else◌, Bool-cases, Option-cases,
}
use shark_socket.Base.Maps.{lookup, text_eq, lookup-erase}
use shark_socket.Coap.Observe.{
  Text, Observer, ObserverRegistry, observer_key, subs_of, count_of, with_resource, find_remote,
  replace, add, register, max_observers_per_remote, max_observers_total,
}
use shark_socket.Coap.Observe.Counted.{
  each, from, plain, Counted, Inv, subs_of-Good, count_of-insert, subs_of_part, from-remote,
}
use shark_socket.Coap.Observe.Steps.{
  with_resource_counters, with_resource-Counted, find_remote-some, find_remote-none,
  replace-Counted, replace-subs_of, replace_alone, add-Counted, sum_over-erase_found,
}

add-count_of :
    (resource remote token k : Text) (r : ObserverRegistry)
    → count_of k (add resource remote token r).0
      ≡ (if text_eq.beq remote k then count_of remote r + 1 else count_of k r)
unfolding add
add-count_of resource remote token k r =
    count_of-insert remote k (count_of remote r + 1) r (add resource remote token r).0 refl

replace-count_of :
    (resource remote key k : Text) (r : ObserverRegistry)
    → 0 < count_of remote r
    → count_of k (replace resource remote key r)
      ≡ (if text_eq.beq remote k then count_of remote r - 1 else count_of k r)
unfolding replace
replace-count_of resource remote key k r h =
    count_of-insert remote k (count_of remote r - 1) r (replace resource remote key r)
      (ground (arith, h))

with_resource-Inv :
    (resource : Text) (r : ObserverRegistry) → Inv r → Inv (with_resource resource r)
with_resource-Inv resource r v =
    let (t, c) = with_resource_counters resource r in
    record {
      counted = with_resource-Counted resource r v.counted;
      total_capped = omega (arith, t, v.total_capped);
      remote_capped = λ k. omega (arith, c k, v.remote_capped k);
    }

-- A remote with a relation is counted.
pub found_counts :
    (resource remote key : Text) (o : Observer) (r : ObserverRegistry)
    → Counted r
    → lookup key (subs_of resource r) ≡ some o
    → o.remote ≡ remote
    → (0 < count_of remote r) × (0 < r.total)
found_counts resource remote key o r v found his =
    let g = subs_of-Good resource r v.good in
    (
      ground (
        arith,
        sum_over-erase_found (from remote) key o _ g.distinct found,
        from-remote remote remote o his,
        subs_of_part (from remote) resource r v.resources,
        v.counts_remote remote,
        text_eq.beq_iff remote remote,
      ),
      omega (
        arith,
        sum_over-erase_found each key o _ g.distinct found,
        subs_of_part each resource r v.resources,
        v.counts_all,
      ),
    )

replace-add-Inv :
    (resource remote token key : Text) (o : Observer) (r : ObserverRegistry)
    → plain remote ≡ true
    → Inv r
    → lookup (observer_key remote token) (subs_of resource r) ≡ none
    → lookup key (subs_of resource r) ≡ some o
    → o.remote ≡ remote
    → Inv (add resource remote token (replace resource remote key r)).0
unfolding add
replace-add-Inv resource remote token key o r p v fresh found his =
    let (c, t) = found_counts resource remote key o r v.counted found his in
    record {
      counted =
          add-Counted resource remote token (replace resource remote key r)
            (replace-Counted resource remote key o r v.counted found his) p
            (ground (
              arith,
              ap (lookup (observer_key remote token)) (replace-subs_of resource remote key r),
              lookup-erase key (observer_key remote token) (subs_of resource r),
              fresh,
            ))
            (replace_alone resource remote key o r v.counted found his);
      total_capped = unfold replace in omega (arith, v.total_capped, t);
      remote_capped = λ k. ground (
        arith,
        add-count_of resource remote token k (replace resource remote key r),
        replace-count_of resource remote key k r c,
        replace-count_of resource remote key remote r c,
        v.remote_capped k,
        v.remote_capped remote,
        text_eq.beq_iff remote remote,
      );
    }

add-Inv :
    (resource remote token : Text) (r : ObserverRegistry)
    → plain remote ≡ true
    → Inv r
    → lookup (observer_key remote token) (subs_of resource r) ≡ none
    → find_remote remote (subs_of resource r) ≡ none
    → (leb max_observers_per_remote (count_of remote r) || leb max_observers_total r.total) ≡ false
    → Inv (add resource remote token r).0
unfolding add
add-Inv resource remote token r p v fresh alone room = record {
  counted =
      add-Counted resource remote token r v.counted p fresh
        (find_remote-none remote (subs_of resource r) alone);
  total_capped = ground (arith, room);
  remote_capped =
      λ k. ground (arith, room, add-count_of resource remote token k r, v.remote_capped k);
}

-- The ways a call of Register goes, on the registry in which the resource has an entry.
pub data Registered (resource remote token : Text) (r : ObserverRegistry)
    : ObserverRegistry × Option Observer → Type 0 where
  kept :
      (o : Observer)
      → lookup (observer_key remote token) (subs_of resource r) ≡ some o
      → Registered resource remote token r (r, some o)
  replaced :
      (key : Text) (o : Observer)
      → lookup (observer_key remote token) (subs_of resource r) ≡ none
      → lookup key (subs_of resource r) ≡ some o
      → o.remote ≡ remote
      → Registered resource remote token r
          (add resource remote token (replace resource remote key r))
  refused :
      lookup (observer_key remote token) (subs_of resource r) ≡ none
      → find_remote remote (subs_of resource r) ≡ none
      → (leb max_observers_per_remote (count_of remote r) || leb max_observers_total r.total) ≡ true
      → Registered resource remote token r (r, none)
  added :
      lookup (observer_key remote token) (subs_of resource r) ≡ none
      → find_remote remote (subs_of resource r) ≡ none
      → (leb max_observers_per_remote (count_of remote r) || leb max_observers_total r.total)
        ≡ false
      → Registered resource remote token r (add resource remote token r)

pub register-Registered :
    (resource remote token : Text) (r : ObserverRegistry)
    → Counted r
    → Registered resource remote token (with_resource resource r) (register resource remote token r)
unfolding register
register-Registered resource remote token r₀ v₀ =
    let r = with_resource resource r₀ in
    let v = with_resource-Counted resource r₀ v₀ in
    elim (Option-cases (lookup (observer_key remote token) (subs_of resource r))) [
      | inr (o, found) ↦ rw (found, register) (kept o found)
      | inl fresh ↦ elim (Option-cases (find_remote remote (subs_of resource r))) [
        | inr (key, older) ↦
            let (o, found, his) =
              find_remote-some remote key (subs_of resource r)
                (subs_of-Good resource r v.good).distinct older in
            rw (fresh, older, register) (replaced key o fresh found his)
        | inl alone ↦
            elim (Bool-cases (
              leb max_observers_per_remote (count_of remote r)
              || leb max_observers_total r.total)) [
                | inl full ↦ rw (fresh, alone, full, register) (refused fresh alone full)
                | inr room ↦ rw (fresh, alone, room, register) (added fresh alone room)
              ]
      ]
    ]

Registered-Inv :
    (resource remote token : Text) (r : ObserverRegistry) (s : ObserverRegistry × Option Observer)
    → plain remote ≡ true
    → Inv r
    → Registered resource remote token r s
    → Inv s.0
Registered-Inv resource remote token r _ p v (kept o found) = v
Registered-Inv resource remote token r _ p v (replaced key o fresh found his) =
    replace-add-Inv resource remote token key o r p v fresh found his
Registered-Inv resource remote token r _ p v (refused fresh alone full) = v
Registered-Inv resource remote token r _ p v (added fresh alone room) =
    add-Inv resource remote token r p v fresh alone room

pub register-Inv :
    (resource remote token : Text) (r : ObserverRegistry)
    → plain remote ≡ true
    → Inv r
    → Inv (register resource remote token r).0
register-Inv resource remote token r p v =
    Registered-Inv resource remote token (with_resource resource r) _ p
      (with_resource-Inv resource r v) (register-Registered resource remote token r v.counted)
