-- ===== src/Coap/Observe/Removal.antt =====
-- The removals of the registry keep its counters.
use shark_socket.Base.{
  ◌-◌, ◌≡◌, refl, sym, ap, subst, inl, inr, true, some, [], ◌∷◌, arith, if◌then◌else◌, Option-cases,
}
use shark_socket.Base.Maps.{lookup, insert, erase, text_eq, lookup-insert, lookup-erase, lookup-All}
use shark_socket.Base.Sums.{sum_over}
use shark_socket.Coap.Observe.{
  Text, Observer, Subs, ObserverRegistry, observer_key, subs_of, count_of, uncount, remove,
}
use shark_socket.Coap.Observe.Counted.{
  each, from, plain, Keyed, Good, Counted, set-Counted, erase-Counted, subs_of-Good, subs_of_part,
  from-remote,
}
use shark_socket.Coap.Observe.Steps.{sum_over-erase_found, erase-Good}

-- The address before the first slash is the remote.
pub observer_key-remote :
    (a b s t : Text) → plain a ≡ true → plain b ≡ true → observer_key a s ≡ observer_key b t → a ≡ b
unfolding observer_key plain
observer_key-remote [] [] s t p q h = refl
observer_key-remote [] (d ∷ b) s t p q h = absurd (ground (arith, h, q))
observer_key-remote (c ∷ a) [] s t p q h = absurd (ground (arith, h, p))
observer_key-remote (c ∷ a) (d ∷ b) s t p q h = ground (arith, h, p, q, observer_key-remote a b s t)

pub observer_key-token : (a s t : Text) → observer_key a s ≡ observer_key a t → s ≡ t
unfolding observer_key
observer_key-token [] s t h = ground (arith, h)
observer_key-token (c ∷ a) s t h = ground (arith, h, observer_key-token a s t)

pub uncount-count_of :
    (remote k : Text) (r s : ObserverRegistry)
    → s.remote_count ≡ uncount remote r
    → count_of k s ≡ count_of k r - (if text_eq.beq remote k then 1 else 0)
unfolding uncount count_of
uncount-count_of remote k r s same = ground (
  arith,
  ap (lookup k) same,
  lookup-insert remote k (count_of remote r - 1) r.remote_count,
  lookup-erase remote k r.remote_count,
  text_eq.beq_iff remote k,
  ap (λ t. count_of t r),
)

-- What is found under a remote's key is a relation of the remote.
pub found_remote :
    (resource remote token : Text) (o : Observer) (r : ObserverRegistry)
    → plain remote ≡ true
    → Counted r
    → lookup (observer_key remote token) (subs_of resource r) ≡ some o
    → (o.remote ≡ remote) × (o.token ≡ token)
found_remote resource remote token o r p v found =
    let g = subs_of-Good resource r v.good in
    let kept =
      lookup-All (λ entry. Keyed resource entry.0 entry.1) (observer_key remote token) o
        (subs_of resource r) g.keyed found in
    let his =
      observer_key-remote o.remote remote o.token token kept.own_plain p (sym kept.own_key) in
    (
      his,
      observer_key-token remote o.token token
          (subst (λ t. observer_key t o.token ≡ observer_key remote token) his (sym kept.own_key)),
    )

-- The registry without the relation `o` of a resource, of which `rest` stays.
without-Counted :
    (resource key remote : Text) (o : Observer) (r : ObserverRegistry) (rest : Subs)
    → Counted r
    → lookup key (subs_of resource r) ≡ some o
    → o.remote ≡ remote
    → erase key (subs_of resource r) ≡ rest
    → Counted (record {
      subs = elim rest [
        | [] ↦ erase resource r.subs
        | entry ∷ m ↦ insert resource (entry ∷ m) r.subs
      ];
      remote_count = uncount remote r;
      total = r.total - 1;
    })
unfolding sum_over
without-Counted resource key remote o r [] v found his same =
    let g = subs_of-Good resource r v.good in
    erase-Counted r _ resource v refl
      (omega (
        arith,
        sum_over-erase_found each key o _ g.distinct found,
        subs_of_part each resource r v.resources,
        v.counts_all,
        ap (sum_over each) same,
      ))
      (λ k. ground (
        arith,
        sum_over-erase_found (from k) key o _ g.distinct found,
        from-remote remote k o his,
        subs_of_part (from k) resource r v.resources,
        v.counts_remote k,
        uncount-count_of remote k r
            (record {
              subs = erase resource r.subs;
              remote_count = uncount remote r;
              total = r.total - 1;
            })
            refl,
        ap (sum_over (from k)) same,
      ))
without-Counted resource key remote o r (entry ∷ m) v found his same =
    let g = subs_of-Good resource r v.good in
    set-Counted r _ resource (entry ∷ m) v
      (subst (Good resource) same (erase-Good resource key _ g)) refl
      (omega (
        arith,
        sum_over-erase_found each key o _ g.distinct found,
        subs_of_part each resource r v.resources,
        v.counts_all,
        ap (sum_over each) same,
      ))
      (λ k. ground (
        arith,
        sum_over-erase_found (from k) key o _ g.distinct found,
        from-remote remote k o his,
        subs_of_part (from k) resource r v.resources,
        v.counts_remote k,
        uncount-count_of remote k r
            (record {
              subs = insert resource (entry ∷ m) r.subs;
              remote_count = uncount remote r;
              total = r.total - 1;
            })
            refl,
        ap (sum_over (from k)) same,
      ))

pub remove-Counted :
    (resource remote token : Text) (r : ObserverRegistry)
    → plain remote ≡ true
    → Counted r
    → Counted (remove resource remote token r)
unfolding remove
remove-Counted resource remote token r p v =
    elim (Option-cases (lookup (observer_key remote token) (subs_of resource r))) [
      | inl missing ↦ rw (missing, remove) v
      | inr (o, found) ↦
          rw (found, remove)
            (without-Counted resource (observer_key remote token) remote o r _ v found
              (found_remote resource remote token o r p v found).0 refl)
    ]
