-- ===== src/Coap/Observe/Growth.antt =====
-- What refused calls of `Register` leave behind.
use shark_socket.Base.{
  ◌+◌, ◌≤◌, ◌≡◌, refl, ap, ◌∙◌, true, false, ◌||◌, none, Option, map, List, [], ◌∷◌, arith, leb,
  length, All, All-zip,
}
use shark_socket.Base.Maps.{lookup, insert, text_eq, lookup-insert, length-insert_fresh}
use shark_socket.Coap.Observe.{
  Text, Observer, ObserverRegistry, observer_key, subs_of, count_of, with_resource, find_remote,
  register, max_observers_per_remote, max_observers_total,
}
use shark_socket.Coap.Observe.Steps.{subs_of_missing, with_resource-subs_of, with_resource_counters}

-- A refused call has made an entry for the resource.
register_refused :
    (resource remote token : Text) (r : ObserverRegistry)
    → lookup resource r.subs ≡ none
    → max_observers_per_remote ≤ count_of remote r
    → register resource remote token r ≡ (record r { subs = insert resource [] r.subs }, none)
unfolding lookup find_remote register
register_refused resource remote token r missing full =
    let s = with_resource resource r in
    let bare : subs_of resource s ≡ [] =
      with_resource-subs_of resource r ∙ subs_of_missing resource r missing in
    let fresh : lookup (observer_key remote token) (subs_of resource s) ≡ none =
      ap (lookup (observer_key remote token)) bare in
    let alone : find_remote remote (subs_of resource s) ≡ none = ap (find_remote remote) bare in
    let no_room : (leb max_observers_per_remote (count_of remote s)
          || leb max_observers_total s.total)
        ≡ true =
      ground (arith, (with_resource_counters resource r).1 remote, full) in
    rw (fresh, alone, no_room, register) (ap (λ t. (t, none)) (rw (missing, with_resource) refl))

-- A remote asks for one resource after the other: the answers, and the registry behind them.
unfoldable pub asks :
    Text → Text → List Text → ObserverRegistry → List (Option Observer) × ObserverRegistry
asks remote token [] r = ([], r)
asks remote token (resource ∷ names) r =
    let (r₁, answer) = register resource remote token r in
    let (answers, r₂) = asks remote token names r₁ in (answer ∷ answers, r₂)

abbrev pub Different : List Text → Type 0
Different [] = Unit
Different (name ∷ names) = All (λ other. text_eq.beq name other ≡ false) names × Different names

-- A remote that is at its limit and asks for different resources that the map does not have gets no
-- observer from any of these calls, and each call leaves one entry more in the map of resources,
-- while the counts of the remotes and the total stay.
pub length-asks :
    (remote token : Text) (names : List Text) (r : ObserverRegistry)
    → Different names
    → All (λ name. lookup name r.subs ≡ none) names
    → max_observers_per_remote ≤ count_of remote r
    → let (answers, after) = asks remote token names r in
      (answers ≡ map (λ name. none) names)
      × (length after.subs ≡ length r.subs + length names)
      × (after.remote_count ≡ r.remote_count)
      × (after.total ≡ r.total)
unfolding asks count_of
length-asks remote token [] r d a full = (refl, omega arith, refl, refl)
length-asks remote token (resource ∷ names) r (other, d) (missing, a) full =
    rw (register_refused resource remote token r missing full, asks)
      (let (refused, l, c, t) =
          length-asks remote token names (record r { subs = insert resource [] r.subs }) d
            (All-zip names
              (λ name differs absent.
                ground (arith, lookup-insert resource name [] r.subs, differs, absent))
              other a)
            full in
        (
          ap (λ answers. none ∷ answers) refused,
          omega (arith, l, length-insert_fresh resource [] r.subs missing),
          c,
          t,
        ))
