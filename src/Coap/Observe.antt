-- ===== src/Coap/Observe.antt =====
-- The registry of observers: internal/transport/coap/observe.go. Each call holds the mutex; a resource,
-- a remote address and a token are the bytes of their strings. Where `Register` looks for an older
-- relation of the remote, a resource has one at most, so the order of the map does not matter.
pub mod Counted
pub mod Steps
pub mod Removal
pub mod Leaving
pub mod Registering
pub mod Calls
pub mod Answers
pub mod Growth
pub mod Tests
use shark_socket.Base.{
  ℕ, zero, suc, ◌+◌, ◌-◌, ◌%◌, ◌^◌, Bool, true, false, ◌||◌, Option, none, some, List, [], ◌∷◌,
  ◌++◌, ltb, leb, if◌then◌else◌, length,
}
use shark_socket.Base.Maps.{lookup, insert, erase, text_eq}

abbrev pub max_observers_per_remote : ℕ
max_observers_per_remote = 64

abbrev pub max_observers_total : ℕ
max_observers_total = 4096

abbrev pub Text : Type 0
Text = List ℕ

pub record Observer : Type 0 where
  pub token : Text
  pub remote : Text
  pub resource : Text
  pub seq : ℕ  -- uint32

abbrev pub Subs : Type 0
Subs = List (Text × Observer)

pub record ObserverRegistry : Type 0 where
  pub subs : List (Text × Subs)
  pub remote_count : List (Text × ℕ)
  pub total : ℕ

abbrev pub empty_registry : ObserverRegistry
empty_registry = record { subs = []; remote_count = []; total = 0 }

-- The sequence number and the observer with the next one.
pub next_seq : Observer → ℕ × Observer
next_seq o = (o.seq, record o { seq = (o.seq + 1) % 2 ^ 32 })

unfoldable pub observer_key : Text → Text → Text
observer_key remote token = remote ++ b'/' ∷ token

-- `r.subs[resource]`, where a missing key reads as nil.
unfoldable pub subs_of : Text → ObserverRegistry → Subs
subs_of resource r = elim (lookup resource r.subs) [ none ↦ [] | some m ↦ m ]

pub count_of : Text → ObserverRegistry → ℕ
count_of remote r = elim (lookup remote r.remote_count) [ none ↦ 0 | some n ↦ n ]

-- `if r.subs[resource] == nil { r.subs[resource] = make(...) }`
pub with_resource : Text → ObserverRegistry → ObserverRegistry
with_resource resource r = elim (lookup resource r.subs) [
  | none ↦ record r { subs = insert resource [] r.subs }
  | some m ↦ r
]

-- The key of a relation of this remote.
pub find_remote : Text → Subs → Option Text
find_remote remote [] = none
find_remote remote ((key, o) ∷ m) =
    let rest = find_remote remote m in if text_eq.beq o.remote remote then some key else rest

-- The older relation under `key` gives way.
pub replace : Text → Text → Text → ObserverRegistry → ObserverRegistry
unfolding subs_of count_of
replace resource remote key r = record {
  subs = insert resource (erase key (subs_of resource r)) r.subs;
  remote_count =
      if ltb 0 (count_of remote r)
      then insert remote (count_of remote r - 1) r.remote_count
      else r.remote_count;
  total = r.total - 1;
}

pub add : Text → Text → Text → ObserverRegistry → ObserverRegistry × Option Observer
unfolding subs_of count_of observer_key
add resource remote token r =
    let o : Observer = record { token = token; remote = remote; resource = resource; seq = 0 } in
    (
      record {
        subs = insert resource (insert (observer_key remote token) o (subs_of resource r)) r.subs;
        remote_count = insert remote (count_of remote r + 1) r.remote_count;
        total = r.total + 1;
      },
      some o,
    )

-- `none` is a nil observer.
pub register : Text → Text → Text → ObserverRegistry → ObserverRegistry × Option Observer
unfolding with_resource find_remote replace add subs_of count_of observer_key
register resource remote token r₀ =
    let r = with_resource resource r₀ in
    elim (lookup (observer_key remote token) (subs_of resource r)) [
      | some o ↦ (r, some o)
      | none ↦ elim (find_remote remote (subs_of resource r)) [
        | some key ↦ add resource remote token (replace resource remote key r)
        | none ↦
            if leb max_observers_per_remote (count_of remote r) || leb max_observers_total r.total
            then (r, none)
            else add resource remote token r
      ]
    ]

-- `remoteCount[remote]--`, and the entry is deleted at 0.
pub uncount : Text → ObserverRegistry → List (Text × ℕ)
unfolding count_of
uncount remote r =
    if ltb 1 (count_of remote r)
    then insert remote (count_of remote r - 1) r.remote_count
    else if ltb 0 (count_of remote r)
    then erase remote r.remote_count
    else r.remote_count

-- `removeLocked`
pub remove : Text → Text → Text → ObserverRegistry → ObserverRegistry
unfolding uncount subs_of observer_key
remove resource remote token r =
    let key = observer_key remote token in
    elim (lookup key (subs_of resource r)) [
      | none ↦ r
      | some o ↦ record {
        subs = elim (erase key (subs_of resource r)) [
          | [] ↦ erase resource r.subs
          | entry ∷ m ↦ insert resource (entry ∷ m) r.subs
        ];
        remote_count = uncount remote r;
        total = r.total - 1;
      }
    ]

-- The resources that are visited; each that has the relation loses it.
pub remove_each : List (Text × Subs) → Text → Text → ObserverRegistry → ObserverRegistry
unfolding remove
remove_each [] remote token r = r
remove_each ((resource, m) ∷ rest) remote token r = elim (lookup (observer_key remote token) m) [
  | none ↦ remove_each rest remote token r
  | some o ↦ remove_each rest remote token (remove resource remote token r)
]

pub remove_by_token : Text → Text → ObserverRegistry → ObserverRegistry
unfolding remove_each
remove_by_token remote token r = remove_each r.subs remote token r

-- A resource's relations without those of the remote, and how many went.
pub drop_remote : Text → Subs → Subs × ℕ
drop_remote remote [] = ([], 0)
drop_remote remote ((key, o) ∷ m) =
    let (m', n) = drop_remote remote m in
    if text_eq.beq o.remote remote then (m', n + 1) else ((key, o) ∷ m', n)

-- `if len(subs) == 0 { delete(r.subs, resource) }`
pub unless_empty : Text → Subs → List (Text × Subs) → List (Text × Subs)
unless_empty resource [] rest = rest
unless_empty resource (entry ∷ m) rest = (resource, entry ∷ m) ∷ rest

pub drop_everywhere : Text → List (Text × Subs) → List (Text × Subs) × ℕ
unfolding drop_remote unless_empty
drop_everywhere remote [] = ([], 0)
drop_everywhere remote ((resource, m) ∷ rest) =
    let (rest', n) = drop_everywhere remote rest in
    let (m', k) = drop_remote remote m in (unless_empty resource m' rest', k + n)

pub remove_by_session : Text → ObserverRegistry → ObserverRegistry
unfolding drop_everywhere
remove_by_session remote r =
    let (subs, n) = drop_everywhere remote r.subs in
    record { subs = subs; remote_count = erase remote r.remote_count; total = r.total - n }

pub has_observers : Text → ObserverRegistry → Bool
unfolding count_of
has_observers remote r = ltb 0 (count_of remote r)

abbrev observers : Subs → List Observer
observers [] = []
observers ((key, o) ∷ m) = o ∷ observers m

pub notify : Text → ObserverRegistry → List Observer
unfolding subs_of
notify resource r = observers (subs_of resource r)
