-- ===== src/Runtime/Gateway/Registering.antt =====
-- The servers that a gateway has after calls of `Register`.
use shark_socket.Base.{
  ℕ, ◌≡◌, ◌↔◌, refl, sym, ap, ◌∙◌, inl, inr, Bool, true, false, none, some, List, [], ◌∷◌, ◌++◌,
  append_assoc, append-nil, arith, ◌==◌, if◌then◌else◌, Bool-cases, Option-cases,
}
use shark_socket.Base.Maps.{lookup, insert, lookup-insert, nat_eq}
use shark_socket.Runtime.Chain.{Plugin}
use shark_socket.Runtime.Gateway.{Server, Gateway, pick, snapshot, register}

abbrev pub member : ℕ → List ℕ → Bool
member p [] = false
member p (q ∷ order) = let rest = member p order in if q == p then true else rest

-- The servers whose protocol none before them has, and none of `seen`.
abbrev pub first_of_each : List ℕ → List Server → List Server
first_of_each seen [] = []
first_of_each seen (s ∷ servers) =
    let fresh = first_of_each (seen ++ s.protocol ∷ []) servers in
    let again = first_of_each seen servers in if member s.protocol seen then again else s ∷ fresh

-- Each protocol of the order has its server, and no other one has.
abbrev Matched : Gateway → Type 0
Matched g = (p : ℕ) → (lookup p g.servers ≡ none) ↔ (member p g.order ≡ false)

member-append :
    (p q : ℕ) (order : List ℕ)
    → member p (order ++ q ∷ []) ≡ (if member p order then true else (q == p))
member-append p q [] = ground arith
member-append p q (r ∷ order) = ground (arith, member-append p q order)

pick-insert :
    (s : Server) (order : List ℕ) (servers : List (ℕ × Server))
    → member s.protocol order ≡ false
    → pick order (insert s.protocol s servers) ≡ pick order servers
unfolding pick
pick-insert s [] servers h = refl
pick-insert s (p ∷ order) servers h =
    ground (arith, h, lookup-insert s.protocol p s servers, pick-insert s order servers)

pick-append :
    (a b : List ℕ) (servers : List (ℕ × Server))
    → pick (a ++ b) servers ≡ pick a servers ++ pick b servers
unfolding pick
pick-append [] b servers = refl
pick-append (p ∷ a) b servers = ground (arith, pick-append a b servers)

-- The gateway after these servers were handed to Register, whatever it answered.
pub register_each : (E : Type 0) → List Server → Gateway → Gateway
unfolding register
register_each E [] g = g
register_each E (s ∷ servers) g = register_each E servers (register {E = E} (some s) g).0

abbrev with_server : Server → Gateway → Gateway
with_server s g = record g {
  servers = insert s.protocol s g.servers;
  order = g.order ++ s.protocol ∷ [];
}

found_member :
    (g : Gateway) (p : ℕ)
    → Matched g
    → member p g.order ≡ true
    → (s : Server) × (lookup p g.servers ≡ some s)
found_member g p m seen = elim (Option-cases (lookup p g.servers)) [
  | inl absent ↦ absurd (ground (arith, seen, (m p).0 absent))
  | inr there ↦ there
]

register_again :
    (E : Type 0) (s other : Server) (g : Gateway)
    → g.started ≡ false
    → lookup s.protocol g.servers ≡ some other
    → (register {E = E} (some s) g).0 ≡ g
unfolding register
register_again E s other g idle there = ground (arith, idle, there)

register_fresh :
    (E : Type 0) (s : Server) (g : Gateway)
    → g.started ≡ false
    → lookup s.protocol g.servers ≡ none
    → (register {E = E} (some s) g).0 ≡ with_server s g
unfolding register
register_fresh E s g idle absent = ground (arith, idle, absent)

with_server-Matched : (s : Server) (g : Gateway) → Matched g → Matched (with_server s g)
with_server-Matched s g m p = (
  λ h. ground (
    arith,
    h,
    lookup-insert s.protocol p s g.servers,
    member-append p s.protocol g.order,
    (m p).0,
  ),
  λ h. ground (
    arith,
    h,
    lookup-insert s.protocol p s g.servers,
    member-append p s.protocol g.order,
    (m p).1,
  ),
)

snapshot-with_server :
    (s : Server) (g : Gateway)
    → member s.protocol g.order ≡ false
    → snapshot (with_server s g) ≡ snapshot g ++ s ∷ []
unfolding snapshot
snapshot-with_server s g fresh =
    pick-append g.order (s.protocol ∷ []) (insert s.protocol s g.servers)
    ∙ ap (λ t. t ++ pick (s.protocol ∷ []) (insert s.protocol s g.servers))
        (pick-insert s g.order g.servers fresh)
    ∙ ap (λ t. pick g.order g.servers ++ t)
        (unfold pick in ground (arith, lookup-insert s.protocol s.protocol s g.servers))

register_each_from :
    (E : Type 0) (servers : List Server) (g : Gateway)
    → g.started ≡ false
    → Matched g
    → snapshot (register_each E servers g) ≡ snapshot g ++ first_of_each g.order servers
unfolding register_each
register_each_from E [] g idle m = sym (append-nil (snapshot g))
register_each_from E (s ∷ servers) g idle m = elim (Bool-cases (member s.protocol g.order)) [
  | inl seen ↦
      let (s', there) = found_member g s.protocol m seen in
      let stays : (register {E = E} (some s) g).0 ≡ g = register_again E s s' g idle there in
      ground (
        arith,
        seen,
        ap (λ t. snapshot (register_each E servers t)) stays,
        register_each_from E servers g idle m,
      )
  | inr fresh ↦
      let absent = (m s.protocol).1 fresh in
      let added = register_fresh E s g idle absent in
      ap (λ t. snapshot (register_each E servers t)) added
      ∙ register_each_from E servers (with_server s g) idle (with_server-Matched s g m)
      ∙ ap (λ t. t ++ first_of_each (g.order ++ s.protocol ∷ []) servers)
          (snapshot-with_server s g fresh)
      ∙ append_assoc (snapshot g) (s ∷ []) _
      ∙ ground (arith, fresh)
]

abbrev pub idle_gateway : List Plugin → Bool → Gateway
idle_gateway plugins admin_addr = record {
  servers = [];
  order = [];
  plugins = plugins;
  admin_addr = admin_addr;
  admin = false;
  started = false;
}

pub register_each-first_of_each :
    (E : Type 0) (servers : List Server) (plugins : List Plugin) (admin_addr : Bool)
    → snapshot (register_each E servers (idle_gateway plugins admin_addr))
      ≡ first_of_each [] servers
unfolding snapshot pick lookup
register_each-first_of_each E servers plugins admin_addr =
    register_each_from E servers (idle_gateway plugins admin_addr) refl
      (λ p. (λ h. refl, λ h. refl))
