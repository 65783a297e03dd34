-- ===== src/Runtime/Chain/Order.antt =====
-- The order of the plugins in a view.
use shark_socket.Base.{
  ℕ, ◌≤◌, ◌≡◌, refl, ◌∙◌, inl, inr, Option, List, [], ◌∷◌, ◌++◌, arith, leb, ◌==◌, if◌then◌else◌,
  Bool-cases, All,
}
use shark_socket.Runtime.Chain.{Plugin, insert_stable, sort_stable, not_nil, append}

-- The plugins with this priority, in their order.
pub at_priority : ℕ → List Plugin → List Plugin
at_priority n [] = []
at_priority n (p ∷ plugins) =
    let rest = at_priority n plugins in if p.priority == n then p ∷ rest else rest

abbrev pub Sorted : List Plugin → Type 0
Sorted [] = Unit {0}
Sorted (p ∷ plugins) = All (λ q. p.priority ≤ q.priority) plugins × Sorted plugins

at_priority-append :
    (n : ℕ) (xs ys : List Plugin) → at_priority n (xs ++ ys) ≡ at_priority n xs ++ at_priority n ys
unfolding at_priority
at_priority-append n [] ys = refl
at_priority-append n (p ∷ xs) ys = ground (arith, at_priority-append n xs ys)

at_priority-insert_stable :
    (n : ℕ) (p : Plugin) (xs : List Plugin)
    → at_priority n (insert_stable p xs) ≡ at_priority n (p ∷ xs)
unfolding at_priority insert_stable
at_priority-insert_stable n p [] = refl
at_priority-insert_stable n p (q ∷ xs) = ground (arith, at_priority-insert_stable n p xs)

at_priority-sort_stable :
    (n : ℕ) (xs : List Plugin) → at_priority n (sort_stable xs) ≡ at_priority n xs
unfolding sort_stable at_priority
at_priority-sort_stable n [] = refl
at_priority-sort_stable n (p ∷ xs) =
    at_priority-insert_stable n p (sort_stable xs) ∙ ground (arith, at_priority-sort_stable n xs)

insert_stable-above :
    (n : ℕ) (p : Plugin) (xs : List Plugin)
    → n ≤ p.priority
    → All (λ q. n ≤ q.priority) xs
    → All (λ q. n ≤ q.priority) (insert_stable p xs)
unfolding insert_stable
insert_stable-above n p [] h a = (h, tt)
insert_stable-above n p (q ∷ xs) h (b, a) = elim (Bool-cases (leb p.priority q.priority)) [
  | inl le ↦ rw le (h, (b, a))
  | inr gt ↦ rw gt (b, insert_stable-above n p xs h a)
]

above_trans :
    (m n : ℕ) (xs : List Plugin)
    → m ≤ n
    → All (λ q. n ≤ q.priority) xs
    → All (λ q. m ≤ q.priority) xs
above_trans m n [] h a = tt
above_trans m n (q ∷ xs) h (b, a) = (omega arith, above_trans m n xs h a)

insert_stable-Sorted : (p : Plugin) (xs : List Plugin) → Sorted xs → Sorted (insert_stable p xs)
unfolding insert_stable
insert_stable-Sorted p [] s = (tt, tt)
insert_stable-Sorted p (q ∷ xs) (a, s) = elim (Bool-cases (leb p.priority q.priority)) [
  | inl le ↦ rw le ((ground arith, above_trans p.priority q.priority xs (ground arith) a), (a, s))
  | inr gt ↦
      rw gt (insert_stable-above q.priority p xs (ground arith) a, insert_stable-Sorted p xs s)
]

sort_stable-Sorted : (xs : List Plugin) → Sorted (sort_stable xs)
unfolding sort_stable
sort_stable-Sorted [] = tt
sort_stable-Sorted (p ∷ xs) = insert_stable-Sorted p (sort_stable xs) (sort_stable-Sorted xs)

-- The plugins of a view are in the order of their priorities, and for each priority those that were
-- there come first, in their order, and then the new ones that are not nil, in theirs.
pub append-stable :
    (plugins : List (Option Plugin)) (current : List Plugin) (n : ℕ)
    → Sorted (append plugins current)
      × (at_priority n (append plugins current)
          ≡ at_priority n current ++ at_priority n (not_nil plugins))
unfolding append
append-stable plugins current n = (
  sort_stable-Sorted (current ++ not_nil plugins),
  at_priority-sort_stable n (current ++ not_nil plugins)
      ∙ at_priority-append n current (not_nil plugins),
)
