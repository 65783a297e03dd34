-- ===== src/Coap/Message/Sorted.antt =====
-- The sorted option numbers: they rise, they fit, and reading them back gives the map.
use shark_socket.Base.{
  ℕ, ◌≤◌, ◌<◌, ◌≡◌, refl, sym, ap, ◌∙◌, none, some, List, [], ◌∷◌, arith, Bool, false, ◌||◌, leb,
  ◌==◌, ==_iff, if◌then◌else◌, length, All, Bool-cases, inl, inr,
}
use shark_socket.Base.Maps.{lookup, insert, lookup-insert, nat_eq}
use shark_socket.Coap.Message.{Options, insert_sorted, sort, nums_of, sorted_option_nums, value_of}
use shark_socket.Coap.Message.Options.{Rising, insert_all}

elem : ℕ → List ℕ → Bool
elem j [] = false
elem j (n ∷ ns) = (n == j) || elem j ns

lookup-insert_all :
    (options : Options) (nums : List ℕ) (acc : Options) (j : ℕ)
    → lookup j (insert_all options nums acc)
      ≡ (if elem j nums then some (value_of options j) else lookup j acc)
unfolding insert_all elem
lookup-insert_all options [] acc j = refl
lookup-insert_all options (n ∷ ns) acc j = ground (
  arith,
  lookup-insert_all options ns (insert n (value_of options n) acc) j,
  lookup-insert n j (value_of options n) acc,
  ==_iff n j,
)

elem-insert_sorted : (j n : ℕ) (ns : List ℕ) → elem j (insert_sorted n ns) ≡ ((n == j) || elem j ns)
unfolding elem insert_sorted
elem-insert_sorted j n [] = refl
elem-insert_sorted j n (m ∷ ms) = ground (arith, elem-insert_sorted j n ms)

elem-sort : (j : ℕ) (ns : List ℕ) → elem j (sort ns) ≡ elem j ns
unfolding elem sort
elem-sort j [] = refl
elem-sort j (n ∷ ns) = elem-insert_sorted j n (sort ns) ∙ ap (λ b. (n == j) || b) (elem-sort j ns)

-- A number is a key exactly when it has a value.
lookup-elem :
    (j : ℕ) (options : Options)
    → lookup j options ≡ (if elem j (nums_of options) then some (value_of options j) else none)
unfolding elem lookup value_of
lookup-elem j [] = refl
lookup-elem j ((n, v) ∷ options) = ground (arith, lookup-elem j options)

-- Reading the sorted options back gives the map.
pub lookup-insert_all_sorted :
    (options : Options) (j : ℕ)
    → lookup j (insert_all options (sorted_option_nums options) []) ≡ lookup j options
unfolding sorted_option_nums lookup
lookup-insert_all_sorted options j =
    lookup-insert_all options (sort (nums_of options)) [] j
    ∙ rw (elem-sort j (nums_of options)) (sym (lookup-elem j options))

-- An option that fits the wire: a 16-bit number and a length below 2 ^ 16.
abbrev pub Fits : ℕ × List ℕ → Type 0
Fits o = (o.0 < 65536) × (length o.1 < 65536)

abbrev Short : ℕ → Type 0
Short n = n < 65536

-- The list rises from `prev` on.
abbrev IsSortedFrom : ℕ → List ℕ → Type 0
IsSortedFrom prev [] = Unit {0}
IsSortedFrom prev (n ∷ ns) = (prev ≤ n) × IsSortedFrom n ns

insert_sorted-IsSortedFrom :
    (prev n : ℕ) (ns : List ℕ)
    → prev ≤ n
    → IsSortedFrom prev ns
    → IsSortedFrom prev (insert_sorted n ns)
unfolding insert_sorted
insert_sorted-IsSortedFrom prev n [] h s = omega arith
insert_sorted-IsSortedFrom prev n (m ∷ ms) h (le, s) = elim (Bool-cases (leb n m)) [
  | inl e ↦ rw e (h, (ground arith, s))
  | inr e ↦ rw e (le, insert_sorted-IsSortedFrom m n ms (ground arith) s)
]

sort-IsSortedFrom : (ns : List ℕ) → IsSortedFrom 0 (sort ns)
unfolding sort
sort-IsSortedFrom [] = tt
sort-IsSortedFrom (n ∷ ns) =
    insert_sorted-IsSortedFrom 0 n (sort ns) (omega arith) (sort-IsSortedFrom ns)

insert_sorted-All :
    (n : ℕ) (ns : List ℕ) → n < 65536 → All Short ns → All Short (insert_sorted n ns)
unfolding insert_sorted
insert_sorted-All n [] h a = (h, tt)
insert_sorted-All n (m ∷ ms) h (lt, a) = elim (Bool-cases (leb n m)) [
  | inl e ↦ rw e (h, (lt, a))
  | inr e ↦ rw e (lt, insert_sorted-All n ms h a)
]

sort-All : (ns : List ℕ) → All Short ns → All Short (sort ns)
unfolding sort
sort-All [] a = tt
sort-All (n ∷ ns) (lt, a) = insert_sorted-All n (sort ns) lt (sort-All ns a)

nums_of-All : (options : Options) → All Fits options → All Short (nums_of options)
nums_of-All [] a = tt
nums_of-All (o ∷ options) (f, a) = (f.0, nums_of-All options a)

length-value_of :
    (options : Options) (j : ℕ) → All Fits options → length (value_of options j) < 65536
unfolding value_of lookup
length-value_of [] j a = omega arith
length-value_of ((n, v) ∷ options) j (f, a) = ground (arith, length-value_of options j a)

Rising-sorted :
    (options : Options) (nums : List ℕ) (prev : ℕ)
    → All Fits options
    → IsSortedFrom prev nums
    → All Short nums
    → Rising options prev nums
Rising-sorted options [] prev f s a = tt
Rising-sorted options (n ∷ ns) prev f (le, s) (lt, a) =
    (le, lt, length-value_of options n f, Rising-sorted options ns n f s a)

pub sorted_option_nums-Rising :
    (options : Options) → All Fits options → Rising options 0 (sorted_option_nums options)
unfolding sorted_option_nums
sorted_option_nums-Rising options f =
    Rising-sorted options _ 0 f (sort-IsSortedFrom (nums_of options))
      (sort-All _ (nums_of-All options f))
