-- ===== src/Base/Maps.antt =====
-- A Go map as an association list, generic over the comparison of its keys. Reading and writing
-- follow the map; the order of the list stands for an iteration order, which Go leaves open.
use Prim.Native.Nat.{ℕ}
use mathlib.Core.Path.{◌≡◌, refl}
use mathlib.Core.Logic.{◌↔◌}
use mathlib.Core.Bool.{Bool, true, false}
use mathlib.Core.Option.{Option, none, some}
use mathlib.Core.List.{List, [], ◌∷◌}
use native.Mathlib.Omega.{arith}
use shark_socket.Base.Tests.{if◌then◌else◌, ◌==◌, ==_iff, Bool-cases}
use shark_socket.Base.Lists.{length, All, All-zip}
use mathlib.Core.Logic.{inl, inr}
use mathlib.Core.Path.{ap, sym, subst, ◌∙◌}
use Prim.Native.Nat.{◌+◌}

-- The comparison that Go's map makes of two keys.
pub record Eq {ℓ} (K : Type ℓ) : Type ℓ where
  pub beq : K → K → Bool
  pub beq_iff : (a b : K) → (beq a b ≡ true) ↔ (a ≡ b)

instance abbrev pub nat_eq : Eq ℕ
nat_eq = record { beq = ◌==◌; beq_iff = ==_iff }

module _ {ℓ κ} {K : Type ℓ} {V : Type κ} ⦃e : Eq K⦄ where
  unfoldable pub lookup : K → List (K × V) → Option V
  lookup k [] = none
  lookup k ((j, v) ∷ m) = if e.beq j k then some v else lookup k m

  -- `m[k] = v`
  unfoldable pub insert : K → V → List (K × V) → List (K × V)
  insert k v [] = (k, v) ∷ []
  insert k v ((j, w) ∷ m) = if e.beq j k then (k, v) ∷ m else (j, w) ∷ insert k v m

  -- `delete(m, k)`
  unfoldable pub erase : K → List (K × V) → List (K × V)
  erase k [] = []
  erase k ((j, w) ∷ m) = if e.beq j k then erase k m else (j, w) ∷ erase k m

  pub lookup-insert :
      (k j : K) (v : V) (m : List (K × V))
      → lookup j (insert k v m) ≡ (if e.beq k j then some v else lookup j m)
  unfolding lookup insert
  lookup-insert k j v [] = refl
  lookup-insert k j v ((i, w) ∷ m) =
      ground (arith, e.beq_iff k j, e.beq_iff i k, e.beq_iff i j, lookup-insert k j v m)

  pub lookup-erase :
      (k j : K) (m : List (K × V)) → lookup j (erase k m) ≡ (if e.beq k j then none else lookup j m)
  unfolding lookup erase
  lookup-erase k j [] = ground arith
  lookup-erase k j ((i, w) ∷ m) =
      ground (arith, e.beq_iff k j, e.beq_iff i k, e.beq_iff i j, lookup-erase k j m)

  -- A Go map has every key once.
  abbrev pub Distinct : List (K × V) → Type κ
  Distinct [] = Unit {κ}
  Distinct ((k, v) ∷ m) = (lookup k m ≡ none) × Distinct m

  pub insert-Distinct : (k : K) (v : V) (m : List (K × V)) → Distinct m → Distinct (insert k v m)
  unfolding lookup insert
  insert-Distinct k v [] d = (refl, tt)
  insert-Distinct k v ((i, w) ∷ m) (fresh, d) = elim (Bool-cases (e.beq i k)) [
    | inl same ↦ rw same (ap (λ t. lookup t m) (sym ((e.beq_iff i k).0 same)) ∙ fresh, d)
    | inr other ↦
        rw (other, lookup-insert k i v m)
          (ground (arith, e.beq_iff i k, e.beq_iff k i), insert-Distinct k v m d)
  ]

  pub erase-Distinct : (k : K) (m : List (K × V)) → Distinct m → Distinct (erase k m)
  unfolding lookup erase
  erase-Distinct k [] d = tt
  erase-Distinct k ((i, w) ∷ m) (fresh, d) = elim (Bool-cases (e.beq i k)) [
    | inl same ↦ rw same (erase-Distinct k m d)
    | inr other ↦ rw (other, lookup-erase k i m) (ground (arith, fresh), erase-Distinct k m d)
  ]

  pub length-insert_fresh :
      (k : K) (v : V) (m : List (K × V)) → lookup k m ≡ none → length (insert k v m) ≡ length m + 1
  unfolding lookup insert
  length-insert_fresh k v [] fresh = refl
  length-insert_fresh k v ((i, w) ∷ m) fresh = ground (arith, length-insert_fresh k v m)

  pub length-insert_present :
      (k : K) (v w : V) (m : List (K × V)) → lookup k m ≡ some w → length (insert k v m) ≡ length m
  unfolding lookup insert
  length-insert_present k v w [] present = ground arith
  length-insert_present k v w ((i, u) ∷ m) present = ground (arith, length-insert_present k v w m)

  pub erase-fresh : (k : K) (m : List (K × V)) → lookup k m ≡ none → erase k m ≡ m
  unfolding lookup erase
  erase-fresh k [] fresh = refl
  erase-fresh k ((i, u) ∷ m) fresh = ground (arith, erase-fresh k m)

  pub length-erase_present :
      (k : K) (w : V) (m : List (K × V))
      → Distinct m
      → lookup k m ≡ some w
      → length (erase k m) + 1 ≡ length m
  unfolding lookup erase
  length-erase_present k w [] d present = ground arith
  length-erase_present k w ((i, u) ∷ m) (fresh, d) present = elim (Bool-cases (e.beq i k)) [
    | inl same ↦ rw same (
        omega (
          arith,
          ap (λ t. length (erase t m)) (sym ((e.beq_iff i k).0 same)),
          ap (λ t. length t) (erase-fresh i m fresh),
        ))
    | inr other ↦ ground (arith, length-erase_present k w m d)
  ]

  -- Each entry of a map is found under its key.
  pub All-lookup :
      (m : List (K × V)) → Distinct m → All (λ entry. lookup entry.0 m ≡ some entry.1) m
  unfolding lookup
  All-lookup [] d = tt
  All-lookup ((k, v) ∷ m) (fresh, d) = (
    rw ((e.beq_iff k k).1 refl),
    All-zip m
        (λ entry here same. ground (arith, here, fresh, e.beq_iff k entry.0, ap (λ t. lookup t m)))
        (All-lookup m d) (All-lookup m d),
  )

module _ {ℓ κ μ} {K : Type ℓ} {V : Type κ} ⦃e : Eq K⦄ (P : K × V → Type μ) where
  pub insert-All : (k : K) (v : V) (m : List (K × V)) → P (k, v) → All P m → All P (insert k v m)
  unfolding insert
  insert-All k v [] h a = (h, tt)
  insert-All k v ((j, w) ∷ m) h (b, a) = elim (Bool-cases (e.beq j k)) [
    | inl same ↦ rw same (h, a)
    | inr other ↦ rw other (b, insert-All k v m h a)
  ]

  pub erase-All : (k : K) (m : List (K × V)) → All P m → All P (erase k m)
  unfolding erase
  erase-All k [] a = tt
  erase-All k ((j, w) ∷ m) (b, a) = elim (Bool-cases (e.beq j k)) [
    | inl same ↦ rw same (erase-All k m a)
    | inr other ↦ rw other (b, erase-All k m a)
  ]

  pub lookup-All : (k : K) (v : V) (m : List (K × V)) → All P m → lookup k m ≡ some v → P (k, v)
  unfolding lookup
  lookup-All k v [] a h = absurd (ground (arith, h))
  lookup-All k v ((j, w) ∷ m) (b, a) h = elim (Bool-cases (e.beq j k)) [
    | inl same ↦ subst P (ground (arith, h, same, (e.beq_iff j k).0 same)) b
    | inr other ↦ lookup-All k v m a (ground (arith, h, other))
  ]

-- Strings and byte slices as keys.
unfoldable pub text_beq : List ℕ → List ℕ → Bool
text_beq [] [] = true
text_beq [] (d ∷ t) = false
text_beq (c ∷ s) [] = false
text_beq (c ∷ s) (d ∷ t) = let rest = text_beq s t in if c == d then rest else false

pub text_beq_iff : (s t : List ℕ) → (text_beq s t ≡ true) ↔ (s ≡ t)
unfolding text_beq
text_beq_iff [] [] = ground arith
text_beq_iff [] (d ∷ t) = ground arith
text_beq_iff (c ∷ s) [] = ground arith
text_beq_iff (c ∷ s) (d ∷ t) = ground (arith, text_beq_iff s t)

instance abbrev pub text_eq : Eq (List ℕ)
text_eq = record { beq = text_beq; beq_iff = text_beq_iff }
