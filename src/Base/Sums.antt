-- ===== src/Base/Sums.antt =====
-- What the values of a map weigh together.
use Prim.Native.Nat.{ℕ, ◌+◌, ◌≤◌}
use mathlib.Core.Path.{◌≡◌, refl, ap, sym}
use mathlib.Core.Logic.{inl, inr}
use mathlib.Core.Option.{Option, none, some}
use mathlib.Core.List.{List, [], ◌∷◌}
use native.Mathlib.Omega.{arith}
use shark_socket.Base.Tests.{Bool-cases}
use shark_socket.Base.Maps.{Eq, lookup, insert, erase, erase-fresh, Distinct}

abbrev pub weight {κ} : {V : Type κ} → (V → ℕ) → Option V → ℕ
weight f none = 0
weight f (some v) = f v

module _ {ℓ κ} {K : Type ℓ} {V : Type κ} (f : V → ℕ) where
  unfoldable pub sum_over : List (K × V) → ℕ
  sum_over [] = 0
  sum_over ((k, v) ∷ m) = f v + sum_over m

module _ {ℓ κ} {K : Type ℓ} {V : Type κ} ⦃e : Eq K⦄ (f : V → ℕ) where
  pub sum_over-insert :
      (k : K) (v : V) (m : List (K × V))
      → sum_over f (insert k v m) + weight f (lookup k m) ≡ sum_over f m + f v
  unfolding sum_over insert lookup
  sum_over-insert k v [] = omega arith
  sum_over-insert k v ((j, w) ∷ m) = ground (arith, sum_over-insert k v m)

  pub sum_over-erase :
      (k : K) (m : List (K × V))
      → Distinct m
      → sum_over f (erase k m) + weight f (lookup k m) ≡ sum_over f m
  unfolding sum_over erase lookup
  sum_over-erase k [] d = omega arith
  sum_over-erase k ((j, w) ∷ m) (fresh, d) = elim (Bool-cases (e.beq j k)) [
    | inl same ↦ rw same (
        omega (
          arith,
          ap (λ t. sum_over f (erase t m)) (sym ((e.beq_iff j k).0 same)),
          ap (λ t. sum_over f t) (erase-fresh j m fresh),
        ))
    | inr other ↦ rw other (omega (arith, sum_over-erase k m d))
  ]

module _ {ℓ κ} {K : Type ℓ} {V : Type κ} (f g h : V → ℕ) (adds : (v : V) → f v + g v ≡ h v) where
  pub sum_over-add : (m : List (K × V)) → sum_over f m + sum_over g m ≡ sum_over h m
  unfolding sum_over
  sum_over-add [] = refl
  sum_over-add ((k, v) ∷ m) = omega (arith, sum_over-add m, adds v)

module _ {ℓ κ} {K : Type ℓ} {V : Type κ} (f g : V → ℕ) (agrees : (v : V) → f v ≡ g v) where
  pub sum_over-agree : (m : List (K × V)) → sum_over f m ≡ sum_over g m
  unfolding sum_over
  sum_over-agree [] = refl
  sum_over-agree ((k, v) ∷ m) = omega (arith, sum_over-agree m, agrees v)

module _ {ℓ κ} {K : Type ℓ} {V : Type κ} (f g : V → ℕ) (less : (v : V) → f v ≤ g v) where
  pub sum_over-less : (m : List (K × V)) → sum_over f m ≤ sum_over g m
  unfolding sum_over
  sum_over-less [] = omega arith
  sum_over-less ((k, v) ∷ m) = omega (arith, sum_over-less m, less v)
