-- ===== src/Base/Integers.antt =====
-- Go's int where it can be negative, and its decimal texts.
use Prim.Native.Nat.{ℕ, zero, suc, ◌+◌, ◌*◌, ◌-◌, ◌^◌}
use mathlib.Core.Option.{Option, none, some}
use mathlib.Core.List.{List, [], ◌∷◌}
use shark_socket.Base.Tests.{ltb, leb, ◌==◌, if◌then◌else◌}

pub data ℤ : Type 0 where
  pos negsuc : ℕ → ℤ

unfoldable pub digits : ℕ → List ℕ → Option ℕ
digits n [] = some n
digits n (c ∷ s) =
    let rest = digits (n * 10 + (c - b'0')) s in
    if leb b'0' c then if leb c b'9' then rest else none else none

-- A number that the sign leaves in 64 bits.
abbrev pub signed : ℕ → ℕ → ℤ → Option ℤ
signed bound n z = if ltb bound n then none else some z

unfoldable pub unsigned_text : List ℕ → Option ℕ
unfolding digits
unsigned_text [] = none
unsigned_text (c ∷ s) = digits 0 (c ∷ s)

abbrev pub negative : ℕ → ℤ
negative zero = pos 0
negative (suc n) = negsuc n

-- strconv.Atoi
unfoldable pub atoi : List ℕ → Option ℤ
unfolding unsigned_text
atoi [] = none
atoi (c ∷ s) =
    if c == b'-'
    then elim (unsigned_text s) [ none ↦ none | some n ↦ signed (2 ^ 63) n (negative n) ]
    else elim (unsigned_text (if c == b'+' then s else c ∷ s)) [
      | none ↦ none
      | some n ↦ signed (2 ^ 63 - 1) n (pos n)
    ]
