-- ===== src/Base/Set.antt =====
-- `std::set<int>` and `std::set<size_t>` as the list of the members in order. Each law holds for
-- every list.
use Prim.Native.Nat.{ℕ}
use mathlib.Core.Path.{◌≡◌, refl}
use mathlib.Core.Bool.{Bool, true, false, ◌||◌}
use mathlib.Core.List.{List, [], ◌∷◌}
use native.Mathlib.Omega.{arith}
use tubes_if3140_sistem_basi.Base.Tests.{if◌then◌else◌, ltb, ◌==◌}

-- `s.count(x)`
unfoldable pub contains : ℕ → List ℕ → Bool
contains x [] = false
contains x (y ∷ s) = y == x || contains x s

-- `s.insert(x)`
unfoldable pub insert : ℕ → List ℕ → List ℕ
insert x [] = x ∷ []
insert x (y ∷ s) =
    let rest = insert x s in if y == x then y ∷ s else if ltb x y then x ∷ y ∷ s else y ∷ rest

-- `s.erase(x)`, and `remove(x)` of a `std::list`
unfoldable pub erase : ℕ → List ℕ → List ℕ
erase x [] = []
erase x (y ∷ s) = let rest = erase x s in if y == x then rest else y ∷ rest

-- `s.empty()`
abbrev pub is_empty {ℓ} : {A : Type ℓ} → List A → Bool
is_empty [] = true
is_empty (x ∷ s) = false

pub contains-insert :
    (x y : ℕ) (s : List ℕ) → contains y (insert x s) ≡ (if x == y then true else contains y s)
unfolding contains insert
contains-insert x y [] = ground arith
contains-insert x y (z ∷ s) = ground (arith, contains-insert x y s)

pub contains-erase :
    (x y : ℕ) (s : List ℕ) → contains y (erase x s) ≡ (if x == y then false else contains y s)
unfolding contains erase
contains-erase x y [] = ground arith
contains-erase x y (z ∷ s) = ground (arith, contains-erase x y s)

pub erase-insert : (x : ℕ) (s : List ℕ) → contains x s ≡ false → erase x (insert x s) ≡ erase x s
unfolding contains insert erase
erase-insert x [] h = ground arith
erase-insert x (z ∷ s) h = ground (arith, erase-insert x s)

pub erase_absent : (x : ℕ) (s : List ℕ) → contains x s ≡ false → erase x s ≡ s
unfolding contains erase
erase_absent x [] h = refl
erase_absent x (z ∷ s) h = ground (arith, erase_absent x s)
