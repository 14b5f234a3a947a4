-- ===== src/Base/Numbers.antt =====
-- `std::to_string` and `std::stoi` on `int`, as bit patterns.
pub mod RoundTrip
use Prim.Native.Nat.{ℕ, zero, suc, ◌+◌, ◌-◌, ◌*◌, ◌/◌, ◌%◌, ◌^◌}
use mathlib.Core.Bool.{Bool, true, false, ◌&&◌}
use mathlib.Core.Option.{Option, none, some}
use mathlib.Core.List.{[], ◌∷◌, ◌++◌}
use tubes_if3140_sistem_basi.Base.Tests.{if◌then◌else◌, ltb, leb, ◌==◌}
use tubes_if3140_sistem_basi.Base.Key.{Text}
use tubes_if3140_sistem_basi.Base.Strings.{skip_while, is_space}

-- The digits of a number below 10 ^ fuel.
unfoldable pub digits : ℕ → ℕ → Text
digits zero n = []
digits (suc fuel) n =
    let front = digits fuel (n / 10) in
    if ltb n 10 then (48 + n) ∷ [] else front ++ ((48 + n % 10) ∷ [])

-- `std::to_string(int)`; ten digits hold every `int`.
unfoldable pub to_string : ℕ → Text
to_string n = if ltb n (2 ^ 31) then digits 10 n else b'-' ∷ digits 10 (2 ^ 32 - n)

abbrev pub is_digit : ℕ → Bool
is_digit c = leb 48 c && leb c 57

-- The number that the digits at the front make; `none` if there are none.
unfoldable pub read_digits : Option ℕ → Text → Option ℕ
read_digits seen [] = seen
read_digits none (c ∷ s) = if is_digit c then read_digits (some (c - 48)) s else none
read_digits (some n) (c ∷ s) =
    let rest = read_digits (some (n * 10 + (c - 48))) s in if is_digit c then rest else some n

abbrev pub in_range : Bool → Option ℕ → Option ℕ
in_range negative none = none
in_range true (some n) = if leb n (2 ^ 31) then some ((2 ^ 32 - n) % 2 ^ 32) else none
in_range false (some n) = if ltb n (2 ^ 31) then some n else none

unfoldable pub signed : Text → Option ℕ
signed [] = none
signed (c ∷ s) =
    if c == b'-'
    then in_range true (read_digits none s)
    else if c == b'+'
    then in_range false (read_digits none s)
    else in_range false (read_digits none (c ∷ s))

-- `std::stoi`; `none` where it throws.
unfoldable pub stoi : Text → Option ℕ
stoi s = signed (skip_while is_space s)
