-- ===== src/Base/Strings.antt =====
-- `std::string` as a list of bytes: the members that the program calls, `trim` and `to_upper` of
-- src/query_optimizer/parser/utils/string_utils.cpp, and the reading of words from a stream.
pub mod Trim
pub mod Find
use Prim.Native.Char.{code}
use Prim.Native.String.{String}
use Prim.Native.Nat.{ℕ, zero, suc, ◌+◌, ◌-◌}
use mathlib.Core.Path.{◌≡◌, refl}
use mathlib.Core.Bool.{Bool, true, false, ◌&&◌, ◌||◌}
use mathlib.Core.Option.{Option, none, some}
use mathlib.Core.List.{List, [], ◌∷◌, ◌++◌, map, append_assoc}
use tubes_if3140_sistem_basi.Base.Tests.{if◌then◌else◌, leb, ◌==◌}
use tubes_if3140_sistem_basi.Base.Lists.{length}
use tubes_if3140_sistem_basi.Base.Key.{Text}
use tubes_if3140_sistem_basi.Base.Set.{is_empty}

-- The bytes of a literal.
abbrev pub codes : String → Text
codes String.[] = []
codes (String.◌∷◌ c s) = code c ∷ codes s

-- `std::isspace` in the C locale.
abbrev pub is_space : ℕ → Bool
is_space c = c == 32 || (leb 9 c && leb c 13)

-- `std::toupper` in the C locale.
abbrev pub upper_char : ℕ → ℕ
upper_char c = if leb 97 c && leb c 122 then c - 32 else c

unfoldable pub to_upper : Text → Text
to_upper s = map upper_char s

-- The first n characters, and the others.
unfoldable pub take {ℓ} : {A : Type ℓ} → ℕ → List A → List A
take zero s = []
take (suc n) [] = []
take (suc n) (b ∷ s) = b ∷ take n s

unfoldable pub drop {ℓ} : {A : Type ℓ} → ℕ → List A → List A
drop zero s = s
drop (suc n) [] = []
drop (suc n) (b ∷ s) = drop n s

-- `s.substr(pos, n)`, for a position in the text.
abbrev pub substr : ℕ → ℕ → Text → Text
substr pos n s = take n (drop pos s)

-- `s.rfind(p, 0) == 0`
unfoldable pub starts_with : Text → Text → Bool
starts_with [] s = true
starts_with (a ∷ p) [] = false
starts_with (a ∷ p) (c ∷ s) = a == c && starts_with p s

-- A position, moved by n.
abbrev pub later : ℕ → Option ℕ → Option ℕ
later n none = none
later n (some i) = some (n + i)

-- `s.find(p)`; `npos` is `none`.
unfoldable pub find_text : Text → Text → Option ℕ
find_text p [] = if is_empty p then some 0 else none
find_text p (c ∷ s) =
    let rest = find_text p s in if starts_with p (c ∷ s) then some 0 else later 1 rest

-- `s.find(p, pos)`
abbrev pub find_from : ℕ → Text → Text → Option ℕ
find_from pos p s = later pos (find_text p (drop pos s))

-- `s.rfind(c)`
unfoldable pub rfind_char : ℕ → Text → Option ℕ
rfind_char c [] = none
rfind_char c (x ∷ s) = elim (rfind_char c s) [
  | some i ↦ some (suc i)
  | none ↦ if x == c then some 0 else none
]

-- What stands before the first occurrence of p and what stands behind it.
unfoldable pub split_at_text : Text → Text → Option (Text × Text)
split_at_text p s = elim (find_text p s) [
  | none ↦ none
  | some i ↦ some (take i s, drop (i + length p) s)
]

unfoldable pub skip_while : (ℕ → Bool) → Text → Text
skip_while test [] = []
skip_while test (c ∷ s) = let rest = skip_while test s in if test c then rest else c ∷ s

unfoldable pub trim_end : (ℕ → Bool) → Text → Text
trim_end test [] = []
trim_end test (c ∷ s) =
    let rest = trim_end test s in if test c && is_empty rest then [] else c ∷ rest

unfoldable pub trim_by : (ℕ → Bool) → Text → Text
trim_by test s = trim_end test (skip_while test s)

unfoldable pub trim : Text → Text
trim s = trim_by is_space s

-- A character in front of the first piece.
abbrev pub push_front : ℕ → List Text → List Text
push_front c [] = (c ∷ []) ∷ []
push_front c (p ∷ ps) = (c ∷ p) ∷ ps

-- The pieces between the characters that the test holds of.
unfoldable pub pieces : (ℕ → Bool) → Text → List Text
pieces test [] = [] ∷ []
pieces test (c ∷ s) = let rest = pieces test s in if test c then [] ∷ rest else push_front c rest

unfoldable pub drop_empty : List Text → List Text
drop_empty [] = []
drop_empty (p ∷ ps) = let rest = drop_empty ps in if is_empty p then rest else p ∷ rest

-- `while (iss >> token) tokens.push_back(token);`
unfoldable pub words : Text → List Text
words s = drop_empty (pieces is_space s)

-- Texts one behind the other.
abbrev pub concat : List Text → Text
concat [] = []
concat (p ∷ ps) = p ++ concat ps

pub concat-append : (ps qs : List Text) → concat (ps ++ qs) ≡ concat ps ++ concat qs
concat-append [] qs = refl
concat-append (p ∷ ps) qs = rw (concat-append ps qs, append_assoc p (concat ps) (concat qs)) refl
