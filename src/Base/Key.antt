-- ===== src/Base/Key.antt =====
-- Keys of `std::map` and `std::set`: an order for the iteration, and a test of equality that is
-- exact. The instances are numbers (`int`, `size_t`), texts (`std::string`) and pairs.
use Prim.Native.Nat.{ℕ}
use mathlib.Core.Path.{◌≡◌, refl}
use mathlib.Core.Logic.{◌↔◌}
use mathlib.Core.Bool.{Bool, true, false, ◌&&◌, ◌||◌}
use mathlib.Core.List.{List, [], ◌∷◌}
use native.Mathlib.Omega.{arith}
use tubes_if3140_sistem_basi.Base.Tests.{ltb, ◌==◌, ==_iff}

pub record Key {ℓ} (K : Type ℓ) : Type ℓ where
  pub before : K → K → Bool
  pub same : K → K → Bool
  pub same_iff : (a b : K) → (same a b ≡ true) ↔ (a ≡ b)

instance abbrev pub nat_key : Key ℕ
nat_key = record { before = ltb; same = ◌==◌; same_iff = ==_iff }

-- A `std::string` as the list of its bytes, in lexicographic order.
abbrev pub Text : Type 0
Text = List ℕ

unfoldable pub text_before : Text → Text → Bool
text_before [] [] = false
text_before [] (b ∷ t) = true
text_before (a ∷ s) [] = false
text_before (a ∷ s) (b ∷ t) = ltb a b || (a == b && text_before s t)

unfoldable pub text_same : Text → Text → Bool
text_same [] [] = true
text_same [] (b ∷ t) = false
text_same (a ∷ s) [] = false
text_same (a ∷ s) (b ∷ t) = a == b && text_same s t

pub text_same_iff : (s t : Text) → (text_same s t ≡ true) ↔ (s ≡ t)
unfolding text_same
text_same_iff [] [] = (λ h. refl, λ h. refl)
text_same_iff [] (b ∷ t) = (λ h. cc, λ h. cc)
text_same_iff (a ∷ s) [] = (λ h. cc, λ h. cc)
text_same_iff (a ∷ s) (b ∷ t) = ground (arith, text_same_iff s t)

instance abbrev pub text_key : Key Text
text_key = record { before = text_before; same = text_same; same_iff = text_same_iff }

unfoldable pub pair_before {ℓ κ} :
    {A : Type ℓ} {B : Type κ} ⦃a : Key A⦄ ⦃b : Key B⦄ → A × B → A × B → Bool
pair_before ⦃a⦄ ⦃b⦄ (x, y) (u, v) = a.before x u || (a.same x u && b.before y v)

unfoldable pub pair_same {ℓ κ} :
    {A : Type ℓ} {B : Type κ} ⦃a : Key A⦄ ⦃b : Key B⦄ → A × B → A × B → Bool
pair_same ⦃a⦄ ⦃b⦄ (x, y) (u, v) = a.same x u && b.same y v

pub pair_same_iff {ℓ κ} :
    {A : Type ℓ} {B : Type κ} ⦃a : Key A⦄ ⦃b : Key B⦄ (p q : A × B)
    → (pair_same p q ≡ true) ↔ (p ≡ q)
unfolding pair_same
pair_same_iff ⦃a⦄ ⦃b⦄ (x, y) (u, v) = ground (arith, a.same_iff x u, b.same_iff y v)

instance abbrev pub pair_key {ℓ κ} : {A : Type ℓ} {B : Type κ} ⦃a : Key A⦄ ⦃b : Key B⦄ → Key (A × B)
pair_key = record { before = pair_before; same = pair_same; same_iff = pair_same_iff }

module _ {ℓ} {K : Type ℓ} ⦃k : Key K⦄ where
  pub same_refl : (a : K) → k.same a a ≡ true
  same_refl a = (k.same_iff a a).1 refl
