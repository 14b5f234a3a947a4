-- ===== src/Base/Numbers/RoundTrip.antt =====
-- What `std::to_string` prints of an `int` is what `std::stoi` reads.
use native.Mathlib.Nat.{pow-suc}
use tubes_if3140_sistem_basi.Base.{
  ℕ, zero, suc, ◌+◌, ◌-◌, ◌*◌, ◌/◌, ◌%◌, ◌^◌, ◌<◌, ◌≤◌, [], ◌∷◌, ◌++◌, true, false, some, none, ltb,
  leb, if◌then◌else◌, ◌≡◌, refl, ap, ◌∙◌, inl, inr, ◌⊎◌, ◌≢◌, arith, All, All-append, Bool-cases,
}
use tubes_if3140_sistem_basi.Base.Key.{Text}
use tubes_if3140_sistem_basi.Base.Strings.{skip_while, is_space}
use tubes_if3140_sistem_basi.Base.Numbers.{
  digits, to_string, is_digit, read_digits, in_range, signed, stoi,
}

abbrev pub AreDigits : Text → Type 0
AreDigits s = All (λ c. is_digit c ≡ true) s

pub digits-AreDigits : (fuel n : ℕ) → AreDigits (digits fuel n)
unfolding digits
digits-AreDigits zero n = tt
digits-AreDigits (suc fuel) n = elim (Bool-cases (ltb n 10)) [
  | inl small ↦ rw small (ground arith, tt)
  | inr big ↦ rw big (
      All-append (λ c. is_digit c ≡ true) (digits fuel (n / 10)) ((48 + n % 10) ∷ [])
        (digits-AreDigits fuel (n / 10)) (ground arith, tt))
]

read_digits-append :
    (a v d : ℕ) (s : Text)
    → AreDigits s
    → d < 10
    → read_digits (some a) s ≡ some v
    → read_digits (some a) (s ++ ((48 + d) ∷ [])) ≡ some (v * 10 + d)
unfolding read_digits
read_digits-append a v d [] h l e = ground arith
read_digits-append a v d (c ∷ s) h l e =
    rw h.0 (read_digits-append (a * 10 + (c - 48)) v d s h.1 l (rw h.0 at e))

read_digits-small : (n : ℕ) → n < 10 → read_digits (some 0) ((48 + n) ∷ []) ≡ some n
unfolding read_digits
read_digits-small n h = ground arith

digits-suc :
    (fuel n : ℕ)
    → digits (suc fuel) n
      ≡ (if ltb n 10 then (48 + n) ∷ [] else digits fuel (n / 10) ++ ((48 + n % 10) ∷ []))
unfolding digits
digits-suc fuel n = refl

tenth_lt : (fuel n : ℕ) → n < 10 ^ suc fuel → n / 10 < 10 ^ fuel
tenth_lt fuel n h = let e : 10 ^ suc fuel ≡ 10 ^ fuel * 10 = pow-suc 10 fuel in omega arith

read_digits-digits :
    (fuel n : ℕ) → n < 10 ^ suc fuel → read_digits (some 0) (digits (suc fuel) n) ≡ some n
read_digits-digits zero n h =
    let small : ltb n 10 ≡ true = ground arith in
    rw (digits-suc zero n, small) (read_digits-small n (omega arith))
read_digits-digits (suc fuel) n h = elim (Bool-cases (ltb n 10)) [
  | inl small ↦ rw (digits-suc (suc fuel) n, small) (read_digits-small n (ground arith))
  | inr big ↦
      let split : (n / 10) * 10 + n % 10 ≡ n = omega arith in
      rw (digits-suc (suc fuel) n, big)
        (read_digits-append 0 (n / 10) (n % 10) (digits (suc fuel) (n / 10))
            (digits-AreDigits (suc fuel) (n / 10)) (omega arith)
            (read_digits-digits fuel (n / 10) (tenth_lt (suc fuel) n h))
          ∙ ap some split)
]

not_space : (c : ℕ) → is_digit c ≡ true → is_space c ≡ false
not_space c h = ground arith

-- A text of digits that is not empty is read as its number.
stoi-digits :
    (s : Text) (n : ℕ)
    → AreDigits s
    → read_digits (some 0) s ≡ some n
    → (s ≡ []) ⊎ (stoi s ≡ in_range false (some n))
unfolding stoi signed skip_while read_digits
stoi-digits [] n h e = inl refl
stoi-digits (c ∷ s) n h e = inr (rw (not_space c h.0) (ground (arith, h.0)))

snoc-neq : (s : Text) (d : ℕ) → (s ++ (d ∷ [])) ≢ []
snoc-neq [] d h = cc
snoc-neq (c ∷ s) d h = cc

pub digits-neq : (fuel n : ℕ) → digits (suc fuel) n ≢ []
digits-neq fuel n = elim (Bool-cases (ltb n 10)) [
  | inl small ↦ rw (digits-suc fuel n, small) (snoc-neq [] (48 + n))
  | inr big ↦ rw (digits-suc fuel n, big) (snoc-neq (digits fuel (n / 10)) (48 + n % 10))
]

-- The numbers that `int` holds and that are not negative.
abbrev pub IsNatural : ℕ → Type 0
IsNatural n = n < 2 ^ 31

pub to_string-digits : (n : ℕ) → IsNatural n → to_string n ≡ digits 10 n
unfolding to_string
to_string-digits n h = let b : ltb n (2 ^ 31) ≡ true = ground arith in rw b refl

pub stoi-to_string : (n : ℕ) → IsNatural n → stoi (to_string n) ≡ some n
stoi-to_string n h =
    let small : ltb n (2 ^ 31) ≡ true = ground arith in
    let fits : n < 10 ^ 10 = omega arith in
    elim (stoi-digits (digits 10 n) n (digits-AreDigits 10 n) (read_digits-digits 9 n fits)) [
      | inl no_digits ↦ absurd (digits-neq 9 n no_digits)
      | inr found ↦ rw (to_string-digits n h) (found ∙ rw small refl)
    ]

-- What an `int` prints is read back, negative numbers included.
digits-read :
    (s : Text) (n : ℕ)
    → AreDigits s
    → read_digits (some 0) s ≡ some n
    → (s ≡ []) ⊎ (read_digits none s ≡ some n)
unfolding read_digits
digits-read [] n h e = inl refl
digits-read (c ∷ s) n h e = inr (ground (arith, h.0))

stoi-negative : (n : ℕ) → 2 ^ 31 ≤ n → n < 2 ^ 32 → stoi (b'-' ∷ digits 10 (2 ^ 32 - n)) ≡ some n
unfolding stoi skip_while signed
stoi-negative n l h =
    let fits : 2 ^ 32 - n < 10 ^ 10 = omega arith in
    let inside : leb (2 ^ 32 - n) (2 ^ 31) ≡ true = ground arith in
    elim (digits-read (digits 10 (2 ^ 32 - n)) (2 ^ 32 - n) (digits-AreDigits 10 (2 ^ 32 - n))
      (read_digits-digits 9 (2 ^ 32 - n) fits)) [
        | inl no_digits ↦ absurd (digits-neq 9 (2 ^ 32 - n) no_digits)
        | inr found ↦ rw (found, inside) (ap some (omega arith))
      ]

pub stoi-to_string_all : (n : ℕ) → n < 2 ^ 32 → stoi (to_string n) ≡ some n
unfolding to_string
stoi-to_string_all n h = elim (Bool-cases (ltb n (2 ^ 31))) [
  | inl small ↦ stoi-to_string n (ground arith)
  | inr big ↦ rw big (stoi-negative n (ground arith) h)
]
