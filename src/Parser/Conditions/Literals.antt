-- ===== src/Parser/Conditions/Literals.antt =====
-- `parse_literal` of src/query_optimizer/parser/utils/parser_utils.cpp on printed values.
use tubes_if3140_sistem_basi.Base.{
  ℕ, ◌-◌, ◌^◌, ◌<◌, [], ◌∷◌, ◌++◌, true, false, ◌||◌, ◌==◌, ◌≡◌, refl, ap, All, inl, inr,
  Bool-cases, ◌⊎◌, arith, ltb,
}
use tubes_if3140_sistem_basi.Base.Key.{Text}
use tubes_if3140_sistem_basi.Base.Strings.{is_space, trim, trim_by, skip_while}
use tubes_if3140_sistem_basi.Base.Strings.Trim.{trim_end-snoc, trim-unspaced}
use tubes_if3140_sistem_basi.Base.Numbers.{digits, to_string, is_digit, stoi}
use tubes_if3140_sistem_basi.Base.Numbers.RoundTrip.{
  AreDigits, digits-AreDigits, digits-neq, stoi-to_string_all,
}
use tubes_if3140_sistem_basi.Types.{Value, empty, int, float, double, text}
use tubes_if3140_sistem_basi.Parser.Query.{Decimals}
use tubes_if3140_sistem_basi.Parser.Split.{strip_quotes, back, pop_back}
use tubes_if3140_sistem_basi.Parser.Conditions.{
  is_numeric, has_decimal, after_sign, is_quoted, number_or, literal_of, parse_literal,
}

-- A value as it is written in a query.
abbrev pub print_literal : Value → Text
print_literal empty = []
print_literal (int n) = to_string n
print_literal (float n) = []
print_literal (double n) = []
print_literal (text s) = b'\'' ∷ s ++ (b'\'' ∷ [])

-- An `int`, or any text.
abbrev pub IsPrintable : Value → Type 0
IsPrintable empty = ⊥
IsPrintable (int n) = n < 2 ^ 32
IsPrintable (float n) = ⊥
IsPrintable (double n) = ⊥
IsPrintable (text s) = Unit

trim-quoted : (c : ℕ) (s : Text) → is_space c ≡ false → trim (c ∷ s ++ (c ∷ [])) ≡ c ∷ s ++ (c ∷ [])
unfolding trim trim_by skip_while
trim-quoted c s h = rw h (trim_end-snoc (c ∷ s) c h)

back-snoc : (c d : ℕ) (s : Text) → back c (s ++ (d ∷ [])) ≡ d
back-snoc c d [] = refl
back-snoc c d (e ∷ s) = back-snoc e d s

pop_back-snoc : (s : Text) (d : ℕ) → pop_back (s ++ (d ∷ [])) ≡ s
unfolding pop_back
pop_back-snoc [] d = refl
pop_back-snoc (c ∷ []) d = refl
pop_back-snoc (c ∷ e ∷ s) d = ap (λ t. c ∷ t) (pop_back-snoc (e ∷ s) d)

strip_quotes-quoted : (s : Text) → strip_quotes (b'\'' ∷ s ++ (b'\'' ∷ [])) ≡ s
unfolding strip_quotes
strip_quotes-quoted [] = pop_back-snoc [] b'\''
strip_quotes-quoted (c ∷ s) = rw (back-snoc c b'\'' s) (pop_back-snoc (c ∷ s) b'\'')

AreDigits-unspaced : (s : Text) → AreDigits s → All (λ c. is_space c ≡ false) s
AreDigits-unspaced [] h = tt
AreDigits-unspaced (c ∷ s) h = (ground (arith, h.0), AreDigits-unspaced s h.1)

is_numeric-digits : (s : Text) → AreDigits s → is_numeric s ≡ true
unfolding is_numeric
is_numeric-digits [] h = refl
is_numeric-digits (c ∷ s) h = ground (arith, h.0, is_numeric-digits s h.1)

has_decimal-digits : (s : Text) → AreDigits s → has_decimal s ≡ false
unfolding has_decimal
has_decimal-digits [] h = refl
has_decimal-digits (c ∷ s) h = ground (arith, h.0, has_decimal-digits s h.1)

to_string-unspaced : (n : ℕ) → All (λ c. is_space c ≡ false) (to_string n)
unfolding to_string
to_string-unspaced n = elim (Bool-cases (ltb n (2 ^ 31))) [
  | inl small ↦ rw small (AreDigits-unspaced (digits 10 n) (digits-AreDigits 10 n))
  | inr big ↦
      rw big (refl, AreDigits-unspaced (digits 10 (2 ^ 32 - n)) (digits-AreDigits 10 (2 ^ 32 - n)))
]

not_quoted : (c : ℕ) (s : Text) → is_digit c ≡ true → is_quoted c s ≡ false
not_quoted c s h = ground (arith, h)

not_sign : (c : ℕ) → is_digit c ≡ true → (c == b'+' || c == b'-') ≡ false
not_sign c h = ground (arith, h)

module _ (D : Decimals) where
  literal_of-digits :
      (c : ℕ) (s : Text)
      → AreDigits (c ∷ s)
      → literal_of D (c ∷ s) ≡ number_or int (stoi (c ∷ s)) (c ∷ s)
  unfolding literal_of after_sign
  literal_of-digits c s h =
      rw
        (
          not_quoted c s h.0,
          not_sign c h.0,
          is_numeric-digits (c ∷ s) h,
          has_decimal-digits (c ∷ s) h,
        )
        refl

  literal_of-negative :
      (s : Text)
      → AreDigits s
      → literal_of D (b'-' ∷ s) ≡ number_or int (stoi (b'-' ∷ s)) (b'-' ∷ s)
  unfolding literal_of after_sign
  literal_of-negative s h = rw (is_numeric-digits s h, has_decimal-digits s h) refl

  literal_of-nonempty :
      (s : Text) → AreDigits s → (s ≡ []) ⊎ (literal_of D s ≡ number_or int (stoi s) s)
  literal_of-nonempty [] h = inl refl
  literal_of-nonempty (c ∷ s) h = inr (literal_of-digits c s h)

  literal_of-to_string :
      (n : ℕ) → literal_of D (to_string n) ≡ number_or int (stoi (to_string n)) (to_string n)
  unfolding to_string
  literal_of-to_string n = elim (Bool-cases (ltb n (2 ^ 31))) [
    | inl small ↦ rw small (elim (literal_of-nonempty (digits 10 n) (digits-AreDigits 10 n)) [
      | inl none_left ↦ absurd (digits-neq 9 n none_left)
      | inr found ↦ found
    ])
    | inr big ↦
        rw big (literal_of-negative (digits 10 (2 ^ 32 - n)) (digits-AreDigits 10 (2 ^ 32 - n)))
  ]

  literal_of-quoted : (s : Text) → literal_of D (b'\'' ∷ s ++ (b'\'' ∷ [])) ≡ text s
  unfolding literal_of
  literal_of-quoted s = rw (back-snoc b'\'' b'\'' s, strip_quotes-quoted s) refl

  -- Every `int`, negative ones included, and every text in single quotes, whatever it holds, is read
  -- back from the way it is written.
  pub parse_literal-print : (v : Value) → IsPrintable v → parse_literal D (print_literal v) ≡ v
  unfolding parse_literal
  parse_literal-print empty h = absurd h
  parse_literal-print (int n) h =
      rw
        (
          trim-unspaced (to_string n) (to_string-unspaced n),
          literal_of-to_string n,
          stoi-to_string_all n h,
        )
        refl
  parse_literal-print (float n) h = absurd h
  parse_literal-print (double n) h = absurd h
  parse_literal-print (text s) h = rw (trim-quoted b'\'' s refl) (literal_of-quoted s)
