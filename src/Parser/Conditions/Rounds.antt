-- ===== src/Parser/Conditions/Rounds.antt =====
-- The rounds of the loop of `parse_conditions` in
-- src/query_optimizer/parser/utils/parser_utils.cpp.
use tubes_if3140_sistem_basi.Base.{
  ℕ, zero, suc, ◌+◌, ◌≤◌, [], ◌∷◌, Option, none, some, ◌≡◌, refl, ap, length, ltb, Bool-cases, inl,
  inr, arith,
}
use tubes_if3140_sistem_basi.Base.Key.{Text}
use tubes_if3140_sistem_basi.Base.Strings.{codes, to_upper, find_text, drop}
use tubes_if3140_sistem_basi.Base.Strings.Trim.{length-drop}
use tubes_if3140_sistem_basi.Parser.Query.{Decimals}
use tubes_if3140_sistem_basi.Parser.Conditions.{
  cut_condition, next_condition, add_condition, conditions_from, parse_conditions,
}

drop-shorter : (n c : ℕ) (s : Text) → length (drop (suc n) (c ∷ s)) ≤ length s
drop-shorter n c s = omega (arith, length-drop (suc n) (c ∷ s))

cut_condition-shorter :
    (c : ℕ) (s : Text) (i j : Option ℕ) → length (cut_condition (c ∷ s) i j).2 ≤ length s
unfolding cut_condition
cut_condition-shorter c s none none = omega arith
cut_condition-shorter c s (some i) none = omega (arith, length-drop (i + 5) (c ∷ s))
cut_condition-shorter c s none (some j) = omega (arith, length-drop (j + 4) (c ∷ s))
cut_condition-shorter c s (some i) (some j) = elim (Bool-cases (ltb i j)) [
  | inl first ↦ rw first (omega (arith, length-drop (i + 5) (c ∷ s)))
  | inr second ↦ rw second (omega (arith, length-drop (j + 4) (c ∷ s)))
]

next_condition-shorter : (c : ℕ) (s : Text) → length (next_condition (c ∷ s)).2 ≤ length s
next_condition-shorter c s =
    cut_condition-shorter c s (find_text (codes " AND ") (to_upper (c ∷ s)))
      (find_text (codes " OR ") (to_upper (c ∷ s)))

module _ (D : Decimals) where
  conditions_from-enough :
      (f g : ℕ) (s : Text)
      → length s ≤ f
      → length s ≤ g
      → conditions_from D f s ≡ conditions_from D g s
  unfolding conditions_from
  conditions_from-enough zero zero s h k = refl
  conditions_from-enough zero (suc g) [] h k = refl
  conditions_from-enough zero (suc g) (c ∷ s) h k = absurd (omega arith)
  conditions_from-enough (suc f) zero [] h k = refl
  conditions_from-enough (suc f) zero (c ∷ s) h k = absurd (omega arith)
  conditions_from-enough (suc f) (suc g) [] h k = refl
  conditions_from-enough (suc f) (suc g) (c ∷ s) h k =
      let cut = next_condition (c ∷ s) in
      let shorter : length cut.2 ≤ length s = next_condition-shorter c s in
      ap (add_condition D cut.0 cut.1)
        (conditions_from-enough f g cut.2 (omega arith) (omega arith))

  -- The loop never stops for want of rounds: on a text that is not empty the conditions are the one in
  -- front of the first AND or OR, unless it is blank, and all the conditions of the text behind that.
  pub parse_conditions-round :
      (c : ℕ) (s : Text)
      → parse_conditions D (c ∷ s)
        ≡ add_condition D
            (next_condition (c ∷ s)).0
            (next_condition (c ∷ s)).1
            (parse_conditions D (next_condition (c ∷ s)).2)
  unfolding parse_conditions conditions_from
  parse_conditions-round c s =
      let cut = next_condition (c ∷ s) in
      let shorter : length cut.2 ≤ length s = next_condition-shorter c s in
      ap (add_condition D cut.0 cut.1)
        (conditions_from-enough (length s) (length cut.2) cut.2 shorter (omega arith))
