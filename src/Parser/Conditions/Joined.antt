-- ===== src/Parser/Conditions/Joined.antt =====
-- `parse_conditions` of src/query_optimizer/parser/utils/parser_utils.cpp on a clause that is put
-- together of its conditions.
use tubes_if3140_sistem_basi.Base.{
  ℕ, ◌+◌, List, [], ◌∷◌, ◌++◌, true, false, Option, none, some, ◌≡◌, refl, sym, ap, ap₂, ◌∙◌,
  length, ◌==◌, ltb, ◌⊎◌, inl, inr, All, if◌then◌else◌, arith,
}
use tubes_if3140_sistem_basi.Base.Key.{Text}
use tubes_if3140_sistem_basi.Base.Set.{is_empty}
use tubes_if3140_sistem_basi.Base.Strings.{
  codes, to_upper, find_text, starts_with, take, drop, later, trim, trim_by, trim_end, skip_while,
}
use tubes_if3140_sistem_basi.Base.Strings.Find.{
  take-append, drop-append, drop-append_more, to_upper-append, length-to_upper, find_text-here,
  find_text-behind,
}
use tubes_if3140_sistem_basi.Types.{Condition}
use tubes_if3140_sistem_basi.Parser.Query.{Decimals}
use tubes_if3140_sistem_basi.Parser.Conditions.{
  parse_condition, cut_condition, next_condition, add_condition, conditions_from, parse_conditions,
}
use tubes_if3140_sistem_basi.Parser.Conditions.Rounds.{parse_conditions-round}

-- No connective begins in the text, nor in the text and a space behind it.
abbrev pub IsUnbroken : Text → Type 0
IsUnbroken s =
    (find_text (codes " AND ") (to_upper s ++ (32 ∷ [])) ≡ none)
    × (find_text (codes " OR ") (to_upper s ++ (32 ∷ [])) ≡ none)

-- AND or OR between two spaces, in letters of either case.
abbrev pub IsConnective : Text → Type 0
IsConnective k = (to_upper k ≡ codes " AND ") ⊎ (to_upper k ≡ codes " OR ")

-- Each condition with the connective behind it, and the last one.
abbrev pub joined : List (Text × Text) → Text → Text
joined [] last = last
joined ((condition, connective) ∷ parts) last = condition ++ (connective ++ joined parts last)

-- The condition that a text is, if it is not blank, with an operator.
abbrev pub listed : Decimals → Text → Text → List Condition → List Condition
listed D s operator rest =
    if is_empty (trim s)
    then rest
    else record (parse_condition D (trim s)) { logical_operator = operator } ∷ rest

abbrev pub all_listed : Decimals → List (Text × Text) → Text → List Condition
all_listed D [] last = listed D last (codes "AND") []
all_listed D ((condition, connective) ∷ parts) last =
    listed D condition (trim (to_upper connective)) (all_listed D parts last)

cut_condition-and :
    (s : Text) (n : ℕ) (o : Option ℕ)
    → cut_condition s (some n) (later (n + 1) o) ≡ (take n s, codes "AND", drop (n + 5) s)
unfolding cut_condition
cut_condition-and s n none = refl
cut_condition-and s n (some j) =
    let first : ltb n (n + 1 + j) ≡ true = ground arith in rw first refl

cut_condition-or :
    (s : Text) (n : ℕ) (o : Option ℕ)
    → cut_condition s (later (n + 1) o) (some n) ≡ (take n s, codes "OR", drop (n + 4) s)
unfolding cut_condition
cut_condition-or s n none = refl
cut_condition-or s n (some i) =
    let second : ltb (n + 1 + i) n ≡ false = ground arith in rw second refl

to_upper-joined :
    (p k rest word : Text)
    → to_upper k ≡ word
    → to_upper (p ++ (k ++ rest)) ≡ to_upper p ++ (word ++ to_upper rest)
to_upper-joined p k rest word e =
    to_upper-append p (k ++ rest)
    ∙ ap (λ t. to_upper p ++ t) (to_upper-append k rest ∙ ap (λ t. t ++ to_upper rest) e)

drop-joined :
    (p k rest word : Text)
    → to_upper k ≡ word
    → drop (length p + length word) (p ++ (k ++ rest)) ≡ rest
drop-joined p k rest word e =
    drop-append_more (length word) p (k ++ rest)
    ∙ ap (λ n. drop n (k ++ rest)) (ap length (sym e) ∙ length-to_upper k)
    ∙ drop-append k rest

and_unspaced : All (λ c. (c == 32) ≡ false) (codes "AND")
and_unspaced = (refl, (refl, (refl, tt)))

or_unspaced : All (λ c. (c == 32) ≡ false) (codes "OR")
or_unspaced = (refl, (refl, tt))

next_condition-and :
    (p k rest : Text)
    → IsUnbroken p
    → to_upper k ≡ codes " AND "
    → next_condition (p ++ (k ++ rest)) ≡ (p, codes "AND", rest)
unfolding starts_with
next_condition-and p k rest unbroken e =
    let s = p ++ (k ++ rest) in
    let z = codes "AND " ++ to_upper rest in
    let upper = to_upper-joined p k rest (codes " AND ") e in
    ap₂ (cut_condition s)
      (ap (find_text (codes " AND ")) upper
        ∙ find_text-here (codes "AND") and_unspaced (to_upper p) z unbroken.0 refl
        ∙ ap some (length-to_upper p))
      (ap (find_text (codes " OR ")) upper
        ∙ find_text-behind (codes "OR") or_unspaced (to_upper p) z unbroken.1 refl
        ∙ ap (λ n. later (n + 1) (find_text (codes " OR ") z)) (length-to_upper p))
    ∙ cut_condition-and s (length p) (find_text (codes " OR ") z)
    ∙ ap₂ (λ front back. (front, codes "AND", back)) (take-append p (k ++ rest))
        (drop-joined p k rest (codes " AND ") e)

next_condition-or :
    (p k rest : Text)
    → IsUnbroken p
    → to_upper k ≡ codes " OR "
    → next_condition (p ++ (k ++ rest)) ≡ (p, codes "OR", rest)
unfolding starts_with
next_condition-or p k rest unbroken e =
    let s = p ++ (k ++ rest) in
    let z = codes "OR " ++ to_upper rest in
    let upper = to_upper-joined p k rest (codes " OR ") e in
    ap₂ (cut_condition s)
      (ap (find_text (codes " AND ")) upper
        ∙ find_text-behind (codes "AND") and_unspaced (to_upper p) z unbroken.0 refl
        ∙ ap (λ n. later (n + 1) (find_text (codes " AND ") z)) (length-to_upper p))
      (ap (find_text (codes " OR ")) upper
        ∙ find_text-here (codes "OR") or_unspaced (to_upper p) z unbroken.1 refl
        ∙ ap some (length-to_upper p))
    ∙ cut_condition-or s (length p) (find_text (codes " AND ") z)
    ∙ ap₂ (λ front back. (front, codes "OR", back)) (take-append p (k ++ rest))
        (drop-joined p k rest (codes " OR ") e)

-- The operator of a connective, in capitals and without its spaces.
next_condition-joined :
    (p k rest : Text)
    → IsUnbroken p
    → IsConnective k
    → next_condition (p ++ (k ++ rest)) ≡ (p, trim (to_upper k), rest)
unfolding trim trim_by trim_end skip_while
next_condition-joined p k rest unbroken (inl e) =
    next_condition-and p k rest unbroken e ∙ ap (λ u. (p, trim u, rest)) (sym e)
next_condition-joined p k rest unbroken (inr e) =
    next_condition-or p k rest unbroken e ∙ ap (λ u. (p, trim u, rest)) (sym e)

next_condition-last :
    (s : Text)
    → find_text (codes " AND ") (to_upper s) ≡ none
    → find_text (codes " OR ") (to_upper s) ≡ none
    → next_condition s ≡ (s, codes "AND", [])
unfolding cut_condition
next_condition-last s no_and no_or = rw (no_and, no_or) refl

module _ (D : Decimals) where
  -- The loop's round, on an empty text too.
  round :
      (s : Text)
      → parse_conditions D s
        ≡ add_condition D
            (next_condition s).0
            (next_condition s).1
            (parse_conditions D (next_condition s).2)
  unfolding parse_conditions conditions_from cut_condition find_text to_upper trim trim_by trim_end
      skip_while
  round [] = refl
  round (c ∷ s) = parse_conditions-round D c s

  parse_conditions-nil : parse_conditions D [] ≡ []
  unfolding parse_conditions conditions_from
  parse_conditions-nil = refl

  round_of :
      (s front operator back : Text)
      → next_condition s ≡ (front, operator, back)
      → parse_conditions D s ≡ add_condition D front operator (parse_conditions D back)
  round_of s front operator back e =
      round s ∙ ap (λ cut. add_condition D cut.0 cut.1 (parse_conditions D cut.2)) e

  -- A clause of conditions with AND or OR between them, in letters of either case, is read as these
  -- conditions in their order: each is trimmed and parsed, and has the connective behind it as its
  -- operator in capitals, the last one AND. Blank ones are left out. Neither the last condition nor
  -- any other one with one more space behind it has a connective within it.
  pub parse_conditions-joined :
      (parts : List (Text × Text)) (last : Text)
      → All (λ part. IsUnbroken part.0 × IsConnective part.1) parts
      → find_text (codes " AND ") (to_upper last) ≡ none
      → find_text (codes " OR ") (to_upper last) ≡ none
      → parse_conditions D (joined parts last) ≡ all_listed D parts last
  parse_conditions-joined [] last h no_and no_or =
      round_of last last (codes "AND") [] (next_condition-last last no_and no_or)
      ∙ ap (listed D last (codes "AND")) parse_conditions-nil
  parse_conditions-joined ((p, k) ∷ parts) last h no_and no_or =
      round_of (joined ((p, k) ∷ parts) last) p (trim (to_upper k)) (joined parts last)
        (next_condition-joined p k (joined parts last) h.0.0 h.0.1)
      ∙ ap (listed D p (trim (to_upper k))) (parse_conditions-joined parts last h.1 no_and no_or)
