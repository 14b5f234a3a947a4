-- ===== src/Parser/Select/Joins.antt =====
-- The rounds of the loop over the joins in src/query_optimizer/parser/dml/select_parser.cpp.
use tubes_if3140_sistem_basi.Base.{
  ℕ, zero, suc, ◌≤◌, List, [], ◌∷◌, Bool, true, false, ◌||◌, if◌then◌else◌, ◌≡◌, refl, ap, length,
  Bool-cases, inl, inr, arith,
}
use tubes_if3140_sistem_basi.Base.Key.{Text}
use tubes_if3140_sistem_basi.Base.Set.{is_empty}
use tubes_if3140_sistem_basi.Base.Strings.{codes, to_upper}
use tubes_if3140_sistem_basi.Parser.Query.{ParsedQuery}
use tubes_if3140_sistem_basi.Parser.Conditions.{is_join_keyword}
use tubes_if3140_sistem_basi.Parser.Select.{
  span_until, JoinHead, join_head, is_on, is_keyword, skip_on, parse_join, parse_joins,
}

-- Nothing, or a word of a join first.
abbrev pub AtJoin : List Text → Type 0
AtJoin [] = Unit
AtJoin (t ∷ ts) = is_keyword t ≡ true

join_head-shorter :
    (ts : List Text) (natural : Bool) (type : Text)
    → length (join_head ts natural type).rest ≤ length ts
unfolding join_head
join_head-shorter [] natural type = omega arith
join_head-shorter (t ∷ ts) natural type = ground (
  arith,
  join_head-shorter ts true (codes "NATURAL"),
  join_head-shorter ts natural (if natural then type else to_upper t),
  join_head-shorter ts natural type,
)

join_head-takes :
    (t : Text) (ts : List Text) (natural : Bool) (type : Text)
    → is_keyword t ≡ true
    → length (join_head (t ∷ ts) natural type).rest ≤ length ts
unfolding join_head is_join_keyword
join_head-takes t ts natural type h = ground (
  arith,
  h,
  join_head-shorter ts true (codes "NATURAL"),
  join_head-shorter ts natural (if natural then type else to_upper t),
  join_head-shorter ts natural type,
)

span_until-shorter :
    (test : Text → Bool) (ts : List Text) → length (span_until test ts).1 ≤ length ts
unfolding span_until
span_until-shorter test [] = omega arith
span_until-shorter test (t ∷ ts) = ground (arith, span_until-shorter test ts)

skip_on-shorter : (natural : Bool) (ts : List Text) → length (skip_on natural ts) ≤ length ts
skip_on-shorter natural [] = omega arith
skip_on-shorter natural (t ∷ ts) = ground arith

span_until-AtJoin : (ts : List Text) → AtJoin (span_until is_keyword ts).1
unfolding span_until
span_until-AtJoin [] = tt
span_until-AtJoin (t ∷ ts) = elim (Bool-cases (is_keyword t)) [
  | inl e ↦ rw e e
  | inr e ↦ rw e (span_until-AtJoin ts)
]

parse_join-shorter :
    (head : JoinHead) (pq : ParsedQuery) → length (parse_join head pq).1 ≤ length head.rest
unfolding parse_join
parse_join-shorter head pq =
    let stop : Text → Bool = λ t. is_on head.natural_join t || is_keyword t in
    ground (
      arith,
      span_until-shorter stop head.rest,
      skip_on-shorter head.natural_join (span_until stop head.rest).1,
      span_until-shorter is_keyword (skip_on head.natural_join (span_until stop head.rest).1),
    )

natural-AtJoin :
    (ts : List Text) → AtJoin (skip_on true (span_until (λ t. is_on true t || is_keyword t) ts).1)
unfolding span_until
natural-AtJoin [] = tt
natural-AtJoin (t ∷ ts) = elim (Bool-cases (is_keyword t)) [
  | inl e ↦ rw e e
  | inr e ↦ rw e (natural-AtJoin ts)
]

parse_join-AtJoin : (head : JoinHead) (pq : ParsedQuery) → AtJoin (parse_join head pq).1
unfolding parse_join
parse_join-AtJoin head pq = elim (Bool-cases head.natural_join) [
  | inl e ↦ rw e (natural-AtJoin head.rest)
  | inr e ↦ rw e (
      span_until-AtJoin
        (skip_on false (span_until (λ t. is_on false t || is_keyword t) head.rest).1))
]

parse_joins-enough :
    (f g : ℕ) (ts : List Text) (pq : ParsedQuery)
    → AtJoin ts
    → length ts ≤ f
    → length ts ≤ g
    → parse_joins f ts pq ≡ parse_joins g ts pq
unfolding parse_joins
parse_joins-enough zero zero ts pq a h k = refl
parse_joins-enough zero (suc g) [] pq a h k = refl
parse_joins-enough zero (suc g) (t ∷ ts) pq a h k = absurd (omega arith)
parse_joins-enough (suc f) zero [] pq a h k = refl
parse_joins-enough (suc f) zero (t ∷ ts) pq a h k = absurd (omega arith)
parse_joins-enough (suc f) (suc g) [] pq a h k = refl
parse_joins-enough (suc f) (suc g) (t ∷ ts) pq a h k =
    let head = join_head (t ∷ ts) false (codes "INNER") in
    let next = parse_join head pq in
    let taken : length head.rest ≤ length ts = join_head-takes t ts false (codes "INNER") a in
    let shorter : length next.1 ≤ length head.rest = parse_join-shorter head pq in
    ap (λ joined. if is_empty head.rest then pq else joined)
      (parse_joins-enough f g next.1 next.0 (parse_join-AtJoin head pq) (omega arith) (omega arith))

-- The loop over the joins never stops for want of rounds: from a word of a join on, with as many rounds
-- as there are tokens or more, one round takes a join, unless nothing stands behind its words, and the
-- rest is the loop on the tokens behind it, which are none or start with a word of a join again.
pub parse_joins-round :
    (fuel : ℕ) (t : Text) (ts : List Text) (pq : ParsedQuery)
    → is_keyword t ≡ true
    → length (t ∷ ts) ≤ fuel
    → let head = join_head (t ∷ ts) false (codes "INNER") in
      let next = parse_join head pq in
      (parse_joins fuel (t ∷ ts) pq
        ≡ (if is_empty head.rest then pq else parse_joins (length next.1) next.1 next.0))
      × AtJoin next.1
unfolding parse_joins
parse_joins-round zero t ts pq a h = absurd (omega arith)
parse_joins-round (suc fuel) t ts pq a h =
    let head = join_head (t ∷ ts) false (codes "INNER") in
    let next = parse_join head pq in
    let taken : length head.rest ≤ length ts = join_head-takes t ts false (codes "INNER") a in
    let shorter : length next.1 ≤ length head.rest = parse_join-shorter head pq in
    (
      ap (λ joined. if is_empty head.rest then pq else joined)
          (parse_joins-enough fuel (length next.1) next.1 next.0 (parse_join-AtJoin head pq)
            (omega arith) (omega arith)),
      parse_join-AtJoin head pq,
    )
