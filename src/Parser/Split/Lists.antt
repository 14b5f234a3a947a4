-- ===== src/Parser/Split/Lists.antt =====
-- `split_list` of src/query_optimizer/parser/utils/parser_utils.cpp on a printed list.
use mathlib.Core.List.{append-nil}
use tubes_if3140_sistem_basi.Base.{
  ℕ, List, [], ◌∷◌, ◌++◌, false, ◌==◌, ◌≡◌, refl, ap, ◌∙◌, map, All, ==_refl,
}
use tubes_if3140_sistem_basi.Base.Key.{Text}
use tubes_if3140_sistem_basi.Base.Set.{is_empty}
use tubes_if3140_sistem_basi.Base.Strings.{
  trim, trim_by, trim_end, skip_while, pieces, push_front, drop_empty,
}
use tubes_if3140_sistem_basi.Parser.Split.{split_list}

-- The items with the delimiter between them.
abbrev pub join_with : ℕ → List Text → Text
join_with delim [] = []
join_with delim (p ∷ []) = p
join_with delim (p ∷ q ∷ ps) = p ++ (delim ∷ join_with delim (q ∷ ps))

abbrev pub Lacks : ℕ → Text → Type 0
Lacks delim s = All (λ c. (c == delim) ≡ false) s

-- An item that is not blank and in which the delimiter does not stand.
abbrev pub IsItem : ℕ → Text → Type 0
IsItem delim s = Lacks delim s × (is_empty (trim s) ≡ false)

-- A text in front of the first piece.
abbrev put_front : Text → List Text → List Text
put_front [] ps = ps
put_front (c ∷ s) ps = push_front c (put_front s ps)

pieces-append :
    (delim : ℕ) (s t : Text)
    → Lacks delim s
    → pieces (λ c. c == delim) (s ++ t) ≡ put_front s (pieces (λ c. c == delim) t)
unfolding pieces
pieces-append delim [] t h = refl
pieces-append delim (c ∷ s) t h = rw h.0 (ap (push_front c) (pieces-append delim s t h.1))

put_front-first : (s p : Text) (ps : List Text) → put_front s (p ∷ ps) ≡ (s ++ p) ∷ ps
put_front-first [] p ps = refl
put_front-first (c ∷ s) p ps = ap (push_front c) (put_front-first s p ps)

pieces-end : (delim : ℕ) (s : Text) → Lacks delim s → pieces (λ c. c == delim) s ≡ s ∷ []
unfolding pieces
pieces-end delim [] h = refl
pieces-end delim (c ∷ s) h = rw h.0 (ap (push_front c) (pieces-end delim s h.1))

pieces-delim :
    (delim : ℕ) (t : Text) → pieces (λ c. c == delim) (delim ∷ t) ≡ [] ∷ pieces (λ c. c == delim) t
unfolding pieces
pieces-delim delim t = rw (==_refl delim) refl

pieces-join :
    (delim : ℕ) (p : Text) (ps : List Text)
    → All (IsItem delim) (p ∷ ps)
    → pieces (λ c. c == delim) (join_with delim (p ∷ ps)) ≡ p ∷ ps
pieces-join delim p [] h = pieces-end delim p h.0.0
pieces-join delim p (q ∷ ps) h =
    pieces-append delim p (delim ∷ join_with delim (q ∷ ps)) h.0.0
    ∙ rw (pieces-delim delim (join_with delim (q ∷ ps)), pieces-join delim q ps h.1)
        (put_front-first p [] (q ∷ ps) ∙ ap (λ s. s ∷ q ∷ ps) (append-nil p))

drop_empty-items :
    (delim : ℕ) (ps : List Text) → All (IsItem delim) ps → drop_empty (map trim ps) ≡ map trim ps
unfolding drop_empty
drop_empty-items delim [] h = refl
drop_empty-items delim (p ∷ ps) h =
    rw h.0.1 (ap (λ rest. trim p ∷ rest) (drop_empty-items delim ps h.1))

split_list-nil : (delim : ℕ) → split_list [] delim ≡ []
unfolding split_list pieces drop_empty trim trim_by trim_end skip_while
split_list-nil delim = refl

-- A list of items that are not blank and hold no delimiter is read back from its text, whatever spaces
-- stand around the items: each item is trimmed, none is lost, and their order is kept.
pub split_list-join :
    (delim : ℕ) (ps : List Text)
    → All (IsItem delim) ps
    → split_list (join_with delim ps) delim ≡ map trim ps
unfolding split_list
split_list-join delim [] h = split_list-nil delim
split_list-join delim (p ∷ ps) h = rw (pieces-join delim p ps h) (drop_empty-items delim (p ∷ ps) h)
