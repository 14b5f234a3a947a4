-- ===== src/Base/Strings/Find.antt =====
-- Where `find` stops in a text that is put together of parts.
use mathlib.Core.List.{map-append}
use tubes_if3140_sistem_basi.Base.{
  ℕ, suc, ◌+◌, List, [], ◌∷◌, ◌++◌, true, false, ◌&&◌, ◌==◌, Option, none, some, ◌≡◌, refl, ap, ◌∙◌,
  All, length, arith, Option-cases, inl, inr,
}
use tubes_if3140_sistem_basi.Base.Key.{Text}
use tubes_if3140_sistem_basi.Base.Strings.{
  take, drop, starts_with, later, find_text, to_upper, upper_char,
}

pub drop-append {ℓ} : {A : Type ℓ} (xs ys : List A) → drop (length xs) (xs ++ ys) ≡ ys
unfolding drop
drop-append [] ys = refl
drop-append (x ∷ xs) ys = drop-append xs ys

pub take-append {ℓ} : {A : Type ℓ} (xs ys : List A) → take (length xs) (xs ++ ys) ≡ xs
unfolding take
take-append [] ys = refl
take-append (x ∷ xs) ys = ap (λ s. x ∷ s) (take-append xs ys)

pub drop-append_more {ℓ} :
    {A : Type ℓ} (n : ℕ) (xs ys : List A) → drop (length xs + n) (xs ++ ys) ≡ drop n ys
unfolding drop
drop-append_more n [] ys = let e : 0 + n ≡ n = omega arith in rw e refl
drop-append_more n (x ∷ xs) ys =
    let e : suc (length xs) + n ≡ suc (length xs + n) = omega arith in
    rw e (drop-append_more n xs ys)

pub to_upper-append : (s t : Text) → to_upper (s ++ t) ≡ to_upper s ++ to_upper t
unfolding to_upper
to_upper-append s t = map-append upper_char s t

pub length-to_upper : (s : Text) → length (to_upper s) ≡ length s
unfolding to_upper
length-to_upper [] = refl
length-to_upper (c ∷ s) = ap suc (length-to_upper s)

-- A pattern whose only space is its last character fits in front of a space, or not at all.
starts_with-unspaced :
    (w u z : Text)
    → All (λ c. (c == 32) ≡ false) w
    → starts_with (w ++ (32 ∷ [])) (u ++ (32 ∷ z)) ≡ starts_with (w ++ (32 ∷ [])) (u ++ (32 ∷ []))
unfolding starts_with
starts_with-unspaced [] [] z h = refl
starts_with-unspaced [] (c ∷ u) z h = refl
starts_with-unspaced (a ∷ w) [] z h = rw h.0 refl
starts_with-unspaced (a ∷ w) (c ∷ u) z h = ap (λ b. a == c && b) (starts_with-unspaced w u z h.1)

-- A text, and the pattern of a word between two spaces that is nowhere in the text and a space.
module _ (w : Text) (unspaced : All (λ c. (c == 32) ≡ false) w) where
  abbrev pub between : Text
  between = 32 ∷ (w ++ (32 ∷ []))

  starts_with-absent :
      (c : ℕ) (u z : Text)
      → find_text between (c ∷ (u ++ (32 ∷ []))) ≡ none
      → starts_with between (c ∷ (u ++ (32 ∷ z))) ≡ false
  unfolding find_text starts_with
  starts_with-absent c u z absent = ground (arith, starts_with-unspaced w u z unspaced)

  find_text-absent :
      (c : ℕ) (u : Text) → find_text between (c ∷ u) ≡ none → find_text between u ≡ none
  unfolding find_text
  find_text-absent c u absent = elim (Option-cases (find_text between u)) [
    | inl e ↦ e
    | inr (i, e) ↦ ground arith
  ]

  find_text-skip :
      (c : ℕ) (s : Text)
      → starts_with between (c ∷ s) ≡ false
      → find_text between (c ∷ s) ≡ later 1 (find_text between s)
  unfolding find_text
  find_text-skip c s other = rw other refl

  -- The pattern is found first where it was put.
  pub find_text-here :
      (u z : Text)
      → find_text between (u ++ (32 ∷ [])) ≡ none
      → starts_with between (32 ∷ z) ≡ true
      → find_text between (u ++ (32 ∷ z)) ≡ some (length u)
  find_text-here [] z absent here = unfold find_text in rw here refl
  find_text-here (c ∷ u) z absent here =
      find_text-skip c (u ++ (32 ∷ z)) (starts_with-absent c u z absent)
      ∙ ap (later 1) (find_text-here u z (find_text-absent c (u ++ (32 ∷ [])) absent) here)
      ∙ ap some (omega arith)

  later-later : (n : ℕ) (o : Option ℕ) → later 1 (later (n + 1) o) ≡ later (suc n + 1) o
  later-later n none = refl
  later-later n (some i) = ap some (omega arith)

  -- Or else it is found behind the space, if at all.
  pub find_text-behind :
      (u z : Text)
      → find_text between (u ++ (32 ∷ [])) ≡ none
      → starts_with between (32 ∷ z) ≡ false
      → find_text between (u ++ (32 ∷ z)) ≡ later (length u + 1) (find_text between z)
  find_text-behind [] z absent other = find_text-skip 32 z other
  find_text-behind (c ∷ u) z absent other =
      find_text-skip c (u ++ (32 ∷ z)) (starts_with-absent c u z absent)
      ∙ ap (later 1) (find_text-behind u z (find_text-absent c (u ++ (32 ∷ [])) absent) other)
      ∙ later-later (length u) (find_text between z)
