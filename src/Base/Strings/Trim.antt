-- ===== src/Base/Strings/Trim.antt =====
-- What `trim` leaves, and the lengths of parts of a text.
use tubes_if3140_sistem_basi.Base.{
  ℕ, zero, suc, ◌-◌, List, [], ◌∷◌, ◌++◌, false, ◌&&◌, ◌≡◌, refl, All, length, arith,
}
use tubes_if3140_sistem_basi.Base.Key.{Text}
use tubes_if3140_sistem_basi.Base.Set.{is_empty}
use tubes_if3140_sistem_basi.Base.Strings.{is_space, skip_while, trim_end, trim_by, trim, drop}

pub length-drop {ℓ} : {A : Type ℓ} (n : ℕ) (s : List A) → length (drop n s) ≡ length s - n
unfolding drop
length-drop zero s = omega arith
length-drop (suc n) [] = omega arith
length-drop (suc n) (c ∷ s) = omega (arith, length-drop n s)

trim_end-keep :
    (c : ℕ) (s t : Text)
    → trim_end is_space s ≡ t
    → (is_space c && is_empty t) ≡ false
    → trim_end is_space (c ∷ s) ≡ c ∷ t
unfolding trim_end
trim_end-keep c s t e h = rw (e, h) refl

trim_end-nil : trim_end is_space [] ≡ []
unfolding trim_end
trim_end-nil = refl

snoc-is_empty : (c d : ℕ) (s : Text) → (is_space c && is_empty (s ++ (d ∷ []))) ≡ false
snoc-is_empty c d [] = ground arith
snoc-is_empty c d (e ∷ s) = ground arith

-- A text that ends in no space loses nothing at its end.
pub trim_end-snoc :
    (s : Text) (c : ℕ) → is_space c ≡ false → trim_end is_space (s ++ (c ∷ [])) ≡ s ++ (c ∷ [])
trim_end-snoc [] c h = trim_end-keep c [] [] trim_end-nil (rw h refl)
trim_end-snoc (d ∷ s) c h =
    trim_end-keep d (s ++ (c ∷ [])) (s ++ (c ∷ [])) (trim_end-snoc s c h) (snoc-is_empty d c s)

trim_end-unspaced : (s : Text) → All (λ c. is_space c ≡ false) s → trim_end is_space s ≡ s
unfolding trim_end
trim_end-unspaced [] h = refl
trim_end-unspaced (c ∷ s) h = trim_end-keep c s s (trim_end-unspaced s h.1) (ground (arith, h.0))

pub trim-unspaced : (s : Text) → All (λ c. is_space c ≡ false) s → trim s ≡ s
unfolding trim trim_by skip_while
trim-unspaced [] h = trim_end-unspaced [] tt
trim-unspaced (c ∷ s) h = rw h.0 (trim_end-unspaced (c ∷ s) h)
