-- ===== src/Base/Order.antt =====
-- Maps whose entries stand in the order of their keys, each key once.
use tubes_if3140_sistem_basi.Base.{
  [], ◌∷◌, true, false, none, some, ◌≡◌, refl, sym, All, Bool-cases, inl, inr, ◌⊎◌, arith, subst,
}
use tubes_if3140_sistem_basi.Base.Key.{
  Key, Text, nat_key, text_key, text_before, text_same, pair_key, pair_before, pair_same,
}
use tubes_if3140_sistem_basi.Base.Map.{Map, find, put, erase}

-- `<` on the keys is a strict total order.
pub record IsOrder {ℓ} {K : Type ℓ} (key : Key K) : Type ℓ where
  pub irreflexive : (a : K) → key.before a a ≡ false
  pub transitive :
      (a b c : K) → key.before a b ≡ true → key.before b c ≡ true → key.before a c ≡ true
  pub total : (a b : K) → key.same a b ≡ false → key.before a b ≡ false → key.before b a ≡ true

pub nat_key-IsOrder : IsOrder nat_key
nat_key-IsOrder = record {
  irreflexive = λ a. ground arith;
  transitive = λ a b c h k. ground arith;
  total = λ a b h k. ground arith;
}

text_before-irreflexive : (s : Text) → text_before s s ≡ false
unfolding text_before
text_before-irreflexive [] = refl
text_before-irreflexive (a ∷ s) = ground (arith, text_before-irreflexive s)

text_before-transitive :
    (s t u : Text) → text_before s t ≡ true → text_before t u ≡ true → text_before s u ≡ true
unfolding text_before
text_before-transitive [] [] u h k = cc
text_before-transitive [] (b ∷ t) [] h k = cc
text_before-transitive [] (b ∷ t) (c ∷ u) h k = refl
text_before-transitive (a ∷ s) [] u h k = cc
text_before-transitive (a ∷ s) (b ∷ t) [] h k = cc
text_before-transitive (a ∷ s) (b ∷ t) (c ∷ u) h k =
    ground (arith, h, k, text_before-transitive s t u)

text_before-total :
    (s t : Text) → text_same s t ≡ false → text_before s t ≡ false → text_before t s ≡ true
unfolding text_before text_same
text_before-total [] [] h k = cc
text_before-total [] (b ∷ t) h k = cc
text_before-total (a ∷ s) [] h k = refl
text_before-total (a ∷ s) (b ∷ t) h k = ground (arith, h, k, text_before-total s t)

pub text_key-IsOrder : IsOrder text_key
text_key-IsOrder = record {
  irreflexive = text_before-irreflexive;
  transitive = text_before-transitive;
  total = text_before-total;
}

module _ {ℓ κ} {A : Type ℓ} {B : Type κ} ⦃a : Key A⦄ ⦃b : Key B⦄ (oa : IsOrder a)
    (ob : IsOrder b) where
  pair-irreflexive : (p : A × B) → pair_before p p ≡ false
  unfolding pair_before
  pair-irreflexive (x, y) = ground (arith, oa.irreflexive x, ob.irreflexive y)

  pair-transitive :
      (p q r : A × B) → pair_before p q ≡ true → pair_before q r ≡ true → pair_before p r ≡ true
  unfolding pair_before
  pair-transitive (x, y) (u, v) (s, t) h k = elim (Bool-cases (a.same x u)) [
    | inl e ↦
        let ux : u ≡ x = sym ((a.same_iff x u).0 e) in
        let h' = subst (λ z. pair_before (x, y) (z, v) ≡ true) ux h in
        let k' = subst (λ z. pair_before (z, v) (s, t) ≡ true) ux k in
        ground (arith, h', k', oa.irreflexive x, ob.transitive y v t)
    | inr e ↦ elim (Bool-cases (a.same u s)) [
      | inl f ↦
          let h' = subst (λ z. pair_before (x, y) (z, v) ≡ true) ((a.same_iff u s).0 f) h in
          let apart = subst (λ z. a.same x z ≡ false) ((a.same_iff u s).0 f) e in
          ground (arith, h', apart)
      | inr f ↦ ground (arith, h, k, e, f, oa.transitive x u s)
    ]
  ]

  pair-total :
      (p q : A × B) → pair_same p q ≡ false → pair_before p q ≡ false → pair_before q p ≡ true
  unfolding pair_before pair_same
  pair-total (x, y) (u, v) h k =
      ground (arith, h, k, oa.total x u, ob.total y v, a.same_iff x u, a.same_iff u x)

  pub pair_key-IsOrder : IsOrder (pair_key {A = A} {B = B})
  pair_key-IsOrder = record {
    irreflexive = pair-irreflexive;
    transitive = pair-transitive;
    total = pair-total;
  }

module _ {ℓ} {K : Type ℓ} ⦃key : Key K⦄ where
  not_same : (i k : K) → key.same i k ≡ false → key.same k i ≡ false
  not_same i k h = ground (arith, h, key.same_iff i k, key.same_iff k i)

  pub later_key : (o : IsOrder key) (j k : K) → key.before j k ≡ true → key.same j k ≡ false
  later_key o j k h = elim (Bool-cases (key.same j k)) [
    | inl e ↦
        let jj : key.before j j ≡ true =
          subst (λ z. key.before j z ≡ true) (sym ((key.same_iff j k).0 e)) h in
        absurd (ground (arith, jj, o.irreflexive j))
    | inr e ↦ e
  ]

module _ {ℓ κ} {K : Type ℓ} {V : Type κ} ⦃key : Key K⦄ (o : IsOrder key) where
  -- The entries stand in the order of their keys.
  abbrev pub IsSorted : Map K V → Type ℓ
  IsSorted [] = Unit
  IsSorted ((k, v) ∷ m) = All (λ e. key.before k e.0 ≡ true) m × IsSorted m

  All-before :
      (j k : K) (m : Map K V)
      → key.before j k ≡ true
      → All (λ e. key.before k e.0 ≡ true) m
      → All (λ e. key.before j e.0 ≡ true) m
  All-before j k [] h hs = tt
  All-before j k (e ∷ m) h hs = (o.transitive j k e.0 h hs.0, All-before j k m h hs.1)

  put-All :
      (j k : K) (v : V) (m : Map K V)
      → key.before j k ≡ true
      → All (λ e. key.before j e.0 ≡ true) m
      → All (λ e. key.before j e.0 ≡ true) (put k v m)
  unfolding put
  put-All j k v [] h hs = (h, tt)
  put-All j k v ((i, w) ∷ m) h hs = ground (arith, h, hs, put-All j k v m h hs.1)

  pub put-IsSorted : (k : K) (v : V) (m : Map K V) → IsSorted m → IsSorted (put k v m)
  unfolding put
  put-IsSorted k v [] h = (tt, tt)
  put-IsSorted k v ((i, w) ∷ m) h = elim (Bool-cases (key.same i k)) [
    | inl e ↦
        rw e (subst (λ x. All (λ f. key.before x f.0 ≡ true) m) ((key.same_iff i k).0 e) h.0, h.1)
    | inr e ↦ elim (Bool-cases (key.before k i)) [
      | inl f ↦ rw (e, f) ((f, All-before k i m f h.0), h)
      | inr f ↦
          rw (e, f) (put-All i k v m (o.total k i (not_same i k e) f) h.0, put-IsSorted k v m h.1)
    ]
  ]

  erase-All :
      (j k : K) (m : Map K V)
      → All (λ e. key.before j e.0 ≡ true) m
      → All (λ e. key.before j e.0 ≡ true) (erase k m)
  unfolding erase
  erase-All j k [] h = tt
  erase-All j k ((i, w) ∷ m) h = ground (arith, h, erase-All j k m h.1)

  pub erase-IsSorted : (k : K) (m : Map K V) → IsSorted m → IsSorted (erase k m)
  unfolding erase
  erase-IsSorted k [] h = tt
  erase-IsSorted k ((i, w) ∷ m) h = ground (arith, erase-IsSorted k m h.1, erase-All i k m h.0)

module _ {K V : Type 0} where
  abbrev pub IsEntry : K × V → Map K V → Type 0
  IsEntry e [] = ⊥
  IsEntry e (f ∷ m) = (e ≡ f) ⊎ IsEntry e m

  pub IsEntry-All : (P : K × V → Type 0) (e : K × V) (m : Map K V) → All P m → IsEntry e m → P e
  IsEntry-All P e [] h i = absurd i
  IsEntry-All P e (f ∷ m) h (inl same) = subst P (sym same) h.0
  IsEntry-All P e (f ∷ m) h (inr i) = IsEntry-All P e m h.1 i

  module _ ⦃key : Key K⦄ (o : IsOrder key) where
    -- An entry of a sorted map is found under its key.
    pub find-IsEntry :
        (e : K × V) (m : Map K V) → IsSorted o m → IsEntry e m → find e.0 m ≡ some e.1
    unfolding find
    find-IsEntry e [] h i = absurd i
    find-IsEntry e ((k, v) ∷ m) h (inl same) =
        subst (λ f. find f.0 ((k, v) ∷ m) ≡ some f.1) (sym same)
          (rw ((key.same_iff k k).1 refl) refl)
    find-IsEntry e ((k, v) ∷ m) h (inr i) =
        rw (later_key o k e.0 (IsEntry-All (λ f. key.before k f.0 ≡ true) e m h.0 i))
          (find-IsEntry e m h.1 i)

    -- A key in front of all others is not found among them.
    pub find-before : (k : K) (m : Map K V) → All (λ e. key.before k e.0 ≡ true) m → find k m ≡ none
    unfolding find
    find-before k [] h = refl
    find-before k ((j, v) ∷ m) h = rw (not_same k j (later_key o k j h.0)) (find-before k m h.1)
