-- ===== src/Storage/Page/Disjoint.antt =====
-- The bytes of the pages in a file: what a page that is put leaves of the others.
use mathlib.Core.List.{append_assoc}
use tubes_if3140_sistem_basi.Base.{
  ℕ, zero, suc, ◌+◌, ◌-◌, ◌*◌, ◌≤◌, [], ◌∷◌, ◌++◌, ◌≡◌, ◌≢◌, refl, sym, ap, ◌∙◌, length,
  length-append, ◌⊎◌, inl, inr, ◌<◌, ltb, ltb→lt, Bool-cases, if◌then◌else◌, subst, arith,
}
use tubes_if3140_sistem_basi.Base.Strings.{take, drop}
use tubes_if3140_sistem_basi.Base.Strings.Trim.{length-drop}
use tubes_if3140_sistem_basi.Base.Strings.Find.{take-append, drop-append}
use tubes_if3140_sistem_basi.Recovery.Codec.{Bytes}
use tubes_if3140_sistem_basi.Storage.Page.{page_size, resize, page_bytes, put_page}

abbrev pub zeros : ℕ → Bytes
zeros n = resize n []

drop-nil : (n : ℕ) → drop {A = ℕ} n [] ≡ []
unfolding drop
drop-nil zero = refl
drop-nil (suc n) = refl

drop-add : (m n : ℕ) (xs : Bytes) → drop (m + n) xs ≡ drop n (drop m xs)
unfolding drop
drop-add zero n xs = let e : 0 + n ≡ n = omega arith in rw e refl
drop-add (suc m) n [] = let e : suc m + n ≡ suc (m + n) = omega arith in rw (e, drop-nil n) refl
drop-add (suc m) n (x ∷ xs) =
    let e : suc m + n ≡ suc (m + n) = omega arith in rw e (drop-add m n xs)

pub length-resize : (n : ℕ) (xs : Bytes) → length (resize n xs) ≡ n
unfolding resize
length-resize zero xs = refl
length-resize (suc n) [] = omega (arith, length-resize n [])
length-resize (suc n) (x ∷ xs) = omega (arith, length-resize n xs)

-- A text that is not too long, and zeros behind it.
pub resize-short :
    (n : ℕ) (xs : Bytes) → length xs ≤ n → resize n xs ≡ xs ++ resize (n - length xs) []
unfolding resize
resize-short zero [] h = refl
resize-short zero (x ∷ xs) h = absurd (omega arith)
resize-short (suc n) [] h = let e : suc n - 0 ≡ suc n = omega arith in rw e refl
resize-short (suc n) (x ∷ xs) h =
    let e : suc n - suc (length xs) ≡ n - length xs = omega arith in
    rw e (ap (λ s. x ∷ s) (resize-short n xs (omega arith)))

-- A text that is long enough is cut.
resize-long : (n : ℕ) (xs : Bytes) → n ≤ length xs → resize n xs ≡ take n xs
unfolding resize take
resize-long zero xs h = refl
resize-long (suc n) [] h = absurd (omega arith)
resize-long (suc n) (x ∷ xs) h = ap (λ s. x ∷ s) (resize-long n xs (omega arith))

resize-add : (m n : ℕ) (xs : Bytes) → resize (m + n) xs ≡ resize m xs ++ resize n (drop m xs)
unfolding resize drop
resize-add zero n xs = let e : 0 + n ≡ n = omega arith in rw e refl
resize-add (suc m) n [] =
    let e : suc m + n ≡ suc (m + n) = omega arith in
    rw e (ap (λ s. 0 ∷ s) (resize-add m n [] ∙ rw (drop-nil m) refl))
resize-add (suc m) n (x ∷ xs) =
    let e : suc m + n ≡ suc (m + n) = omega arith in rw e (ap (λ s. x ∷ s) (resize-add m n xs))

-- The bytes between two others.
window :
    (m n : ℕ) (xs ys zs : Bytes)
    → length xs ≡ m
    → length ys ≡ n
    → take n (drop m (xs ++ (ys ++ zs))) ≡ ys
window m n xs ys zs h k = rw (sym h, sym k, drop-append xs (ys ++ zs)) (take-append ys zs)

-- A page is read as it was put.
pub page_bytes-put_page :
    (page_id : ℕ) (bytes file : Bytes)
    → length bytes ≡ page_size
    → page_bytes page_id (put_page page_id bytes file) ≡ bytes
unfolding page_bytes put_page
page_bytes-put_page page_id bytes file h =
    window (page_id * page_size) page_size (resize (page_id * page_size) file) bytes
      (drop (page_id * page_size + page_size) file) (length-resize (page_id * page_size) file) h

-- A file of whole pages.
abbrev pub IsPaged : Bytes → Type 0
IsPaged file = (n : ℕ) × (length file ≡ n * page_size)

later_page : (i k : ℕ) → (i + suc k) * page_size ≡ i * page_size + (page_size + k * page_size)
unfolding page_size
later_page i k = omega arith

drop-prefix : (m : ℕ) (xs ys : Bytes) → length xs ≡ m → drop m (xs ++ ys) ≡ ys
drop-prefix m xs ys h = rw (sym h) (drop-append xs ys)

-- The page before the one that is put.
page_bytes-before :
    (i k : ℕ) (bytes file : Bytes)
    → page_bytes i (put_page (i + suc k) bytes file) ≡ resize page_size (drop (i * page_size) file)
unfolding page_bytes put_page
page_bytes-before i k bytes file =
    let here = drop (i * page_size) file in
    rw
      (
        later_page i k,
        resize-add (i * page_size) (page_size + k * page_size) file,
        resize-add page_size (k * page_size) here,
        append_assoc (resize (i * page_size) file)
            (resize page_size here ++ resize (k * page_size) (drop page_size here))
            (bytes ++ drop (i * page_size + (page_size + k * page_size) + page_size) file),
        append_assoc (resize page_size here) (resize (k * page_size) (drop page_size here))
            (bytes ++ drop (i * page_size + (page_size + k * page_size) + page_size) file),
      )
      (window (i * page_size) page_size (resize (i * page_size) file) (resize page_size here)
        (resize (k * page_size) (drop page_size here)
          ++ (bytes ++ drop (i * page_size + (page_size + k * page_size) + page_size) file))
        (length-resize (i * page_size) file) (length-resize page_size here))

page_bytes-after :
    (j k : ℕ) (bytes file : Bytes)
    → length bytes ≡ page_size
    → page_bytes (j + suc k) (put_page j bytes file) ≡ page_bytes (j + suc k) file
unfolding page_bytes put_page
page_bytes-after j k bytes file h =
    let front = resize (j * page_size) file in
    let tail = drop (j * page_size + page_size) file in
    rw
      (
        later_page j k,
        drop-add (j * page_size) (page_size + k * page_size) (front ++ (bytes ++ tail)),
        drop-prefix (j * page_size) front (bytes ++ tail) (length-resize (j * page_size) file),
        drop-add page_size (k * page_size) (bytes ++ tail),
        drop-prefix page_size bytes tail h,
        drop-add (j * page_size) page_size file,
        drop-add (j * page_size) (page_size + k * page_size) file,
        drop-add page_size (k * page_size) (drop (j * page_size) file),
      )
      refl

-- From a place between pages on a file has a whole page, or nothing.
abbrev IsWhole : Bytes → Type 0
IsWhole xs = (xs ≡ []) ⊎ (page_size ≤ length xs)

length-nil : (xs : Bytes) → length xs ≡ 0 → xs ≡ []
length-nil [] h = refl
length-nil (x ∷ xs) h = absurd (omega arith)

take-nil : (n : ℕ) → take {A = ℕ} n [] ≡ []
unfolding take
take-nil zero = refl
take-nil (suc n) = refl

drop-IsWhole : (i : ℕ) (file : Bytes) → IsPaged file → IsWhole (drop (i * page_size) file)
unfolding page_size
drop-IsWhole i file (n, e) = elim (Bool-cases (ltb i n)) [
  | inl inside ↦
      let l : i < n = ltb→lt i n inside in inr (omega (arith, length-drop (i * 4096) file))
  | inr outside ↦
      let l : n ≤ i = ground arith in
      inl (length-nil (drop (i * 4096) file) (omega (arith, length-drop (i * 4096) file)))
]

resize-IsWhole :
    (xs : Bytes)
    → IsWhole xs
    → ((take page_size xs ≡ []) × (resize page_size xs ≡ zeros page_size))
      ⊎ (resize page_size xs ≡ take page_size xs)
resize-IsWhole xs (inl none_left) = inl (rw none_left (take-nil page_size), rw none_left refl)
resize-IsWhole xs (inr enough) = inr (resize-long page_size xs enough)

-- A page that is put leaves the others, but for a page behind the end of the file that the page in
-- front of it now has zeros in.
pub page_bytes-other :
    (i j : ℕ) (bytes file : Bytes)
    → i ≢ j
    → length bytes ≡ page_size
    → IsPaged file
    → ((page_bytes i file ≡ []) × (page_bytes i (put_page j bytes file) ≡ zeros page_size))
      ⊎ (page_bytes i (put_page j bytes file) ≡ page_bytes i file)
unfolding page_bytes
page_bytes-other i j bytes file h k paged = elim (Bool-cases (ltb i j)) [
  | inl before ↦
      let e : j ≡ i + suc (j - suc i) = ground arith in
      subst
        (λ x.
          ((page_bytes i file ≡ []) × (page_bytes i (put_page x bytes file) ≡ zeros page_size))
          ⊎ (page_bytes i (put_page x bytes file) ≡ page_bytes i file))
        (sym e)
        (rw (page_bytes-before i (j - suc i) bytes file)
          (resize-IsWhole (drop (i * page_size) file) (drop-IsWhole i file paged)))
  | inr after ↦
      let e : i ≡ j + suc (i - suc j) = ground arith in
      inr (
        subst (λ x. page_bytes x (put_page j bytes file) ≡ page_bytes x file) (sym e)
          (page_bytes-after j (i - suc j) bytes file k))
]

length-put_page :
    (j : ℕ) (bytes file : Bytes)
    → length bytes ≡ page_size
    → length (put_page j bytes file)
      ≡ j * page_size + (page_size + (length file - (j * page_size + page_size)))
unfolding put_page
length-put_page j bytes file h =
    let front = resize (j * page_size) file in
    let tail = drop (j * page_size + page_size) file in
    omega (
      arith,
      h,
      length-append front (bytes ++ tail),
      length-append bytes tail,
      length-resize (j * page_size) file,
      length-drop (j * page_size + page_size) file,
    )

sizes :
    (j n size : ℕ)
    → size ≡ n * page_size
    → j * page_size + (page_size + (size - (j * page_size + page_size)))
      ≡ (if ltb j n then n else suc j) * page_size
unfolding page_size
sizes j n size e = elim (Bool-cases (ltb j n)) [
  | inl inside ↦ let l : j < n = ltb→lt j n inside in rw inside (omega arith)
  | inr outside ↦ let l : n ≤ j = ground arith in rw outside (omega arith)
]

pub put_page-IsPaged :
    (j : ℕ) (bytes file : Bytes)
    → length bytes ≡ page_size
    → IsPaged file
    → IsPaged (put_page j bytes file)
unfolding put_page
put_page-IsPaged j bytes file h (n, e) =
    (if ltb j n then n else suc j, length-put_page j bytes file h ∙ sizes j n (length file) e)
