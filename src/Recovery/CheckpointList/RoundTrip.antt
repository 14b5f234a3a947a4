-- ===== src/Recovery/CheckpointList/RoundTrip.antt =====
-- The list of transactions that a checkpoint prints is read back.
use mathlib.Core.List.{append_assoc, append-nil}
use tubes_if3140_sistem_basi.Base.{
  ℕ, List, [], ◌∷◌, ◌++◌, Bool, true, false, ◌||◌, some, ◌==◌, if◌then◌else◌, ◌≡◌, refl, sym, ap,
  ◌∙◌, arith, All, All-append,
}
use tubes_if3140_sistem_basi.Base.Key.{Text}
use tubes_if3140_sistem_basi.Base.Set
use tubes_if3140_sistem_basi.Base.Set.{contains, contains-insert}
use tubes_if3140_sistem_basi.Base.Strings.{skip_while}
use tubes_if3140_sistem_basi.Base.Numbers.{to_string, signed, stoi}
use tubes_if3140_sistem_basi.Base.Numbers.RoundTrip.{
  AreDigits, digits-AreDigits, IsNatural, to_string-digits, stoi-to_string,
}
use tubes_if3140_sistem_basi.Recovery.CheckpointList.{print_list, split_at, add_token, add_tokens}

-- What is inserted one by one.
abbrev insert_all : List ℕ → List ℕ → List ℕ
insert_all [] acc = acc
insert_all (t ∷ ts) acc = insert_all ts (Set.insert t acc)

contains-insert_all :
    (x : ℕ) (ts acc : List ℕ) → contains x (insert_all ts acc) ≡ (contains x ts || contains x acc)
unfolding contains
contains-insert_all x [] acc = refl
contains-insert_all x (t ∷ ts) acc =
    ground (arith, contains-insert_all x ts (Set.insert t acc), contains-insert t x acc)

add_tokens-digits :
    (token s : Text) (rest : Text) (acc : List ℕ)
    → AreDigits s
    → add_tokens token (s ++ rest) acc ≡ add_tokens (token ++ s) rest acc
unfolding add_tokens
add_tokens-digits token [] rest acc h = rw (append-nil token) refl
add_tokens-digits token (c ∷ s) rest acc h =
    let other : (c == 44) ≡ false = ground (arith, h.0) in
    rw (other, sym (append_assoc token (c ∷ []) s))
      (add_tokens-digits (token ++ (c ∷ [])) s rest acc h.1)

add_token-to_string :
    (t : ℕ) (acc : List ℕ) → IsNatural t → add_token (to_string t) acc ≡ Set.insert t acc
unfolding add_token
add_token-to_string t acc h = rw (stoi-to_string t h, add_token) refl

to_string-AreDigits : (t : ℕ) → IsNatural t → AreDigits (to_string t)
to_string-AreDigits t h = rw (to_string-digits t h) (digits-AreDigits 10 t)

-- One number, and the numbers behind it.
add_tokens-to_string :
    (t : ℕ) (rest : Text) (acc : List ℕ)
    → IsNatural t
    → add_tokens [] (to_string t ++ rest) acc ≡ add_tokens (to_string t) rest acc
add_tokens-to_string t rest acc h =
    add_tokens-digits [] (to_string t) rest acc (to_string-AreDigits t h)

add_tokens-print_list :
    (ts : List ℕ) (token : Text) (acc : List ℕ)
    → All IsNatural ts
    → add_tokens token (print_list false ts) acc ≡ insert_all ts (add_token token acc)
unfolding add_tokens print_list
add_tokens-print_list [] token acc h = refl
add_tokens-print_list (t ∷ ts) token acc h =
    add_tokens-to_string t (print_list false ts) (add_token token acc) h.0
    ∙ add_tokens-print_list ts (to_string t) (add_token token acc) h.1
    ∙ ap (insert_all ts) (add_token-to_string t (add_token token acc) h.0)

singleton_lem :
    (x t : ℕ) (ts : List ℕ) → (contains x ts || contains x (Set.insert t [])) ≡ contains x (t ∷ ts)
unfolding contains Set.insert
singleton_lem x t ts = ground arith

-- Reading the printed numbers gives a set with exactly these members.
pub contains-add_tokens :
    (x : ℕ) (ts : List ℕ)
    → All IsNatural ts
    → contains x (add_tokens [] (print_list true ts) []) ≡ contains x ts
unfolding print_list
contains-add_tokens x [] h = unfold add_tokens add_token stoi signed skip_while contains in refl
contains-add_tokens x (t ∷ ts) h =
    ap (contains x) (
      add_tokens-to_string t (print_list false ts) [] h.0
      ∙ add_tokens-print_list ts (to_string t) [] h.1
      ∙ ap (insert_all ts) (add_token-to_string t [] h.0))
    ∙ contains-insert_all x ts (Set.insert t [])
    ∙ singleton_lem x t ts

-- No character of the text is a closing bracket.
abbrev pub IsPlain : Text → Type 0
IsPlain s = All (λ c. (c == 93) ≡ false) s

digits-IsPlain : (s : Text) → AreDigits s → IsPlain s
digits-IsPlain [] h = tt
digits-IsPlain (c ∷ s) h = (ground (arith, h.0), digits-IsPlain s h.1)

comma-IsPlain : (first : Bool) → IsPlain (if first then [] else b',' ∷ [])
comma-IsPlain true = tt
comma-IsPlain false = (refl, tt)

pub print_list-IsPlain :
    (first : Bool) (ts : List ℕ) → All IsNatural ts → IsPlain (print_list first ts)
unfolding print_list
print_list-IsPlain first [] h = tt
print_list-IsPlain first (t ∷ ts) h =
    All-append (λ c. (c == 93) ≡ false) (if first then [] else b',' ∷ [])
      (to_string t ++ print_list false ts) (comma-IsPlain first)
      (All-append (λ c. (c == 93) ≡ false) (to_string t) (print_list false ts)
        (digits-IsPlain (to_string t) (to_string-AreDigits t h.0))
        (print_list-IsPlain false ts h.1))

pub split_at-end : (s : Text) → IsPlain s → split_at 93 (s ++ (93 ∷ [])) ≡ some (s, [])
unfolding split_at
split_at-end [] h = refl
split_at-end (c ∷ s) h = rw (h.0, split_at-end s h.1) refl
