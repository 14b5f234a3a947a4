-- ===== src/Parser/Split/Tokens.antt =====
-- What `tokenize` of src/query_optimizer/parser/utils/parser_utils.cpp keeps of its text.
use mathlib.Core.List.{append_assoc, append-nil}
use tubes_if3140_sistem_basi.Base.{
  ℕ, List, [], ◌∷◌, ◌++◌, Bool, true, false, not, ◌&&◌, ◌||◌, ◌==◌, if◌then◌else◌, ◌≡◌, refl, sym,
  ap, ◌∙◌, All, All-append, Bool-cases, inl, inr, arith,
}
use tubes_if3140_sistem_basi.Base.Key.{Text}
use tubes_if3140_sistem_basi.Base.Set.{is_empty}
use tubes_if3140_sistem_basi.Base.Strings.{is_space, concat, concat-append}
use tubes_if3140_sistem_basi.Parser.Split.{
  Tokenizer, flush, push_char, push_token, close_quote, token_char, scan_tokens, start_tokens,
  tokenize,
}

-- Whether a quote is open behind a character.
abbrev pub single_after : Bool → Bool → ℕ → Bool
single_after single double c = if c == b'\'' && not double then not single else single

abbrev pub double_after : Bool → Bool → ℕ → Bool
double_after single double c =
    if c == b'\'' && not double
    then double
    else if c == b'"' && not single
    then not double
    else double

-- The text without the spaces that stand outside quotes.
abbrev pub unspaced : Bool → Bool → Text → Text
unspaced single double [] = []
unspaced single double (c ∷ s) =
    let rest = unspaced (single_after single double c) (double_after single double c) s in
    if not (single || double) && is_space c then rest else c ∷ rest

abbrev written : Tokenizer → Text
written t = concat t.tokens ++ t.current

abbrev NonEmpty : Text → Type 0
NonEmpty s = is_empty s ≡ false

abbrev kept : Tokenizer → ℕ → Text
kept t c = if not (t.in_single || t.in_double) && is_space c then [] else c ∷ []

is_empty-nil : (s : Text) → is_empty s ≡ true → s ≡ []
is_empty-nil [] h = refl
is_empty-nil (c ∷ s) h = cc

flush-written : (t : Tokenizer) → written (flush t) ≡ written t
unfolding flush
flush-written t = elim (Bool-cases (is_empty t.current)) [
  | inl e ↦ rw e refl
  | inr e ↦
      rw (e, concat-append t.tokens (t.current ∷ []), append-nil t.current)
        (append-nil (concat t.tokens ++ t.current))
]

push_char-written : (c : ℕ) (t : Tokenizer) → written (push_char c t) ≡ written t ++ (c ∷ [])
push_char-written c t = sym (append_assoc (concat t.tokens) t.current (c ∷ []))

close_quote-written : (inside : Bool) (t : Tokenizer) → written (close_quote inside t) ≡ written t
close_quote-written true t = flush-written t
close_quote-written false t = refl

-- A token between two others.
push_token-written :
    (c : ℕ) (t : Tokenizer) → written (push_token (c ∷ []) (flush t)) ≡ written t ++ (c ∷ [])
unfolding flush
push_token-written c t = elim (Bool-cases (is_empty t.current)) [
  | inl e ↦
      rw (e, concat-append t.tokens ((c ∷ []) ∷ []), is_empty-nil t.current e)
        (simp (append-nil) refl)
  | inr e ↦
      rw
        (
          e,
          concat-append (t.tokens ++ (t.current ∷ [])) ((c ∷ []) ∷ []),
          concat-append t.tokens (t.current ∷ []),
        )
        (simp (append-nil, append_assoc) refl)
]

quote_kept : (t : Tokenizer) (c : ℕ) → is_space c ≡ false → kept t c ≡ c ∷ []
quote_kept t c h = ground (arith, h)

plain-written :
    (c : ℕ) (t : Tokenizer)
    → written (
        if is_space c
        then flush t
        else if c == b',' || (c == b'(' || c == b')')
        then push_token (c ∷ []) (flush t)
        else push_char c t)
      ≡ written t ++ (if is_space c then [] else c ∷ [])
plain-written c t = elim (Bool-cases (is_space c)) [
  | inl space ↦ rw space (flush-written t ∙ sym (append-nil (written t)))
  | inr mark ↦ elim (Bool-cases (c == b',' || (c == b'(' || c == b')'))) [
    | inl alone ↦ rw (mark, alone) (push_token-written c t)
    | inr plain ↦ rw (mark, plain) (push_char-written c t)
  ]
]

token_char-written : (c : ℕ) (t : Tokenizer) → written (token_char c t) ≡ written t ++ kept t c
unfolding token_char
token_char-written c t = elim (Bool-cases (c == b'\'' && not t.in_double)) [
  | inl single ↦
      let h : is_space c ≡ false = ground arith in
      rw (single, quote_kept t c h)
        (close_quote-written t.in_single (push_char c t) ∙ push_char-written c t)
  | inr not_single ↦ elim (Bool-cases (c == b'"' && not t.in_single)) [
    | inl double ↦
        let h : is_space c ≡ false = ground arith in
        rw (not_single, double, quote_kept t c h)
          (close_quote-written t.in_double (push_char c t) ∙ push_char-written c t)
    | inr not_double ↦ elim (Bool-cases (t.in_single || t.in_double)) [
      | inl inside ↦ rw (not_single, not_double, inside) (push_char-written c t)
      | inr outside ↦ rw (not_single, not_double, outside) (plain-written c t)
    ]
  ]
]

flush-in_single : (t : Tokenizer) → (flush t).in_single ≡ t.in_single
unfolding flush
flush-in_single t = ground arith

flush-in_double : (t : Tokenizer) → (flush t).in_double ≡ t.in_double
unfolding flush
flush-in_double t = ground arith

token_char-in_single :
    (c : ℕ) (t : Tokenizer) → (token_char c t).in_single ≡ single_after t.in_single t.in_double c
unfolding token_char
token_char-in_single c t = ground (arith, flush-in_single t, flush-in_single (push_char c t))

token_char-in_double :
    (c : ℕ) (t : Tokenizer) → (token_char c t).in_double ≡ double_after t.in_single t.in_double c
unfolding token_char
token_char-in_double c t = ground (arith, flush-in_double t, flush-in_double (push_char c t))

scan_tokens-written :
    (s : Text) (t : Tokenizer)
    → written (scan_tokens s t) ≡ written t ++ unspaced t.in_single t.in_double s
unfolding scan_tokens
scan_tokens-written [] t = sym (append-nil (written t))
scan_tokens-written (c ∷ s) t =
    rw
      (
        scan_tokens-written s (token_char c t),
        token_char-written c t,
        token_char-in_single c t,
        token_char-in_double c t,
      )
      (elim (Bool-cases (not (t.in_single || t.in_double) && is_space c)) [
        | inl dropped ↦ rw (dropped, append-nil (written t)) refl
        | inr other ↦ rw other (
            append_assoc (written t) (c ∷ []) (
              unspaced (single_after t.in_single t.in_double c)
                (double_after t.in_single t.in_double c) s))
      ])

flush-current : (t : Tokenizer) → (flush t).current ≡ []
unfolding flush
flush-current t = elim (Bool-cases (is_empty t.current)) [
  | inl e ↦ rw e (is_empty-nil t.current e)
  | inr e ↦ rw e refl
]

abbrev HasTokens : Tokenizer → Type 0
HasTokens t = All NonEmpty t.tokens

snoc-HasTokens :
    (token : Text) (ts : List Text)
    → All NonEmpty ts
    → NonEmpty token
    → All NonEmpty (ts ++ (token ∷ []))
snoc-HasTokens token ts h e = All-append NonEmpty ts (token ∷ []) h (e, tt)

flush-HasTokens : (t : Tokenizer) → HasTokens t → HasTokens (flush t)
unfolding flush
flush-HasTokens t h = elim (Bool-cases (is_empty t.current)) [
  | inl e ↦ rw e h
  | inr e ↦ rw e (snoc-HasTokens t.current t.tokens h e)
]

close_quote-HasTokens :
    (inside : Bool) (t : Tokenizer) → HasTokens t → HasTokens (close_quote inside t)
close_quote-HasTokens true t h = flush-HasTokens t h
close_quote-HasTokens false t h = h

token_char-HasTokens : (c : ℕ) (t : Tokenizer) → HasTokens t → HasTokens (token_char c t)
unfolding token_char
token_char-HasTokens c t h = elim (Bool-cases (c == b'\'' && not t.in_double)) [
  | inl single ↦ rw single (close_quote-HasTokens t.in_single (push_char c t) h)
  | inr not_single ↦ elim (Bool-cases (c == b'"' && not t.in_single)) [
    | inl double ↦ rw (not_single, double) (close_quote-HasTokens t.in_double (push_char c t) h)
    | inr not_double ↦
        rw (not_single, not_double)
          (ground (
            arith,
            h,
            flush-HasTokens t h,
            snoc-HasTokens (c ∷ []) (flush t).tokens (flush-HasTokens t h) refl,
          ))
  ]
]

scan_tokens-HasTokens : (s : Text) (t : Tokenizer) → HasTokens t → HasTokens (scan_tokens s t)
unfolding scan_tokens
scan_tokens-HasTokens [] t h = h
scan_tokens-HasTokens (c ∷ s) t h =
    scan_tokens-HasTokens s (token_char c t) (token_char-HasTokens c t h)

-- The tokens of any text, one behind the other, are the text without the spaces that stand outside
-- quotes, and no token is empty.
pub tokenize-lossless :
    (input : Text)
    → (concat (tokenize input) ≡ unspaced false false input)
      × All (λ token. is_empty token ≡ false) (tokenize input)
unfolding tokenize
tokenize-lossless input =
    let scanned = scan_tokens input start_tokens in
    (
      sym (append-nil (concat (flush scanned).tokens))
          ∙ ap (λ s. concat (flush scanned).tokens ++ s) (sym (flush-current scanned))
          ∙ flush-written scanned
          ∙ scan_tokens-written input start_tokens,
      flush-HasTokens scanned (scan_tokens-HasTokens input start_tokens tt),
    )
