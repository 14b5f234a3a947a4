-- ===== src/Parser/Split.antt =====
-- The splitting and joining of texts in src/query_optimizer/parser/utils/parser_utils.cpp.
pub mod Tokens
pub mod Lists
use tubes_if3140_sistem_basi.Base.{
  ℕ, zero, suc, ◌+◌, ◌-◌, List, [], ◌∷◌, ◌++◌, Bool, true, false, not, ◌&&◌, ◌||◌, ltb, ◌==◌,
  length, if◌then◌else◌, map, Option, none, some, max,
}
use tubes_if3140_sistem_basi.Base.Key.{Text, text_same}
use tubes_if3140_sistem_basi.Base.Set.{is_empty}
use tubes_if3140_sistem_basi.Base.Strings.{
  codes, is_space, to_upper, take, drop, starts_with, trim, pieces, drop_empty,
}

unfoldable pub split_list : Text → ℕ → List Text
split_list clause delim = drop_empty (map trim (pieces (λ c. c == delim) clause))

-- A piece is kept trimmed, if something is left of it.
abbrev pub keep_piece : Text → List Text → List Text
keep_piece piece parts = if is_empty (trim piece) then parts else parts ++ (trim piece ∷ [])

-- The end of the text counts as the character 0.
abbrev pub is_boundary : ℕ → Bool
is_boundary c = c == 0 || is_space c || c == b'(' || c == b')' || c == b';'

abbrev pub char_or_end : Text → ℕ
char_or_end [] = 0
char_or_end (c ∷ s) = c

pub record KeywordScan : Type 0 where
  pub parts : List Text
  -- the characters since `start`
  pub chunk : Text
  pub prev : ℕ
  pub in_single : Bool
  pub in_double : Bool
  -- the characters of the keyword that the loop has still to jump over
  pub skip : ℕ

unfoldable pub scan_char : Text → Text → ℕ → KeywordScan → KeywordScan
scan_char keyword rest c k =
    if c == b'\'' && not k.in_double
    then record k { chunk = k.chunk ++ (c ∷ []); prev = c; in_single = not k.in_single }
    else if c == b'"' && not k.in_single
    then record k { chunk = k.chunk ++ (c ∷ []); prev = c; in_double = not k.in_double }
    else if not (k.in_single || k.in_double)
        && (starts_with keyword (to_upper (c ∷ rest))
            && (is_boundary k.prev && is_boundary (char_or_end (drop (length keyword) (c ∷ rest)))))
    then record k {
      parts = keep_piece k.chunk k.parts;
      chunk = [];
      prev = c;
      skip = length keyword - 1;
    }
    else record k { chunk = k.chunk ++ (c ∷ []); prev = c }

abbrev pub jump : ℕ → KeywordScan → KeywordScan
jump c k = record k { skip = k.skip - 1; prev = c }

unfoldable pub scan_keyword : Text → Text → KeywordScan → KeywordScan
scan_keyword keyword [] k = k
scan_keyword keyword (c ∷ rest) k =
    scan_keyword keyword rest (if ltb 0 k.skip then jump c k else scan_char keyword rest c k)

-- The keyword is not empty.
unfoldable pub split_on_keyword : Text → Text → List Text
split_on_keyword input keyword =
    let found =
      scan_keyword (to_upper keyword) input record {
        parts = [];
        chunk = [];
        prev = 0;
        in_single = false;
        in_double = false;
        skip = 0;
      } in
    keep_piece found.chunk found.parts

-- The pieces so far, the one that is read, and the depth of the brackets.
pub record LevelScan : Type 0 where
  pub parts : List Text
  pub current : Text
  pub depth : ℕ

unfoldable pub level_char : ℕ → LevelScan → LevelScan
level_char c l =
    if c == b'('
    then record l { depth = l.depth + 1; current = l.current ++ (c ∷ []) }
    else if c == b')'
    then record l { depth = l.depth - 1; current = l.current ++ (c ∷ []) }
    else if c == b',' && l.depth == 0
    then record l { parts = keep_piece l.current l.parts; current = [] }
    else record l { current = l.current ++ (c ∷ []) }

unfoldable pub scan_level : Text → LevelScan → LevelScan
scan_level [] l = l
scan_level (c ∷ s) l = scan_level s (level_char c l)

unfoldable pub split_top_level : Text → List Text
split_top_level input =
    let found = scan_level input record { parts = []; current = []; depth = 0 } in
    keep_piece found.current found.parts

-- The last character; the text is not empty.
abbrev pub back : ℕ → Text → ℕ
back first [] = first
back first (c ∷ s) = back c s

-- The text without its last character.
unfoldable pub pop_back : Text → Text
pop_back [] = []
pop_back (c ∷ []) = []
pop_back (c ∷ d ∷ s) = c ∷ pop_back (d ∷ s)

unfoldable pub strip_quotes : Text → Text
strip_quotes [] = []
strip_quotes (c ∷ []) = c ∷ []
strip_quotes (c ∷ d ∷ s) =
    if (c == b'\'' && back d s == b'\'') || (c == b'"' && back d s == b'"')
    then pop_back (d ∷ s)
    else c ∷ d ∷ s

pub record Tokenizer : Type 0 where
  pub tokens : List Text
  pub current : Text
  pub in_single : Bool
  pub in_double : Bool

unfoldable pub flush : Tokenizer → Tokenizer
flush t =
    if is_empty t.current
    then t
    else record t { tokens = t.tokens ++ (t.current ∷ []); current = [] }

abbrev pub push_char : ℕ → Tokenizer → Tokenizer
push_char c t = record t { current = t.current ++ (c ∷ []) }

abbrev pub push_token : Text → Tokenizer → Tokenizer
push_token token t = record t { tokens = t.tokens ++ (token ∷ []) }

-- A quote that closes ends the token.
abbrev pub close_quote : Bool → Tokenizer → Tokenizer
close_quote inside t = if inside then flush t else t

unfoldable pub token_char : ℕ → Tokenizer → Tokenizer
token_char c t =
    if c == b'\'' && not t.in_double
    then record (close_quote t.in_single (push_char c t)) { in_single = not t.in_single }
    else if c == b'"' && not t.in_single
    then record (close_quote t.in_double (push_char c t)) { in_double = not t.in_double }
    else if t.in_single || t.in_double
    then push_char c t
    else if is_space c
    then flush t
    else if c == b',' || (c == b'(' || c == b')')
    then push_token (c ∷ []) (flush t)
    else push_char c t

unfoldable pub scan_tokens : Text → Tokenizer → Tokenizer
scan_tokens [] t = t
scan_tokens (c ∷ s) t = scan_tokens s (token_char c t)

abbrev pub start_tokens : Tokenizer
start_tokens = record { tokens = []; current = []; in_single = false; in_double = false }

unfoldable pub tokenize : Text → List Text
tokenize input = (flush (scan_tokens input start_tokens)).tokens

-- `!result.empty() && result.back() == c`
abbrev pub ends_with : ℕ → Text → Bool
ends_with c [] = false
ends_with c (x ∷ s) = back x s == c

unfoldable pub join_token : Text → Bool → Text → Text
join_token result last token =
    if text_same token (codes ",")
    then (if ends_with b' ' result then pop_back result else result) ++ codes ", "
    else if text_same token (codes "(")
    then (if is_empty result || ends_with b' ' result then result else result ++ codes " ")
      ++ codes "("
    else if text_same token (codes ")")
    then (if ends_with b' ' result then pop_back result else result)
      ++ (if last then codes ")" else codes ") ")
    else (if is_empty result
          || (ends_with b' ' result || (ends_with b'(' result || ends_with b',' result))
        then result
        else result ++ codes " ")
      ++ token

unfoldable pub join_from : Text → List Text → Text
join_from result [] = result
join_from result (token ∷ tokens) = join_from (join_token result (is_empty tokens) token) tokens

unfoldable pub join_tokens : List Text → Text
join_tokens tokens = trim (join_from [] tokens)
