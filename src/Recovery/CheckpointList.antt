-- ===== src/Recovery/CheckpointList.antt =====
-- The list of active transactions in a checkpoint's query: how `save_checkpoint` prints it and
-- `parse_checkpoint_list` reads it, with `std::to_string` and `std::stoi` on `int`.
pub mod RoundTrip
use tubes_if3140_sistem_basi.Base.{
  ℕ, zero, suc, ◌+◌, ◌-◌, ◌*◌, ◌/◌, ◌%◌, ◌^◌, List, [], ◌∷◌, ◌++◌, Bool, true, false, ◌&&◌, Option,
  none, some, ltb, leb, ◌==◌, if◌then◌else◌,
}
use tubes_if3140_sistem_basi.Base.Key.{Text}
use tubes_if3140_sistem_basi.Base.Set
use tubes_if3140_sistem_basi.Base.Numbers.{to_string, stoi}

-- The loop over the active transactions, with `first`.
unfoldable pub print_list : Bool → List ℕ → Text
print_list first [] = []
print_list first (tid ∷ tids) =
    (if first then [] else b',' ∷ []) ++ (to_string tid ++ print_list false tids)

unfoldable pub active_transactions_str : List ℕ → Text
active_transactions_str tids = b'[' ∷ (print_list true tids ++ (b']' ∷ []))

-- What stands before the first such character, and what stands behind it; `none` where there is
-- no such character.
unfoldable pub split_at : ℕ → Text → Option (Text × Text)
split_at c [] = none
split_at c (x ∷ s) =
    if x == c
    then some ([], s)
    else elim (split_at c s) [ none ↦ none | some (front, back) ↦ some (x ∷ front, back) ]

-- The insertion of one token, if it is a number.
unfoldable pub add_token : Text → List ℕ → List ℕ
add_token token tids = elim (stoi token) [ none ↦ tids | some tid ↦ Set.insert tid tids ]

-- `std::getline(iss, token, ',')` until the text ends; the token so far stands reversed.
unfoldable pub add_tokens : Text → Text → List ℕ → List ℕ
add_tokens token [] tids = add_token token tids
add_tokens token (c ∷ s) tids =
    if c == b','
    then add_tokens [] s (add_token token tids)
    else add_tokens (token ++ (c ∷ [])) s tids

-- The set is empty where `[` or `]` is missing and where the first `]` is not behind the first `[`.
unfoldable pub parse_checkpoint_list : Text → List ℕ
parse_checkpoint_list query = elim (split_at b'[' query) [
  | none ↦ []
  | some (front, back) ↦ elim (split_at b']' front) [
    | some parts ↦ []
    | none ↦ elim (split_at b']' back) [ none ↦ [] | some (inner, after) ↦ add_tokens [] inner [] ]
  ]
]
