-- ===== src/Parser/Query/WellFormed.antt =====
-- The lists of a `ParsedQuery` of include/query_optimizer.h that belong together.
use mathlib.Core.List.{map-append}
use tubes_if3140_sistem_basi.Base.{
  List, [], ◌∷◌, ◌++◌, true, false, ◌||◌, ◌≡◌, refl, sym, ap, ◌∙◌, map, All, All-append, length,
  length-append, Bool-cases, inl, inr, arith,
}
use tubes_if3140_sistem_basi.Base.Key.{Text, text_key, text_same_iff}
use tubes_if3140_sistem_basi.Base.Map.{Map, has, put, find-put}
use tubes_if3140_sistem_basi.Base.Set.{is_empty}
use tubes_if3140_sistem_basi.Parser.Query.{
  TableReference, JoinClause, ParsedQuery, add_alias, record_table_reference,
}

-- A table with a name that the aliases know, and whose alias they know too.
abbrev pub IsNamed : Map Text Text → TableReference → Type 0
IsNamed aliases r =
    (is_empty r.table_name ≡ false)
    × (has r.table_name aliases ≡ true)
    × ((is_empty r.alias || has r.alias aliases) ≡ true)

-- The sides of the condition of a join.
abbrev pub sides : JoinClause → Text × Text
sides j = (j.left_expression, j.right_expression)

-- The table names are those of the references, every reference can be looked up, every column has its
-- alias, and the pairs of expressions are those of the joins.
abbrev pub IsWellFormed : ParsedQuery → Type 0
IsWellFormed pq =
    (pq.from_tables ≡ map (λ r. r.table_name) pq.table_references)
    × All (IsNamed pq.table_aliases) pq.table_references
    × (length pq.select_columns ≡ length pq.select_aliases)
    × (pq.join_pairs ≡ map sides pq.join_clauses)

has-put : (k j v : Text) (m : Map Text Text) → has j m ≡ true → has j (put k v m) ≡ true
has-put k j v m h = ground (arith, find-put k j v m, h)

has-put_self : (k v : Text) (m : Map Text Text) → has k (put k v m) ≡ true
has-put_self k v m = rw (find-put k k v m, (text_same_iff k k).1 refl) refl

add_alias-has :
    (ref : TableReference) (j : Text) (m : Map Text Text)
    → has j m ≡ true
    → has j (add_alias ref m) ≡ true
unfolding add_alias
add_alias-has ref j m h =
    let named : has j (put ref.table_name ref.table_name m) ≡ true =
      has-put ref.table_name j ref.table_name m h in
    elim (Bool-cases (is_empty ref.alias)) [
      | inl e ↦ rw e named
      | inr e ↦
          rw e (has-put ref.alias j ref.table_name (put ref.table_name ref.table_name m) named)
    ]

add_alias-IsNamed :
    (ref : TableReference) (m : Map Text Text)
    → is_empty ref.table_name ≡ false
    → IsNamed (add_alias ref m) ref
unfolding add_alias
add_alias-IsNamed ref m h =
    let m' = put ref.table_name ref.table_name m in
    let named : has ref.table_name m' ≡ true = has-put_self ref.table_name ref.table_name m in
    elim (Bool-cases (is_empty ref.alias)) [
      | inl e ↦ rw e (h, named, refl)
      | inr e ↦ rw e (
        h,
        has-put ref.alias ref.table_name ref.table_name m' named,
        has-put_self ref.alias ref.table_name m',
      )
    ]

IsNamed-add_alias :
    (ref r : TableReference) (m : Map Text Text) → IsNamed m r → IsNamed (add_alias ref m) r
IsNamed-add_alias ref r m h =
    (h.0, add_alias-has ref r.table_name m h.1, ground (arith, h.2, add_alias-has ref r.alias m))

All-add_alias :
    (ref : TableReference) (m : Map Text Text) (rs : List TableReference)
    → All (IsNamed m) rs
    → All (IsNamed (add_alias ref m)) rs
All-add_alias ref m [] h = tt
All-add_alias ref m (r ∷ rs) h = (IsNamed-add_alias ref r m h.0, All-add_alias ref m rs h.1)

pub record_table_reference-IsWellFormed :
    (ref : TableReference) (pq : ParsedQuery)
    → IsWellFormed pq
    → IsWellFormed (record_table_reference ref pq)
unfolding record_table_reference
record_table_reference-IsWellFormed ref pq h = elim (Bool-cases (is_empty ref.table_name)) [
  | inl e ↦ rw e h
  | inr e ↦ rw e (
    ap (λ names. names ++ (ref.table_name ∷ [])) h.0
        ∙ sym (map-append (λ r. r.table_name) pq.table_references (ref ∷ [])),
    All-append (IsNamed (add_alias ref pq.table_aliases)) pq.table_references (ref ∷ [])
        (All-add_alias ref pq.table_aliases pq.table_references h.1)
        (add_alias-IsNamed ref pq.table_aliases e, tt),
    h.2,
    h.3,
  )
]

-- A join, whose pair of expressions is noted twice.
pub add_join-IsWellFormed :
    (pq : ParsedQuery) (j : JoinClause)
    → IsWellFormed pq
    → IsWellFormed (record pq {
      join_pairs = pq.join_pairs ++ (sides j ∷ []);
      join_clauses = pq.join_clauses ++ (j ∷ []);
    })
add_join-IsWellFormed pq j h = (
  h.0,
  h.1,
  h.2,
  ap (λ pairs. pairs ++ (sides j ∷ [])) h.3 ∙ sym (map-append sides pq.join_clauses (j ∷ [])),
)

pub add_column-IsWellFormed :
    (pq : ParsedQuery) (column alias : Text)
    → IsWellFormed pq
    → IsWellFormed (record pq {
      select_columns = pq.select_columns ++ (column ∷ []);
      select_aliases = pq.select_aliases ++ (alias ∷ []);
    })
add_column-IsWellFormed pq column alias h = (
  h.0,
  h.1,
  omega (
    arith,
    h.2,
    length-append pq.select_columns (column ∷ []),
    length-append pq.select_aliases (alias ∷ []),
  ),
  h.3,
)
