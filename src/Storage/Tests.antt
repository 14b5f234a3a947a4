-- ===== src/Storage/Tests.antt =====
-- The storage manager's theorems at concrete pages and pools.
use tubes_if3140_sistem_basi.Base.{
  ℕ, ◌≤◌, List, [], ◌∷◌, true, none, some, ◌≡◌, refl, sym, ◌∙◌, subst, map, All, length, ◌⊎◌, arith,
}
use tubes_if3140_sistem_basi.Base.Key.{Text, text_key, text_same, nat_key, pair_key}
use tubes_if3140_sistem_basi.Base.Map.{find, put}
use tubes_if3140_sistem_basi.Base.Strings.{codes, take}
use tubes_if3140_sistem_basi.Types.{Row, int, empty_row}
use tubes_if3140_sistem_basi.Recovery.Entry.{integer, TableSchema}
use tubes_if3140_sistem_basi.Recovery.Codec.{Bytes, write_word}
use tubes_if3140_sistem_basi.Storage.Page.{
  BufferPage, Floats, page_size, write_value, write_values, serialize_row_to_buffer, serialize_rows,
  is_padding, resize, put_page, load_page,
}
use tubes_if3140_sistem_basi.Storage.Page.RoundTrip.{stored}
use tubes_if3140_sistem_basi.Storage.Page.Loading.{IsLoadable, IsMarked, load_page-put_page}
use tubes_if3140_sistem_basi.Storage.Page.Faults.{load_page-zero}
use tubes_if3140_sistem_basi.Storage.Pool.{BufferManager, empty_schema, get_schema}
use tubes_if3140_sistem_basi.Storage.Buffer.{fresh_page, evict_page, get_page, flush_all}
use tubes_if3140_sistem_basi.Storage.Buffer.Evict.{IsEviction, IsKept, evict_page-lru}
use tubes_if3140_sistem_basi.Storage.Buffer.Contents.{IsSafe, on_disk, contents}
use tubes_if3140_sistem_basi.Storage.Buffer.Durable.{flush_all-durable}
use tubes_if3140_sistem_basi.Storage.Buffer.Coherent.{IsCoherent}
use tubes_if3140_sistem_basi.Storage.Buffer.Entries.{with_entry, with_entry-IsCoherent}
use tubes_if3140_sistem_basi.Storage.Buffer.Refinement.{
  IsReadThrough, IsFull, get_page-IsReadThrough,
}

-- A conversion that drops the low bits.
abbrev low_bits : Floats
low_bits = record { narrow = λ v. 0 }

abbrev table : Text
table = codes "t"

abbrev schema : TableSchema
schema = record empty_schema {
  table_name = table;
  column_names = codes "a" ∷ [];
  column_types = integer ∷ [];
}

abbrev row_of : ℕ → Row
row_of n = record empty_row { table_name = table; columns = (codes "a", int n) ∷ [] }

row_bytes : (n : ℕ) → serialize_row_to_buffer low_bits schema (row_of n) ≡ some (write_word 4 n)
unfolding serialize_row_to_buffer write_values write_value find text_same write_word
row_bytes n = refl

write_word-IsMarked : IsMarked (write_word 4 7)
unfolding write_word is_padding take
write_word-IsMarked = (omega arith, refl)

same_bytes : (xs ys : Bytes) → some xs ≡ some ys → xs ≡ ys
same_bytes xs ys h = cc

row_of-IsLoadable : IsLoadable low_bits schema (row_of 7)
unfolding find text_same put
row_of-IsLoadable = record {
  holds = ((int 7, refl, omega arith), tt);
  marked = λ bytes e.
      subst IsMarked (same_bytes (write_word 4 7) bytes (sym (row_bytes 7) ∙ e))
        write_word-IsMarked;
  visible = refl;
}

abbrev rows : List Row
rows = row_of 7 ∷ []

rows_bytes : serialize_rows low_bits schema rows ≡ some (write_word 4 7)
unfolding serialize_rows serialize_row_to_buffer write_values write_value find text_same write_word
rows_bytes = refl

small : length (write_word 4 7) ≤ page_size
unfolding write_word page_size
small = omega arith

load_page-put_page_example :
    load_page schema 1 (put_page 1 (resize page_size (write_word 4 7)) [])
    ≡ map (stored low_bits schema) rows
load_page-put_page_example =
    load_page-put_page low_bits schema 1 rows (write_word 4 7) [] (row_of-IsLoadable, tt) rows_bytes
      small

zero_bytes :
    serialize_rows low_bits schema (row_of 0 ∷ rows) ≡ some (0 ∷ 0 ∷ 0 ∷ 0 ∷ 7 ∷ 0 ∷ 0 ∷ 0 ∷ [])
unfolding serialize_rows serialize_row_to_buffer write_values write_value find text_same write_word
zero_bytes = refl

zero_found : find (codes "a") (row_of 0).columns ≡ some (int 0)
unfolding find text_same
zero_found = refl

load_page-zero_example :
    load_page schema 0 (put_page 0 (resize page_size (0 ∷ 0 ∷ 0 ∷ 0 ∷ 7 ∷ 0 ∷ 0 ∷ 0 ∷ [])) []) ≡ []
load_page-zero_example =
    load_page-zero low_bits schema 0 (codes "a") [] [] (row_of 0) rows
      (0 ∷ 0 ∷ 0 ∷ 0 ∷ 7 ∷ 0 ∷ 0 ∷ 0 ∷ []) [] refl refl zero_found zero_bytes

-- A dirty page that no one has pinned, in a pool with room for one page.
abbrev dirty_page : BufferPage
dirty_page = record (fresh_page table 0 true 5) { rows = rows; pin_count = 0 }

abbrev empty_pool : BufferManager
empty_pool = record {
  capacity = 1;
  buffer_pool = [];
  schema_cache = (table, schema) ∷ [];
  files = [];
}

abbrev pool : BufferManager
pool = with_entry low_bits (table, 0) dirty_page empty_pool

evict_page-lru_example :
    ((m' : BufferManager) × (evict_page low_bits pool ≡ some m') × IsEviction low_bits pool m')
    ⊎ ((evict_page low_bits pool ≡ none) × All (IsKept 9223372036854775807) pool.buffer_pool)
evict_page-lru_example = evict_page-lru low_bits pool

empty_pool-IsCoherent : IsCoherent low_bits empty_pool
unfolding find
empty_pool-IsCoherent = record {
  paged = λ name. (0, omega arith);
  sorted = tt;
  named = λ key page found. cc;
  dirty = λ key page found d. cc;
  clean = λ key page found c. cc;
}

rows_settled : map (stored low_bits schema) rows ≡ rows
unfolding find text_same put
rows_settled = refl

rows-IsSafe : IsSafe low_bits (get_schema table empty_pool) rows
unfolding get_schema find text_same
rows-IsSafe = (
  refl,
  (row_of-IsLoadable, tt),
  rows_settled,
  λ bytes e.
      subst (λ s. length s ≤ page_size) (same_bytes (write_word 4 7) bytes (sym rows_bytes ∙ e))
        small,
)

pool-IsCoherent : IsCoherent low_bits pool
pool-IsCoherent =
    with_entry-IsCoherent low_bits empty_pool (table, 0) dirty_page empty_pool-IsCoherent refl
      (λ d. rows-IsSafe) (λ c. cc)

get_page-IsReadThrough_example :
    ((m' : BufferManager) × (get_page low_bits table 1 (get_schema table pool) 6 pool ≡ some m')
      × IsReadThrough low_bits (table, 1) pool m')
    ⊎ ((get_page low_bits table 1 (get_schema table pool) 6 pool ≡ none)
        × (find (table, 1) pool.buffer_pool ≡ none)
        × IsFull low_bits pool)
get_page-IsReadThrough_example = get_page-IsReadThrough low_bits table 1 6 pool pool-IsCoherent

flush_all-durable_example :
    on_disk (get_schema table pool) (table, 0) (flush_all low_bits pool).files
    ≡ contents (table, 0) pool
flush_all-durable_example = flush_all-durable low_bits pool (table, 0) pool-IsCoherent
