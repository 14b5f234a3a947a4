-- ===== src/Recovery/Codec.antt =====
-- The binary log of src/failure_recovery/failure_recovery.cpp: what `write_*` appends to the file,
-- as a list of bytes, and what `read_*` takes from it. A number stands in little-endian order.
pub mod RoundTrip
use tubes_if3140_sistem_basi.Base.{
  ℕ, zero, suc, ◌+◌, ◌*◌, ◌/◌, ◌%◌, ◌^◌, List, [], ◌∷◌, ◌++◌, Bool, true, false, Option, none, some,
  length, ◌==◌, if◌then◌else◌,
}
use tubes_if3140_sistem_basi.Base.Key.{Text, text_key}
use tubes_if3140_sistem_basi.Base.Strings.{take}
use tubes_if3140_sistem_basi.Base.Map.{Map, put}
use tubes_if3140_sistem_basi.Types.{Value, empty, int, float, double, text, Row}
use tubes_if3140_sistem_basi.Recovery.Entry.{TableSchema, LogEntry, DataType, Operation, new_entry}

abbrev pub Bytes : Type 0
Bytes = List ℕ

-- A read takes bytes from the front. It is `none` once the stream has failed: no later read of the
-- same entry undoes that, and `read_all_logs` drops the entry.
abbrev pub Reader {ℓ} : Type ℓ → Type ℓ
Reader A = Bytes → Option (A × Bytes)

infixl 5 ◌>>=◌
abbrev pub ◌>>=◌ {ℓ κ} : {A : Type ℓ} {B : Type κ} → Reader A → (A → Reader B) → Reader B
◌>>=◌ m f s = elim (m s) [ none ↦ none | some (a, rest) ↦ f a rest ]

abbrev pub pure {ℓ} : {A : Type ℓ} → A → Reader A
pure a s = some (a, s)

-- `out.write` of a number of so many bytes.
unfoldable pub write_word : ℕ → ℕ → Bytes
write_word zero v = []
write_word (suc size) v = v % 256 ∷ write_word size (v / 256)

unfoldable pub read_word : ℕ → Reader ℕ
read_word zero s = some (0, s)
read_word (suc size) [] = none
read_word (suc size) (b ∷ s) = elim (read_word size s) [
  | none ↦ none
  | some (high, rest) ↦ some (b + 256 * high, rest)
]

unfoldable pub read_bytes : ℕ → Reader Bytes
read_bytes zero s = some ([], s)
read_bytes (suc n) [] = none
read_bytes (suc n) (b ∷ s) = elim (read_bytes n s) [
  | none ↦ none
  | some (bs, rest) ↦ some (b ∷ bs, rest)
]

-- The length is cast to `uint32_t`, and so many characters are written.
unfoldable pub write_string : Text → Bytes
write_string str = write_word 4 (length str) ++ take (length str % 2 ^ 32) str

unfoldable pub read_string : Reader Text
read_string = do len ← read_word 4; read_bytes len

-- Nothing is written for an empty value and for a type that has no tag.
unfoldable pub write_any : Value → Bytes
write_any empty = []
write_any (int v) = write_word 4 1 ++ write_word 4 v
write_any (float v) = write_word 4 2 ++ write_word 4 v
write_any (double v) = []
write_any (text s) = write_word 4 3 ++ write_string s

unfoldable pub read_tagged : ℕ → Reader Value
read_tagged tag =
    if tag == 1
    then (do v ← read_word 4; pure (int v))
    else if tag == 2
    then (do v ← read_word 4; pure (float v))
    else if tag == 3
    then (do s ← read_string; pure (text s))
    else pure empty

unfoldable pub read_any : Reader Value
read_any = do tag ← read_word 4; read_tagged tag

-- `for (const auto& x : xs) write(out, x);`
unfoldable pub write_all {ℓ} : {A : Type ℓ} → (A → Bytes) → List A → Bytes
write_all write [] = []
write_all write (x ∷ xs) = write x ++ write_all write xs

-- `for (i = 0; i < count; i++) xs[i] = read(in);`
unfoldable pub read_all {ℓ} : {A : Type ℓ} → Reader A → ℕ → Reader (List A)
read_all read zero = pure []
read_all read (suc n) = do x ← read; xs ← read_all read n; pure (x ∷ xs)

unfoldable pub write_count {ℓ} : {A : Type ℓ} → (A → Bytes) → List A → Bytes
write_count write xs = write_word 4 (length xs) ++ write_all write xs

unfoldable pub read_count {ℓ} : {A : Type ℓ} → Reader A → Reader (List A)
read_count read = do n ← read_word 4; read_all read n

-- The entries of a map from names, each as its name and its value.
unfoldable pub write_entry {ℓ} : {V : Type ℓ} → (V → Bytes) → Text × V → Bytes
write_entry write (name, value) = write_string name ++ write value

unfoldable pub write_map {ℓ} : {V : Type ℓ} → (V → Bytes) → Map Text V → Bytes
write_map write m = write_count (write_entry write) m

unfoldable pub write_columns : Map Text Value → Bytes
write_columns columns = write_map write_any columns

-- `columns[atr] = val` for each pair that is read.
unfoldable pub read_entries {ℓ} : {V : Type ℓ} → Reader V → ℕ → Map Text V → Reader (Map Text V)
read_entries read zero m = pure m
read_entries read (suc n) m = do atr ← read_string; val ← read; read_entries read n (put atr val m)

unfoldable pub read_map {ℓ} : {V : Type ℓ} → Reader V → Reader (Map Text V)
read_map read = do n ← read_word 4; read_entries read n []

unfoldable pub read_columns : Reader (Map Text Value)
read_columns = read_map read_any

unfoldable pub write_row : Row → Bytes
write_row row =
    write_string row.table_name ++ (write_columns row.columns ++ write_word 4 row.row_id)

unfoldable pub read_row : Reader Row
read_row = do
  name ← read_string
  columns ← read_columns
  id ← read_word 4
  pure record { table_name = name; columns = columns; row_id = id }
