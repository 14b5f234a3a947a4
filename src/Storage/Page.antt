-- ===== src/Storage/Page.antt =====
-- A page of rows and its bytes: the constants and `BufferPage` of include/storage_manager.h, and
-- reading and writing a page in src/storage_manager/buffer_manager.cpp.
pub mod Disjoint
pub mod RoundTrip
pub mod Loading
pub mod Faults
use tubes_if3140_sistem_basi.Base.{
  ℕ, zero, suc, ◌+◌, ◌*◌, List, [], ◌∷◌, ◌++◌, Bool, true, false, ◌&&◌, ltb, ◌==◌, length,
  if◌then◌else◌, Option, none, some,
}
use tubes_if3140_sistem_basi.Base.Key.{Text, text_key}
use tubes_if3140_sistem_basi.Base.Map.{Map, find, put}
use tubes_if3140_sistem_basi.Base.Set.{is_empty}
use tubes_if3140_sistem_basi.Base.Strings.{take, drop}
use tubes_if3140_sistem_basi.Types.{Value, empty, int, float, double, text, Row, empty_row}
use tubes_if3140_sistem_basi.Recovery.Entry.{DataType, integer, char, varchar, TableSchema}
use tubes_if3140_sistem_basi.Recovery.Codec.{
  Bytes, Reader, ◌>>=◌, pure, write_word, read_word, read_bytes,
}

unfoldable pub page_size : ℕ
page_size = 4096

-- The times are milliseconds.
pub record BufferPage : Type 0 where
  pub table_name : Text
  pub page_id : ℕ
  pub rows : List Row
  pub is_dirty : Bool
  pub pin_count : ℕ
  pub last_access_time : ℕ

-- The conversion of a `double` to a `float`, on bit patterns.
pub record Floats : Type 0 where
  pub narrow : ℕ → ℕ

-- `none` stands for an exception: a column that is missing or of another type.
module _ (F : Floats) where
  unfoldable pub write_value : DataType → Value → Option Bytes
  write_value integer (int v) = some (write_word 4 v)
  write_value integer empty = none
  write_value integer (float v) = none
  write_value integer (double v) = none
  write_value integer (text s) = none
  write_value DataType.float (float v) = some (write_word 4 v)
  write_value DataType.float (double v) = some (write_word 4 (F.narrow v))
  write_value DataType.float empty = none
  write_value DataType.float (int v) = none
  write_value DataType.float (text s) = none
  write_value char (text s) = some (write_word 4 (length s) ++ s)
  write_value char empty = none
  write_value char (int v) = none
  write_value char (float v) = none
  write_value char (double v) = none
  write_value varchar (text s) = some (write_word 4 (length s) ++ s)
  write_value varchar empty = none
  write_value varchar (int v) = none
  write_value varchar (float v) = none
  write_value varchar (double v) = none
  write_value (DataType.unlisted n) v = some []

  -- The bytes so far, and those of the columns. The schema has a type for each column.
  unfoldable pub write_values : List Text → List DataType → Map Text Value → Option Bytes
  write_values [] types columns = some []
  write_values (name ∷ names) [] columns = none
  write_values (name ∷ names) (type ∷ types) columns = elim (find name columns) [
    | none ↦ none
    | some value ↦ elim (write_value type value) [
      | none ↦ none
      | some front ↦ elim (write_values names types columns) [
        | none ↦ none
        | some back ↦ some (front ++ back)
      ]
    ]
  ]

  unfoldable pub serialize_row_to_buffer : TableSchema → Row → Option Bytes
  serialize_row_to_buffer schema row =
      write_values schema.column_names schema.column_types row.columns

  unfoldable pub serialize_rows : TableSchema → List Row → Option Bytes
  serialize_rows schema [] = some []
  serialize_rows schema (row ∷ rows) = elim (serialize_row_to_buffer schema row) [
    | none ↦ none
    | some front ↦ elim (serialize_rows schema rows) [
      | none ↦ none
      | some back ↦ some (front ++ back)
    ]
  ]

abbrev pub read_text : Reader Text
read_text = do len ← read_word 4; read_bytes len

-- The columns with the value of the next one.
unfoldable pub read_value : DataType → Text → Map Text Value → Reader (Map Text Value)
read_value integer name columns = do v ← read_word 4; pure (put name (int v) columns)
read_value DataType.float name columns = do v ← read_word 4; pure (put name (float v) columns)
read_value char name columns = do s ← read_text; pure (put name (text s) columns)
read_value varchar name columns = do s ← read_text; pure (put name (text s) columns)
read_value (DataType.unlisted n) name columns = pure columns

unfoldable pub read_values : List Text → List DataType → Map Text Value → Reader (Map Text Value)
read_values [] types columns = pure columns
read_values (name ∷ names) [] columns = λ s. none
read_values (name ∷ names) (type ∷ types) columns = do
  next ← read_value type name columns
  read_values names types next

-- `none` stands for the row without columns that ends the page.
unfoldable pub deserialize_row_from_buffer : TableSchema → Reader Row
deserialize_row_from_buffer schema = do
  columns ← read_values schema.column_names schema.column_types []
  pure (record empty_row { table_name = schema.table_name; columns = columns })

-- Whether the next four bytes, as far as they are there, are zero.
unfoldable pub is_padding : Bytes → Bool
is_padding bytes = zeros (take 4 bytes)
  where
    zeros : Bytes → Bool
    zeros [] = true
    zeros (b ∷ bs) = b == 0 && zeros bs

-- A row takes at least four bytes, so their number is enough fuel.
unfoldable pub read_rows : ℕ → TableSchema → Bytes → List Row
read_rows zero schema bytes = []
read_rows (suc fuel) schema [] = []
read_rows (suc fuel) schema (b ∷ bs) =
    if is_padding (b ∷ bs)
    then []
    else if ltb (length (b ∷ bs)) 4
    then []
    else elim (deserialize_row_from_buffer schema (b ∷ bs)) [
      | none ↦ []
      | some (row, rest) ↦
          let rows = read_rows fuel schema rest in if is_empty row.columns then [] else row ∷ rows
    ]

-- `resize(n, 0)`
unfoldable pub resize : ℕ → Bytes → Bytes
resize zero bytes = []
resize (suc n) [] = 0 ∷ resize n []
resize (suc n) (b ∷ bytes) = b ∷ resize n bytes

-- The bytes of a page in a file, fewer at its end.
unfoldable pub page_bytes : ℕ → Bytes → Bytes
page_bytes page_id file = take page_size (drop (page_id * page_size) file)

-- A page that stands in a file: the file is longer then, if it was too short.
unfoldable pub put_page : ℕ → Bytes → Bytes → Bytes
put_page page_id bytes file =
    resize (page_id * page_size) file ++ (bytes ++ drop (page_id * page_size + page_size) file)

unfoldable pub load_page : TableSchema → ℕ → Bytes → List Row
load_page schema page_id file =
    read_rows (length (page_bytes page_id file)) schema (page_bytes page_id file)
