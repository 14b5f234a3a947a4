-- ===== src/Storage/Page/RoundTrip.antt =====
-- The rows of a page are read back from its bytes: src/storage_manager/buffer_manager.cpp.
use tubes_if3140_sistem_basi.Base.{
  ℕ, ◌^◌, ◌<◌, List, [], ◌∷◌, ◌++◌, Option, none, some, ◌≡◌, refl, length,
}
use tubes_if3140_sistem_basi.Base.Key.{Text, text_key}
use tubes_if3140_sistem_basi.Base.Map.{Map, find, put}
use tubes_if3140_sistem_basi.Types.{Value, empty, int, float, double, text, Row, empty_row}
use tubes_if3140_sistem_basi.Recovery.Entry.{DataType, integer, char, varchar, TableSchema}
use tubes_if3140_sistem_basi.Recovery.Codec.{Bytes, ◌>>=◌, pure, write_word, read_word, read_bytes}
use tubes_if3140_sistem_basi.Recovery.Codec.RoundTrip.{
  Reads, >>=-Reads, map-Reads, read_word-Reads, read_bytes-Reads, IsShort,
}
use tubes_if3140_sistem_basi.Storage.Page.{
  Floats, write_value, write_values, read_text, read_value, read_values,
}

-- The bytes of a text with its length in front.
abbrev text_bytes : Text → Bytes
text_bytes s = write_word 4 (length s) ++ s

read_text-Reads : (s : Text) → IsShort s → Reads read_text (text_bytes s) s
read_text-Reads s h =
    >>=-Reads (read_word 4) read_bytes (write_word 4 (length s)) s (length s) s
      (read_word-Reads 4 (length s) h) (read_bytes-Reads s)

module _ (F : Floats) where
  -- A value that its column can hold.
  abbrev pub Fits : DataType → Value → Type 0
  Fits integer (int v) = v < 2 ^ 32
  Fits integer empty = ⊥
  Fits integer (float v) = ⊥
  Fits integer (double v) = ⊥
  Fits integer (text s) = ⊥
  Fits DataType.float (float v) = v < 2 ^ 32
  Fits DataType.float (double v) = F.narrow v < 2 ^ 32
  Fits DataType.float empty = ⊥
  Fits DataType.float (int v) = ⊥
  Fits DataType.float (text s) = ⊥
  Fits char (text s) = IsShort s
  Fits char empty = ⊥
  Fits char (int v) = ⊥
  Fits char (float v) = ⊥
  Fits char (double v) = ⊥
  Fits varchar (text s) = IsShort s
  Fits varchar empty = ⊥
  Fits varchar (int v) = ⊥
  Fits varchar (float v) = ⊥
  Fits varchar (double v) = ⊥
  Fits (DataType.unlisted n) v = Unit

  -- The value as a page gives it back: a `double` is a `float` then.
  abbrev pub loaded : Value → Value
  loaded empty = empty
  loaded (int v) = int v
  loaded (float v) = float v
  loaded (double v) = float (F.narrow v)
  loaded (text s) = text s

  abbrev pub store : DataType → Text → Value → Map Text Value → Map Text Value
  store integer name v columns = put name (loaded v) columns
  store DataType.float name v columns = put name (loaded v) columns
  store char name v columns = put name (loaded v) columns
  store varchar name v columns = put name (loaded v) columns
  store (DataType.unlisted n) name v columns = columns

  -- What is read back of one value.
  abbrev IsWritten : DataType → Value → Type 0
  IsWritten type v =
      (bytes : Bytes) × (write_value F type v ≡ some bytes)
      × ((name : Text) (columns : Map Text Value)
          → Reads (read_value type name columns) bytes (store type name v columns))

  number_read :
      (make : ℕ → Value) (n : ℕ)
      → n < 2 ^ 32
      → (name : Text) (columns : Map Text Value)
      → Reads
          (read_word 4 >>= (λ v. pure (put name (make v) columns)))
          (write_word 4 n)
          (put name (make n) columns)
  number_read make n h name columns =
      map-Reads (read_word 4) (λ v. put name (make v) columns) (write_word 4 n) n
        (read_word-Reads 4 n h)

  text_read :
      (s : Text)
      → IsShort s
      → (name : Text) (columns : Map Text Value)
      → Reads
          (read_text >>= (λ v. pure (put name (text v) columns)))
          (text_bytes s)
          (put name (text s) columns)
  text_read s h name columns =
      map-Reads read_text (λ v. put name (text v) columns) (text_bytes s) s (read_text-Reads s h)

  write_value-read : (type : DataType) (v : Value) → Fits type v → IsWritten type v
  unfolding write_value read_value
  write_value-read integer (int v) h = (write_word 4 v, refl, number_read (λ x. int x) v h)
  write_value-read integer empty h = absurd h
  write_value-read integer (float v) h = absurd h
  write_value-read integer (double v) h = absurd h
  write_value-read integer (text s) h = absurd h
  write_value-read DataType.float (float v) h =
      (write_word 4 v, refl, number_read (λ x. float x) v h)
  write_value-read DataType.float (double v) h =
      (write_word 4 (F.narrow v), refl, number_read (λ x. float x) (F.narrow v) h)
  write_value-read DataType.float empty h = absurd h
  write_value-read DataType.float (int v) h = absurd h
  write_value-read DataType.float (text s) h = absurd h
  write_value-read char (text s) h = (text_bytes s, refl, text_read s h)
  write_value-read char empty h = absurd h
  write_value-read char (int v) h = absurd h
  write_value-read char (float v) h = absurd h
  write_value-read char (double v) h = absurd h
  write_value-read varchar (text s) h = (text_bytes s, refl, text_read s h)
  write_value-read varchar empty h = absurd h
  write_value-read varchar (int v) h = absurd h
  write_value-read varchar (float v) h = absurd h
  write_value-read varchar (double v) h = absurd h
  write_value-read (DataType.unlisted n) v h = ([], refl, λ name columns rest. refl)

  -- A row has a value for each column, which the column can hold.
  abbrev pub Holds : List Text → List DataType → Map Text Value → Type 0
  Holds [] types columns = Unit
  Holds (name ∷ names) [] columns = ⊥
  Holds (name ∷ names) (type ∷ types) columns =
      ((v : Value) × (find name columns ≡ some v) × Fits type v) × Holds names types columns

  abbrev pub store_found : DataType → Text → Option Value → Map Text Value → Map Text Value
  store_found type name none columns = columns
  store_found type name (some v) columns = store type name v columns

  -- The columns as a page gives them back, behind those that are read.
  abbrev pub stored_columns :
      List Text → List DataType → Map Text Value → Map Text Value → Map Text Value
  stored_columns [] types columns done = done
  stored_columns (name ∷ names) [] columns done = done
  stored_columns (name ∷ names) (type ∷ types) columns done =
      stored_columns names types columns (store_found type name (find name columns) done)

  -- A row as a page gives it back: the schema's columns, under its name, with no identity.
  abbrev pub stored : TableSchema → Row → Row
  stored schema row = record empty_row {
    table_name = schema.table_name;
    columns = stored_columns schema.column_names schema.column_types row.columns [];
  }

  pub write_values-read :
      (names : List Text) (types : List DataType) (columns : Map Text Value)
      → Holds names types columns
      → (bytes : Bytes) × (write_values F names types columns ≡ some bytes)
        × ((done : Map Text Value)
            → Reads (read_values names types done) bytes (stored_columns names types columns done))
  unfolding write_values read_values
  write_values-read [] types columns h = ([], refl, λ done rest. refl)
  write_values-read (name ∷ names) [] columns h = absurd h
  write_values-read (name ∷ names) (type ∷ types) columns ((v, found, fits), h) =
      let (front, written, reads) = write_value-read type v fits in
      let (back, others, reads_others) = write_values-read names types columns h in
      (
        front ++ back,
        rw (found, write_values, written, others) refl,
        λ done. rw found (
            >>=-Reads (read_value type name done) (read_values names types) front back
              (store type name v done) (stored_columns names types columns (store type name v done))
              (reads name done) (reads_others (store type name v done))),
      )
