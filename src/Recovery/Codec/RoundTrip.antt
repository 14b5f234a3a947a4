-- ===== src/Recovery/Codec/RoundTrip.antt =====
-- What is written to the log is read back: numbers, texts, values, and rows.
use mathlib.Core.List.{append_assoc, append-nil}
use tubes_if3140_sistem_basi.Base.{
  ℕ, zero, suc, ◌+◌, ◌*◌, ◌/◌, ◌%◌, ◌^◌, ◌<◌, List, [], ◌∷◌, ◌++◌, false, some, ◌≡◌, refl, sym,
  arith, length, All,
}
use tubes_if3140_sistem_basi.Base.Key.{Text, text_key, text_same, text_before}
use tubes_if3140_sistem_basi.Base.Strings.{take}
use tubes_if3140_sistem_basi.Base.Map.{Map, put}
use tubes_if3140_sistem_basi.Types.{Value, empty, int, float, double, text, Row}
use tubes_if3140_sistem_basi.Recovery.Codec.{
  Bytes, Reader, ◌>>=◌, pure, write_word, read_word, read_bytes, write_string, read_string,
  write_any, read_tagged, read_any, write_all, read_all, write_count, read_count, write_entry,
  write_map, write_columns, read_entries, read_map, read_columns, write_row, read_row,
}
use native.Mathlib.Nat.{pow-suc}

-- A reader takes exactly these bytes and gives this value, whatever comes behind them.
abbrev pub Reads {ℓ} : {A : Type ℓ} → Reader A → Bytes → A → Type ℓ
Reads read bytes a = (rest : Bytes) → read (bytes ++ rest) ≡ some (a, rest)

module _ {ℓ κ} {A : Type ℓ} {B : Type κ} where
  pub >>=-Reads :
      (read : Reader A) (k : A → Reader B) (xs ys : Bytes) (a : A) (b : B)
      → Reads read xs a
      → Reads (k a) ys b
      → Reads (read >>= k) (xs ++ ys) b
  >>=-Reads read k xs ys a b h g rest = rw (append_assoc xs ys rest, h (ys ++ rest), ◌>>=◌) (g rest)

  -- A last read, and what is made of its value.
  pub map-Reads :
      (read : Reader A) (f : A → B) (xs : Bytes) (a : A)
      → Reads read xs a
      → Reads (read >>= (λ x. pure (f x))) xs (f a)
  map-Reads read f xs a h rest = rw (h rest, ◌>>=◌) refl

pow0 : (v : ℕ) → v < 256 ^ zero → v ≡ 0
pow0 v h = omega arith

high_lt : (size v : ℕ) → v < 256 ^ suc size → v / 256 < 256 ^ size
high_lt size v h = let e : 256 ^ suc size ≡ 256 ^ size * 256 = pow-suc 256 size in omega arith

digit : (v : ℕ) → v % 256 + 256 * (v / 256) ≡ v
digit v = omega arith

pub read_word-Reads : (size v : ℕ) → v < 256 ^ size → Reads (read_word size) (write_word size v) v
unfolding read_word write_word
read_word-Reads zero v h rest = ground (arith, pow0 v h)
read_word-Reads (suc size) v h rest =
    rw (read_word-Reads size (v / 256) (high_lt size v h) rest) (ground (arith, digit v))

pub read_bytes-Reads : (s : Bytes) → Reads (read_bytes (length s)) s s
unfolding read_bytes
read_bytes-Reads [] rest = refl
read_bytes-Reads (b ∷ s) rest = rw (read_bytes-Reads s rest) refl

pub take_all : (s : Bytes) → take (length s) s ≡ s
unfolding take
take_all [] = refl
take_all (b ∷ s) = rw (take_all s) refl

-- A length that a `uint32_t` holds.
abbrev pub IsShort {ℓ} : {A : Type ℓ} → List A → Type 0
IsShort xs = length xs < 2 ^ 32

pub read_string-Reads : (s : Text) → IsShort s → Reads read_string (write_string s) s
unfolding read_string write_string
read_string-Reads s h =
    let e : length s % 2 ^ 32 ≡ length s = omega arith in
    rw (e, take_all s)
      (>>=-Reads (read_word 4) read_bytes (write_word 4 (length s)) s (length s) s
        (read_word-Reads 4 (length s) h) (read_bytes-Reads s))

-- A value that has a tag, and fits the field that it is written to.
abbrev pub IsTagged : Value → Type 0
IsTagged empty = ⊥
IsTagged (int v) = v < 2 ^ 32
IsTagged (float v) = v < 2 ^ 32
IsTagged (double v) = ⊥
IsTagged (text s) = IsShort s

pub read_any-Reads : (v : Value) → IsTagged v → Reads read_any (write_any v) v
unfolding read_any write_any read_tagged
read_any-Reads empty h = absurd h
read_any-Reads (int v) h =
    >>=-Reads (read_word 4) read_tagged (write_word 4 1) (write_word 4 v) 1 (int v)
      (read_word-Reads 4 1 (omega arith))
      (map-Reads (read_word 4) int (write_word 4 v) v (read_word-Reads 4 v h))
read_any-Reads (float v) h =
    >>=-Reads (read_word 4) read_tagged (write_word 4 2) (write_word 4 v) 2 (float v)
      (read_word-Reads 4 2 (omega arith))
      (map-Reads (read_word 4) float (write_word 4 v) v (read_word-Reads 4 v h))
read_any-Reads (double v) h = absurd h
read_any-Reads (text s) h =
    >>=-Reads (read_word 4) read_tagged (write_word 4 3) (write_string s) 3 (text s)
      (read_word-Reads 4 3 (omega arith))
      (map-Reads read_string text (write_string s) s (read_string-Reads s h))

module _ {ℓ κ} {A : Type ℓ} (read : Reader A) (write : A → Bytes) (P : A → Type κ)
    (each : (x : A) → P x → Reads read (write x) x) where
  pub read_all-Reads :
      (xs : List A) → All P xs → Reads (read_all read (length xs)) (write_all write xs) xs
  unfolding read_all write_all
  read_all-Reads [] h rest = refl
  read_all-Reads (x ∷ xs) h rest =
      >>=-Reads read (λ y. read_all read (length xs) >>= (λ ys. pure (y ∷ ys))) (write x)
        (write_all write xs) x (x ∷ xs) (each x h.0)
        (map-Reads (read_all read (length xs)) (λ ys. x ∷ ys) (write_all write xs) xs
          (read_all-Reads xs h.1))
        rest

  pub read_count-Reads :
      (xs : List A) → IsShort xs → All P xs → Reads (read_count read) (write_count write xs) xs
  unfolding read_count write_count
  read_count-Reads xs short h =
      >>=-Reads (read_word 4) (read_all read) (write_word 4 (length xs)) (write_all write xs)
        (length xs) xs (read_word-Reads 4 (length xs) short) (read_all-Reads xs h)

-- No entry has this name or stands behind it in the order of names.
abbrev pub Precedes {ℓ} : {V : Type ℓ} → Map Text V → Text → Type 0
Precedes m k = All (λ e. (text_same e.0 k ≡ false) × (text_before k e.0 ≡ false)) m

-- A map's entries stand in the order of names, each name once; some are put already.
abbrev pub InOrder {ℓ} : {V : Type ℓ} → Map Text V → Map Text V → Type 0
InOrder put [] = Unit
InOrder put ((k, v) ∷ m) = Precedes put k × InOrder (put ++ ((k, v) ∷ [])) m

put-Precedes {ℓ} :
    {V : Type ℓ} (k : Text) (v : V) (m : Map Text V) → Precedes m k → put k v m ≡ m ++ ((k, v) ∷ [])
unfolding put
put-Precedes k v [] h = refl
put-Precedes k v ((j, w) ∷ m) h = rw (h.0.0, h.0.1, put-Precedes k v m h.1) refl

module _ {ℓ κ} {V : Type ℓ} (read : Reader V) (write : V → Bytes) (P : V → Type κ)
    (each : (v : V) → P v → Reads read (write v) v) where
  -- The entries have short names and values that can be written.
  abbrev pub AreWritable : Map Text V → Type κ
  AreWritable m = All (λ e. IsShort e.0 × P e.1) m

  pub read_entries-Reads :
      (m done : Map Text V)
      → InOrder done m
      → AreWritable m
      → Reads (read_entries read (length m) done) (write_all (write_entry write) m) (done ++ m)
  unfolding read_entries write_all write_entry
  read_entries-Reads [] done o h rest = rw (append-nil done) refl
  read_entries-Reads ((k, v) ∷ m) done o h rest =
      let later : Reads (read_entries read (length m) (put k v done))
          (write_all (write_entry write) m) (done ++ ((k, v) ∷ m)) =
        rw (put-Precedes k v done o.0, sym (append_assoc done ((k, v) ∷ []) m))
          (read_entries-Reads m (done ++ ((k, v) ∷ [])) o.1 h.1) in
      rw (append_assoc (write_string k) (write v) (write_all (write_entry write) m)) (
        >>=-Reads read_string (λ a. read >>= (λ b. read_entries read (length m) (put a b done)))
          (write_string k) (write v ++ write_all (write_entry write) m) k (done ++ ((k, v) ∷ m))
          (read_string-Reads k h.0.0)
          (>>=-Reads read (λ b. read_entries read (length m) (put k b done)) (write v)
            (write_all (write_entry write) m) v (done ++ ((k, v) ∷ m)) (each v h.0.1) later)
          rest)

  pub read_map-Reads :
      (m : Map Text V)
      → IsShort m
      → InOrder [] m
      → AreWritable m
      → Reads (read_map read) (write_map write m) m
  unfolding read_map write_map write_count
  read_map-Reads m short o h =
      >>=-Reads (read_word 4) (λ n. read_entries read n []) (write_word 4 (length m))
        (write_all (write_entry write) m) (length m) m (read_word-Reads 4 (length m) short)
        (read_entries-Reads m [] o h)

-- A row of short names whose values can be written, its columns in the order of their names.
pub record IsStorable (row : Row) : Type 0 where
  pub name : IsShort row.table_name
  pub count : IsShort row.columns
  pub order : InOrder [] row.columns
  pub columns : All (λ e. IsShort e.0 × IsTagged e.1) row.columns
  pub id : row.row_id < 2 ^ 32

pub read_row-Reads : (row : Row) → IsStorable row → Reads read_row (write_row row) row
unfolding read_row write_row read_columns write_columns
read_row-Reads row h =
    >>=-Reads read_string
      (λ name. read_columns >>= (λ columns.
        read_word 4 >>= (λ id. pure record { table_name = name; columns = columns; row_id = id })))
      (write_string row.table_name) (write_columns row.columns ++ write_word 4 row.row_id)
      row.table_name row (read_string-Reads row.table_name h.name)
      (>>=-Reads read_columns
        (λ columns.
          read_word 4
          >>= (λ id. pure record { table_name = row.table_name; columns = columns; row_id = id }))
        (write_columns row.columns) (write_word 4 row.row_id) row.columns row
        (read_map-Reads read_any write_any IsTagged read_any-Reads row.columns h.count h.order
          h.columns)
        (map-Reads (read_word 4)
          (λ id. record { table_name = row.table_name; columns = row.columns; row_id = id })
          (write_word 4 row.row_id) row.row_id (read_word-Reads 4 row.row_id h.id)))
