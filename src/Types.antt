-- ===== src/Types.antt =====
-- include/types.h: the values, the rows, and the enumerations that the components share.
use tubes_if3140_sistem_basi.Base.{ℕ, [], Bool}
use tubes_if3140_sistem_basi.Base.Key.{Text}
use tubes_if3140_sistem_basi.Base.Map.{Map}

-- `std::any` with the types that the program stores in it. A number is the bit pattern of its
-- type: 32 bits for `int` and `float`, 64 for `double`.
pub data Value : Type 0 where
  empty : Value
  int : ℕ → Value
  float : ℕ → Value
  double : ℕ → Value
  text : Text → Value

-- The pattern of `int` -1, the `row_id` of a row with no identity.
abbrev pub minus_one : ℕ
minus_one = 0xFFFFFFFF

-- `columns` is a `std::unordered_map`; its entries stand in the order of the names.
pub record Row : Type 0 where
  pub table_name : Text
  pub columns : Map Text Value
  pub row_id : ℕ

abbrev pub empty_row : Row
empty_row = record { table_name = []; columns = []; row_id = minus_one }

pub data Action : Type 0 where
  read write : Action

pub data TransactionStatus : Type 0 where
  active partially_committed committed failed aborted terminated : TransactionStatus

pub record Response : Type 0 where
  pub allowed : Bool
  pub transaction_id : ℕ

pub record Condition : Type 0 where
  pub column : Text
  pub operation : Text
  pub operand : Value
  pub logical_operator : Text
