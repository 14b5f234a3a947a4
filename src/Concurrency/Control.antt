-- ===== src/Concurrency/Control.antt =====
-- `ConcurrencyControlManager` of src/concurrency_control/concurrency_control.cpp: the protocol in
-- use, and the calls that are passed on to it.
pub mod Run
use tubes_if3140_sistem_basi.Base.{
  ℕ, ◌+◌, [], ◌∷◌, map, Bool, true, false, ◌&&◌, ◌||◌, Option, none, some, if◌then◌else◌, leb,
}
use tubes_if3140_sistem_basi.Base.Key.{Text, text_same}
use tubes_if3140_sistem_basi.Types.{Row, Action, Response, TransactionStatus}
use tubes_if3140_sistem_basi.Concurrency.RowHash.{Hasher}
use tubes_if3140_sistem_basi.Concurrency.Timestamp
use tubes_if3140_sistem_basi.Concurrency.TwoPhase

pub data Protocol : Type 0 where
  timestamp : Timestamp.Manager → Protocol
  two_phase : TwoPhase.Manager → Protocol

-- `cc_manager` is `none` where the source has a null pointer.
pub record Control : Type 0 where
  pub cc_manager : Option Protocol
  pub current_algorithm : Text

-- `::tolower` on ASCII.
unfoldable pub to_lower : ℕ → ℕ
to_lower c = if leb b'A' c && leb c b'Z' then c + 32 else c

abbrev pub timestamp_name : Text
timestamp_name = b't' ∷ b'i' ∷ b'm' ∷ b'e' ∷ b's' ∷ b't' ∷ b'a' ∷ b'm' ∷ b'p' ∷ []

abbrev pub two_phase_name : Text
two_phase_name =
    b't' ∷ b'w' ∷ b'o' ∷ b'p' ∷ b'h' ∷ b'a' ∷ b's' ∷ b'e' ∷ b'l' ∷ b'o' ∷ b'c' ∷ b'k' ∷ b'i' ∷ b'n'
    ∷ b'g' ∷ []

abbrev pub short_name : Text
short_name = b'2' ∷ b'p' ∷ b'l' ∷ []

-- The new control, and false where `std::invalid_argument` is thrown. The old protocol is gone in
-- any case: `cc_manager_.reset()` comes first.
unfoldable pub switch_algorithm : Text → Control → Control × Bool
switch_algorithm algorithm c =
    if text_same (map to_lower algorithm) timestamp_name
    then (
      record { cc_manager = some (timestamp Timestamp.init); current_algorithm = timestamp_name },
      true,
    )
    else if text_same (map to_lower algorithm) two_phase_name
        || text_same (map to_lower algorithm) short_name
    then (
      record { cc_manager = some (two_phase TwoPhase.init); current_algorithm = two_phase_name },
      true,
    )
    else (record c { cc_manager = none }, false)

-- The constructor; `none` where the exception of the switch leaves no object.
unfoldable pub construct : Text → Option Control
construct algorithm =
    let made =
      switch_algorithm algorithm record { cc_manager = none; current_algorithm = algorithm } in
    if made.1 then some made.0 else none

-- A call through the null pointer has no result.
unfoldable pub begin_transaction : Control → Option (Control × ℕ)
begin_transaction c = elim c.cc_manager [
  | none ↦ none
  | some (timestamp m) ↦
      let (m', t) = Timestamp.begin_transaction m in
      some (record c { cc_manager = some (timestamp m') }, t)
  | some (two_phase m) ↦
      let (m', t) = TwoPhase.begin_transaction m in
      some (record c { cc_manager = some (two_phase m') }, t)
]

-- `log_object` of two-phase locking changes nothing. The inner `none` is the exception of the
-- timestamp protocol.
unfoldable pub log_object : Hasher → Row → ℕ → Control → Option (Option Control)
log_object H row tid c = elim c.cc_manager [
  | none ↦ none
  | some (timestamp m) ↦ elim (Timestamp.log_object H m row tid) [
    | none ↦ some none
    | some m' ↦ some (some (record c { cc_manager = some (timestamp m') }))
  ]
  | some (two_phase m) ↦ some (some c)
]

unfoldable pub validate_object : Hasher → Row → ℕ → Action → Control → Option (Control × Response)
validate_object H row tid action c = elim c.cc_manager [
  | none ↦ none
  | some (timestamp m) ↦
      let (m', r) = Timestamp.validate_object H m row tid action in
      some (record c { cc_manager = some (timestamp m') }, r)
  | some (two_phase m) ↦
      let (m', r) = TwoPhase.Acquire.validate_object H m row tid action in
      some (record c { cc_manager = some (two_phase m') }, r)
]

unfoldable pub end_transaction : ℕ → Control → Option Control
end_transaction tid c = elim c.cc_manager [
  | none ↦ none
  | some (timestamp m) ↦
      some (record c { cc_manager = some (timestamp (Timestamp.end_transaction m tid)) })
  | some (two_phase m) ↦
      some (record c { cc_manager = some (two_phase (TwoPhase.end_transaction m tid)) })
]

unfoldable pub get_transaction_status : ℕ → Control → Option TransactionStatus
get_transaction_status tid c = elim c.cc_manager [
  | none ↦ none
  | some (timestamp m) ↦ some (Timestamp.get_transaction_status m tid)
  | some (two_phase m) ↦ some (TwoPhase.get_transaction_status m tid)
]
