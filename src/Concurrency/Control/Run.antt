-- ===== src/Concurrency/Control/Run.antt =====
-- The calls of `ConcurrencyControlManager` one after the other.
use mathlib.Core.Option
use tubes_if3140_sistem_basi.Base.{
  ℕ, List, [], ◌∷◌, map, Bool, true, false, ◌&&◌, ◌||◌, Option, none, some, ◌≡◌, refl, sym, ap, ◌∙◌,
  subst, if◌then◌else◌, Bool-cases, inl, inr, is_some,
}
use tubes_if3140_sistem_basi.Base.Key.{Text, text_same}
use tubes_if3140_sistem_basi.Types.{Row, Action}
use tubes_if3140_sistem_basi.Concurrency.RowHash.{Hasher}
use tubes_if3140_sistem_basi.Concurrency.Timestamp
use tubes_if3140_sistem_basi.Concurrency.Control.{
  Protocol, timestamp, two_phase, Control, to_lower, timestamp_name, two_phase_name, short_name,
  switch_algorithm, construct, begin_transaction, log_object, validate_object, end_transaction,
  get_transaction_status,
}

pub data Call : Type 0 where
  switch : Text → Call
  begin : Call
  log : Row → ℕ → Call
  validate : Row → ℕ → Action → Call
  end : ℕ → Call
  status : ℕ → Call

-- The control behind a call of `log_object`, whose exception leaves it as it was.
abbrev pub after_log : Control → Option (Option Control) → Option Control
after_log c none = none
after_log c (some none) = some c
after_log c (some (some c')) = some c'

-- The control behind a call, the exceptions of `switch_algorithm` and `log_object` caught; `none` where
-- the call goes through the null pointer.
unfoldable pub step : Hasher → Call → Control → Option Control
step H (switch algorithm) c = some (switch_algorithm algorithm c).0
step H begin c = Option.map (λ r. r.0) (begin_transaction c)
step H (log row tid) c = after_log c (log_object H row tid c)
step H (validate row tid action) c = Option.map (λ r. r.0) (validate_object H row tid action c)
step H (end tid) c = end_transaction tid c
step H (status tid) c = Option.map (λ s. c) (get_transaction_status tid c)

unfoldable pub run : Hasher → List Call → Control → Option Control
run H [] c = some c
run H (k ∷ ks) c = elim (step H k c) [ none ↦ none | some c' ↦ run H ks c' ]

-- The calls on a manager, if there is one.
abbrev pub run_on : Hasher → List Call → Option Control → Option Control
run_on H calls none = none
run_on H calls (some c) = run H calls c

-- The calls on a new manager for the algorithm.
abbrev pub start : Hasher → Text → List Call → Option Control
start H algorithm calls = run_on H calls (construct algorithm)

-- The names of the algorithms, in letters of either case.
abbrev pub is_known : Text → Bool
is_known algorithm =
    text_same (map to_lower algorithm) timestamp_name
    || (text_same (map to_lower algorithm) two_phase_name
        || text_same (map to_lower algorithm) short_name)

-- Every call but a switch comes behind a known name: the last one that a switch named or, before
-- any switch, the first one.
abbrev pub is_served : Bool → List Call → Bool
is_served known [] = true
is_served known (switch algorithm ∷ ks) = is_served (is_known algorithm) ks
is_served known (begin ∷ ks) = known && is_served known ks
is_served known (log row tid ∷ ks) = known && is_served known ks
is_served known (validate row tid action ∷ ks) = known && is_served known ks
is_served known (end tid ∷ ks) = known && is_served known ks
is_served known (status tid ∷ ks) = known && is_served known ks

-- The current name is that of the protocol in use, if there is one.
abbrev pub IsNamed : Option Protocol → Text → Type 0
IsNamed none name = Unit
IsNamed (some (timestamp m)) name = name ≡ timestamp_name
IsNamed (some (two_phase m)) name = name ≡ two_phase_name

abbrev pub AreNamed : Option Control → Type 0
AreNamed none = Unit
AreNamed (some c) = IsNamed c.cc_manager c.current_algorithm

-- What some calls give, with a protocol in use before them or not.
abbrev Serves : Bool → List Call → Option Control → Type 0
Serves known calls result = (is_some result ≡ is_served known calls) × AreNamed result

module _ (H : Hasher) where
  -- The control of a switch, and whether there is a protocol then.
  switch_lem :
      (algorithm : Text) (c : Control)
      → (is_some (switch_algorithm algorithm c).0.cc_manager ≡ is_known algorithm)
        × ((switch_algorithm algorithm c).1 ≡ is_known algorithm)
        × AreNamed (some (switch_algorithm algorithm c).0)
  unfolding switch_algorithm
  switch_lem algorithm c = elim (Bool-cases (text_same (map to_lower algorithm) timestamp_name)) [
    | inl a ↦ rw a (refl, refl, refl)
    | inr a ↦
        elim (Bool-cases (
          text_same (map to_lower algorithm) two_phase_name
          || text_same (map to_lower algorithm) short_name)) [
            | inl b ↦ rw (a, b) (refl, refl, refl)
            | inr b ↦ rw (a, b) (refl, refl, tt)
          ]
  ]

  -- A `log_object` that throws, and one that does not.
  logged_lem :
      (ks : List Call) (m : Timestamp.Manager) (name : Text) (o : Option Timestamp.Manager)
      → ((m' : Timestamp.Manager)
          → Serves true ks
              (run H ks record { cc_manager = some (timestamp m'); current_algorithm = name }))
      → Serves true ks
          (elim (after_log
            record { cc_manager = some (timestamp m); current_algorithm = name }
            (elim o [
              | none ↦ some none
              | some m' ↦
                  some (some record { cc_manager = some (timestamp m'); current_algorithm = name })
            ])) [ none ↦ none | some c' ↦ run H ks c' ])
  logged_lem ks m name none rest = rest m
  logged_lem ks m name (some m') rest = rest m'

  run-Serves :
      (calls : List Call) (p : Option Protocol) (name : Text)
      → IsNamed p name
      → Serves (is_some p) calls (run H calls record { cc_manager = p; current_algorithm = name })
  unfolding run step begin_transaction log_object validate_object end_transaction
      get_transaction_status
  run-Serves [] p name h = (refl, h)
  run-Serves (switch algorithm ∷ ks) p name h =
      let c' = (switch_algorithm algorithm record { cc_manager = p; current_algorithm = name }).0 in
      let facts = switch_lem algorithm record { cc_manager = p; current_algorithm = name } in
      let rest = run-Serves ks c'.cc_manager c'.current_algorithm facts.2 in
      (rest.0 ∙ ap (λ b. is_served b ks) facts.0, rest.1)
  run-Serves (begin ∷ ks) none name h = (refl, tt)
  run-Serves (begin ∷ ks) (some (timestamp m)) name h = run-Serves ks _ name h
  run-Serves (begin ∷ ks) (some (two_phase m)) name h = run-Serves ks _ name h
  run-Serves (log row tid ∷ ks) none name h = (refl, tt)
  run-Serves (log row tid ∷ ks) (some (timestamp m)) name h =
      logged_lem ks m name (Timestamp.log_object H m row tid)
        (λ m'. run-Serves ks (some (timestamp m')) name h)
  run-Serves (log row tid ∷ ks) (some (two_phase m)) name h = run-Serves ks _ name h
  run-Serves (validate row tid action ∷ ks) none name h = (refl, tt)
  run-Serves (validate row tid action ∷ ks) (some (timestamp m)) name h = run-Serves ks _ name h
  run-Serves (validate row tid action ∷ ks) (some (two_phase m)) name h = run-Serves ks _ name h
  run-Serves (end tid ∷ ks) none name h = (refl, tt)
  run-Serves (end tid ∷ ks) (some (timestamp m)) name h = run-Serves ks _ name h
  run-Serves (end tid ∷ ks) (some (two_phase m)) name h = run-Serves ks _ name h
  run-Serves (status tid ∷ ks) none name h = (refl, tt)
  run-Serves (status tid ∷ ks) (some (timestamp m)) name h =
      run-Serves ks (some (timestamp m)) name h
  run-Serves (status tid ∷ ks) (some (two_phase m)) name h =
      run-Serves ks (some (two_phase m)) name h

  abbrev first_control : Text → Control
  first_control algorithm =
      (switch_algorithm algorithm record { cc_manager = none; current_algorithm = algorithm }).0

  construct_lem :
      (algorithm : Text)
      → construct algorithm ≡ (if is_known algorithm then some (first_control algorithm) else none)
  unfolding construct
  construct_lem algorithm =
      ap (λ b. if b then some (first_control algorithm) else none)
        (switch_lem algorithm record { cc_manager = none; current_algorithm = algorithm }).1

  made-Serves :
      (calls : List Call) (known : Bool) (c : Control)
      → is_some c.cc_manager ≡ known
      → IsNamed c.cc_manager c.current_algorithm
      → (is_some (run_on H calls (if known then some c else none))
          ≡ (known && is_served true calls))
        × AreNamed (run_on H calls (if known then some c else none))
  made-Serves calls true c protocol named =
      let rest = run-Serves calls c.cc_manager c.current_algorithm named in
      (rest.0 ∙ ap (λ b. is_served b calls) protocol, rest.1)
  made-Serves calls false c protocol named = (refl, tt)

  -- A new manager for an algorithm that it knows, in letters of either case, serves the calls to the
  -- end exactly when each call that needs a protocol comes behind a known name: the last that a
  -- switch named or, before any switch, the first. Otherwise a call goes through a null pointer; with
  -- a first name that is not known there is no manager. At the end the current name is that of the
  -- protocol in use, if there is one.
  pub start-served_iff :
      (algorithm : Text) (calls : List Call)
      → (is_some (start H algorithm calls) ≡ (is_known algorithm && is_served true calls))
        × AreNamed (start H algorithm calls)
  start-served_iff algorithm calls =
      let facts =
        switch_lem algorithm record { cc_manager = none; current_algorithm = algorithm } in
      subst
        (λ made.
          (is_some (run_on H calls made) ≡ (is_known algorithm && is_served true calls))
          × AreNamed (run_on H calls made))
        (sym (construct_lem algorithm))
        (made-Serves calls (is_known algorithm) (first_control algorithm) facts.0 facts.2)
