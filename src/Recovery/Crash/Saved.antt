-- ===== src/Recovery/Crash/Saved.antt =====
-- The analysis across a checkpoint that `save_checkpoint` wrote.
use tubes_if3140_sistem_basi.Base.{ℕ, List, [], ◌∷◌, ◌++◌, some, true, ◌≡◌, refl, ap, ◌∙◌, All}
use tubes_if3140_sistem_basi.Base.Key.{Text}
use tubes_if3140_sistem_basi.Base.Set.{contains}
use tubes_if3140_sistem_basi.Recovery.Entry.{LogEntry}
use tubes_if3140_sistem_basi.Recovery.CheckpointList.{
  add_tokens, active_transactions_str, parse_checkpoint_list, print_list, split_at,
}
use tubes_if3140_sistem_basi.Base.Numbers.RoundTrip.{IsNatural}
use tubes_if3140_sistem_basi.Recovery.CheckpointList.RoundTrip.{
  contains-add_tokens, print_list-IsPlain, split_at-end,
}
use tubes_if3140_sistem_basi.Recovery.Manager.{end_prefix}
use tubes_if3140_sistem_basi.Recovery.Manager.Wal.{is_active}
use tubes_if3140_sistem_basi.Recovery.Crash.{analyse, is_checkpoint}
use tubes_if3140_sistem_basi.Recovery.Crash.Scan.{NoCheckpoint, analyse-checkpoint}

inner_lem :
    (inner : Text)
    → split_at 93 (inner ++ (93 ∷ [])) ≡ some (inner, [])
    → parse_checkpoint_list (end_prefix ++ (91 ∷ (inner ++ (93 ∷ [])))) ≡ add_tokens [] inner []
unfolding parse_checkpoint_list split_at
inner_lem inner h = rw (h, parse_checkpoint_list) refl

contains-parse_checkpoint_list :
    (x : ℕ) (tids : List ℕ)
    → All IsNatural tids
    → contains x (parse_checkpoint_list (end_prefix ++ active_transactions_str tids))
      ≡ contains x tids
unfolding active_transactions_str
contains-parse_checkpoint_list x tids h =
    ap (contains x) (
      inner_lem (print_list true tids)
        (split_at-end (print_list true tids) (print_list-IsPlain true tids h)))
    ∙ contains-add_tokens x tids h

-- Where the last checkpoint of the log carries the list that `save_checkpoint` prints of the active
-- transactions, a transaction is in the undo list exactly when its last BEGIN, COMMIT or ABORT behind
-- the checkpoint is a BEGIN, or there is none and it was active at the checkpoint. The numbers of the
-- active transactions fit an `int` and are not negative.
pub analyse-saved :
    (tid : ℕ) (tids : List ℕ) (front : List LogEntry) (c : LogEntry) (back : List LogEntry)
    → All IsNatural tids
    → is_checkpoint c.operation ≡ true
    → c.query ≡ end_prefix ++ active_transactions_str tids
    → NoCheckpoint back
    → contains tid (analyse (front ++ (c ∷ back))).undo_list
      ≡ is_active tid back (contains tid tids)
analyse-saved tid tids front c back naturals h query g =
    (analyse-checkpoint tid front c back h g).0
    ∙ ap (is_active tid back) (
        ap (λ q. contains tid (parse_checkpoint_list q)) query
        ∙ contains-parse_checkpoint_list tid tids naturals)
