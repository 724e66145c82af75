-- ===== src/Transactions/Tests.antt =====
-- The theorems on the transactions, at given histories.
use uc_catalog.Base.{◌≡◌, [], ◌∷◌, true, arith, List}
use uc_catalog.Transactions.{
  automatic, read_only, find_transaction, UcTransactionManager, transaction_not_yet_started,
}
use uc_catalog.Transactions.History.{
  Call, starts, commits, rolls_back, run, empty_manager, is_open, AreOpen, run-AreOpen, run-is_open,
}

abbrev history : List Call
history = starts ∷ (commits 0 ∷ (rolls_back 1 ∷ []))

run-AreOpen_example :
    AreOpen read_only
      (run history (empty_manager read_only)).allocated
      (run history (empty_manager read_only)).transactions
run-AreOpen_example = run-AreOpen history (empty_manager read_only) tt

abbrev one_open : UcTransactionManager
one_open = record {
  access_mode = automatic;
  transactions =
      record {
        address = 0;
        transaction_state = transaction_not_yet_started;
        access_mode = automatic;
      }
      ∷ [];
  allocated = 1;
}

run-is_open_example : is_open 0 (run (starts ∷ (commits 1 ∷ [])) one_open) ≡ true
unfolding find_transaction
run-is_open_example = run-is_open (starts ∷ (commits 1 ∷ [])) one_open 0 (omega arith)
