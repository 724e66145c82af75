-- ===== src/Transactions.antt =====
-- src/storage/uc_transaction.cpp, src/storage/uc_transaction_manager.cpp and their headers. The
-- calls are atomic here: each takes `transaction_lock` once.
pub mod History
mod Tests
use uc_catalog.Base.{
  ℕ, suc, Bool, true, false, Option, none, some, List, [], ◌∷◌, ◌++◌, ◌==◌, if◌then◌else◌,
}
use uc_catalog.Outcome.{Outcome, ok, undefined}
use uc_catalog.Action.{Action, pure, get, lift, modify, ◌>>=◌, ◌>>◌}

pub data UcTransactionState : Type 0 where
  transaction_not_yet_started transaction_started transaction_finished : UcTransactionState

pub data AccessMode : Type 0 where
  undefined_mode automatic read_only read_write : AccessMode

pub record UcTransaction : Type 0 where
  pub address : ℕ
  pub transaction_state : UcTransactionState
  pub access_mode : AccessMode

unfoldable pub start : UcTransaction → UcTransaction
start t = record t { transaction_state = transaction_not_yet_started }

abbrev finished : UcTransactionState → UcTransactionState
finished transaction_started = transaction_finished
finished other = other

unfoldable pub commit : UcTransaction → UcTransaction
commit t = record t { transaction_state = finished t.transaction_state }

unfoldable pub rollback : UcTransaction → UcTransaction
rollback t = record t { transaction_state = finished t.transaction_state }

unfoldable pub get_access_mode : UcTransaction → AccessMode
get_access_mode t = t.access_mode

-- `transactions`, the access mode of `uc_catalog`, which stays as it is, and the number of
-- transactions that were made.
pub record UcTransactionManager : Type 0 where
  pub access_mode : AccessMode
  pub transactions : List UcTransaction
  pub allocated : ℕ

-- The map's node for a transaction: transactions are told apart by their address.
unfoldable pub find_transaction : ℕ → List UcTransaction → Option UcTransaction
find_transaction a [] = none
find_transaction a (t ∷ ts) = if t.address == a then some t else find_transaction a ts

unfoldable pub erase_transaction : ℕ → List UcTransaction → List UcTransaction
erase_transaction a [] = []
erase_transaction a (t ∷ ts) =
    if t.address == a then erase_transaction a ts else t ∷ erase_transaction a ts

-- `transactions[result] = std::move(transaction)`
unfoldable pub put_transaction : UcTransaction → List UcTransaction → List UcTransaction
unfolding erase_transaction
put_transaction t ts = t ∷ erase_transaction t.address ts

-- `UCTransaction`'s constructor, for a catalog with this access mode. `Start` sets the state that it
-- leaves open.
unfoldable pub make_transaction : AccessMode → ℕ → UcTransaction
make_transaction access_mode address = record {
  address = address;
  transaction_state = transaction_not_yet_started;
  access_mode = access_mode;
}

unfoldable pub start_transaction : Action UcTransactionManager ℕ
unfolding make_transaction start put_transaction
start_transaction = do
  m ← get
  let transaction = start (make_transaction m.access_mode m.allocated)
  modify (λ n. record n {
    transactions = put_transaction transaction n.transactions;
    allocated = suc n.allocated;
  })
  pure m.allocated

-- The transaction behind a reference: it is owned by the map, and gone once it is erased.
abbrev pub dereference : Option UcTransaction → Action UcTransactionManager UcTransaction
dereference none m = (undefined, m)
dereference (some t) m = (ok t, m)

abbrev pub referenced : ℕ → Action UcTransactionManager UcTransaction
referenced a m = dereference (find_transaction a m.transactions) m

-- The transaction itself is changed first, and then erased.
unfoldable pub commit_transaction : ℕ → Action UcTransactionManager (Unit {0})
unfolding commit put_transaction erase_transaction find_transaction
commit_transaction a = do
  t ← referenced a
  modify (λ m. record m { transactions = put_transaction (commit t) m.transactions })
  modify (λ m. record m { transactions = erase_transaction a m.transactions })

unfoldable pub rollback_transaction : ℕ → Action UcTransactionManager (Unit {0})
unfolding rollback put_transaction erase_transaction find_transaction
rollback_transaction a = do
  t ← referenced a
  modify (λ m. record m { transactions = put_transaction (rollback t) m.transactions })
  modify (λ m. record m { transactions = erase_transaction a m.transactions })

-- `Checkpoint`. `UCTransaction::Get` is DuckDB's `Transaction::Get`, which may start a transaction.
unfoldable pub checkpoint :
    Action UcTransactionManager UcTransaction → Action UcTransactionManager (Unit {0})
checkpoint get_transaction = do get_transaction; pure tt
