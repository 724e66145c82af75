-- ===== src/Transactions/History.antt =====
-- The transactions of a manager after any calls.
use uc_catalog.Base.{
  ℕ, suc, ◌≤◌, ◌<◌, ◌≡◌, ◌≢◌, refl, ap, subst, ◌∙◌, inl, inr, Bool, true, false, Option, none, some,
  not, ◌&&◌, ◌||◌, sym, List, [], ◌∷◌, ◌==◌, ==_iff, if◌then◌else◌, Option-cases, arith,
}
use uc_catalog.Outcome.{Outcome, ok, undefined}
use uc_catalog.Transactions.{
  transaction_not_yet_started, AccessMode, UcTransaction, UcTransactionManager, find_transaction,
  erase_transaction, put_transaction, start_transaction, commit_transaction, rollback_transaction,
  commit, rollback, make_transaction,
}

-- Calls on the manager by DuckDB; a reference is the address that `start_transaction` returned.
pub data Call : Type 0 where
  starts : Call
  commits rolls_back : ℕ → Call

pub step : Call → UcTransactionManager → UcTransactionManager
step starts m = (start_transaction m).1
step (commits a) m = (commit_transaction a m).1
step (rolls_back a) m = (rollback_transaction a m).1

pub run : List Call → UcTransactionManager → UcTransactionManager
run [] m = m
run (c ∷ cs) m = run cs (step c m)

abbrev pub empty_manager : AccessMode → UcTransactionManager
empty_manager mode = record { access_mode = mode; transactions = []; allocated = 0 }

-- Every transaction was made before, is the only one at its address, was never started, and has the
-- access mode.
abbrev pub AreOpen : AccessMode → ℕ → List UcTransaction → Type 0
AreOpen mode n [] = Unit {0}
AreOpen mode n (t ∷ ts) =
    (t.address < n)
    × (find_transaction t.address ts ≡ none)
    × (t.transaction_state ≡ transaction_not_yet_started)
    × (t.access_mode ≡ mode)
    × AreOpen mode n ts

AreOpen-mono :
    (mode : AccessMode) (n m : ℕ) (ts : List UcTransaction)
    → n ≤ m
    → AreOpen mode n ts
    → AreOpen mode m ts
AreOpen-mono mode n m [] h f = tt
AreOpen-mono mode n m (t ∷ ts) h f = (omega arith, f.1, f.2, f.3, AreOpen-mono mode n m ts h f.4)

find_transaction-erase_transaction :
    (a b : ℕ) (ts : List UcTransaction)
    → find_transaction b (erase_transaction a ts) ≡ (if a == b then none else find_transaction b ts)
unfolding find_transaction erase_transaction
find_transaction-erase_transaction a b [] = ground arith
find_transaction-erase_transaction a b (t ∷ ts) =
    ground (arith, find_transaction-erase_transaction a b ts)

erase_transaction-AreOpen :
    (mode : AccessMode) (n a : ℕ) (ts : List UcTransaction)
    → AreOpen mode n ts
    → AreOpen mode n (erase_transaction a ts)
unfolding erase_transaction
erase_transaction-AreOpen mode n a [] f = tt
erase_transaction-AreOpen mode n a (t ∷ ts) f = ground (
  arith,
  erase_transaction-AreOpen mode n a ts f.4,
  find_transaction-erase_transaction a t.address ts,
)

find_transaction-address :
    (a : ℕ) (ts : List UcTransaction) {t : UcTransaction}
    → find_transaction a ts ≡ some t
    → t.address ≡ a
unfolding find_transaction
find_transaction-address a [] h = cc
find_transaction-address a (x ∷ ts) {t} h = ground (arith, find_transaction-address a ts {t = t})

erase_transaction_missing :
    (a : ℕ) (ts : List UcTransaction) → find_transaction a ts ≡ none → erase_transaction a ts ≡ ts
unfolding find_transaction erase_transaction
erase_transaction_missing a [] h = refl
erase_transaction_missing a (t ∷ ts) h = ground (arith, erase_transaction_missing a ts)

erase_transaction_idem :
    (a : ℕ) (ts : List UcTransaction)
    → erase_transaction a (erase_transaction a ts) ≡ erase_transaction a ts
erase_transaction_idem a ts =
    erase_transaction_missing a (erase_transaction a ts)
      (find_transaction-erase_transaction a a ts ∙ rw ((==_iff a a).1 refl))

erase_transaction-put_transaction :
    (a : ℕ) (t : UcTransaction) (ts : List UcTransaction)
    → t.address ≡ a
    → erase_transaction a (put_transaction t ts) ≡ erase_transaction a ts
unfolding put_transaction erase_transaction
erase_transaction-put_transaction a t ts e =
    rw ((==_iff t.address a).1 e)
      (ap (λ b. erase_transaction a (erase_transaction b ts)) e ∙ erase_transaction_idem a ts)

-- A commit or a rollback of an open transaction erases it, and nothing else; of any other address
-- it reads an object that is gone.
abbrev Ends : (ℕ → UcTransactionManager → Outcome (Unit {0}) × UcTransactionManager) → Type 0
Ends end =
    (a : ℕ) (m : UcTransactionManager)
    → (find_transaction a m.transactions ≡ none → end a m ≡ (undefined, m))
      × (find_transaction a m.transactions ≢ none
          → end a m ≡ (ok tt, record m { transactions = erase_transaction a m.transactions }))

commit_transaction-Ends : Ends commit_transaction
unfolding commit_transaction
commit_transaction-Ends a m = elim (Option-cases (find_transaction a m.transactions)) [
  | inl missing ↦ (λ _. rw missing, λ h. absurd (h missing))
  | inr (t, found) ↦ (
    λ h. cc (found, h),
    λ _. rw found (
        ap (λ ts. (ok tt, record m { transactions = ts }))
          (erase_transaction-put_transaction a (commit t) m.transactions
            (find_transaction-address a m.transactions found))),
  )
]

rollback_transaction-Ends : Ends rollback_transaction
unfolding rollback_transaction
rollback_transaction-Ends a m = elim (Option-cases (find_transaction a m.transactions)) [
  | inl missing ↦ (λ _. rw missing, λ h. absurd (h missing))
  | inr (t, found) ↦ (
    λ h. cc (found, h),
    λ _. rw found (
        ap (λ ts. (ok tt, record m { transactions = ts }))
          (erase_transaction-put_transaction a (rollback t) m.transactions
            (find_transaction-address a m.transactions found))),
  )
]

-- The state behind the end of a transaction.
end_state :
    (end : ℕ → UcTransactionManager → Outcome (Unit {0}) × UcTransactionManager)
    → Ends end
    → (a : ℕ) (m : UcTransactionManager)
    → (end a m).1 ≡ record m { transactions = erase_transaction a m.transactions }
end_state end ends a m = elim (Option-cases (find_transaction a m.transactions)) [
  | inl missing ↦ rw ((ends a m).0 missing) (
      ap (λ ts. record m { transactions = ts })
        (sym (erase_transaction_missing a m.transactions missing)))
  | inr (t, found) ↦ rw ((ends a m).1 (λ h. cc (found, h)))
]

step-AreOpen :
    (c : Call) (m : UcTransactionManager)
    → AreOpen m.access_mode m.allocated m.transactions
    → AreOpen m.access_mode (step c m).allocated (step c m).transactions
unfolding step start_transaction make_transaction
step-AreOpen starts m f = (
  omega arith,
  find_transaction-erase_transaction m.allocated m.allocated m.transactions
      ∙ rw ((==_iff m.allocated m.allocated).1 refl),
  refl,
  refl,
  AreOpen-mono m.access_mode m.allocated (suc m.allocated) _ (omega arith)
      (erase_transaction-AreOpen m.access_mode m.allocated m.allocated m.transactions f),
)
step-AreOpen (commits a) m f =
    rw (end_state commit_transaction commit_transaction-Ends a m)
      (erase_transaction-AreOpen m.access_mode m.allocated a m.transactions f)
step-AreOpen (rolls_back a) m f =
    rw (end_state rollback_transaction rollback_transaction-Ends a m)
      (erase_transaction-AreOpen m.access_mode m.allocated a m.transactions f)

step-access_mode : (c : Call) (m : UcTransactionManager) → (step c m).access_mode ≡ m.access_mode
unfolding step start_transaction
step-access_mode starts m = refl
step-access_mode (commits a) m = rw (end_state commit_transaction commit_transaction-Ends a m) refl
step-access_mode (rolls_back a) m =
    rw (end_state rollback_transaction rollback_transaction-Ends a m) refl

-- Calls keep this of the open transactions: each was made before, has an address of its own, is not
-- yet started, and has the access mode that the catalog was attached with. So no call ever brings
-- one to the state in which a commit or a rollback changes it.
pub run-AreOpen :
    (cs : List Call) (m : UcTransactionManager)
    → AreOpen m.access_mode m.allocated m.transactions
    → AreOpen m.access_mode (run cs m).allocated (run cs m).transactions
unfolding run
run-AreOpen [] m f = f
run-AreOpen (c ∷ cs) m f =
    subst (λ mode. AreOpen mode (run cs (step c m)).allocated (run cs (step c m)).transactions)
      (step-access_mode c m)
      (run-AreOpen cs (step c m) (rw (step-access_mode c m) (step-AreOpen c m f)))

-- The call ends the transaction at `a`.
abbrev pub ends : ℕ → Call → Bool
ends a starts = false
ends a (commits b) = b == a
ends a (rolls_back b) = b == a

abbrev pub ended : ℕ → List Call → Bool
ended a [] = false
ended a (c ∷ cs) = ends a c || ended a cs

abbrev pub is_some : Option UcTransaction → Bool
is_some none = false
is_some (some t) = true

abbrev pub is_open : ℕ → UcTransactionManager → Bool
is_open a m = is_some (find_transaction a m.transactions)

&&-true : (b : Bool) → b ≡ (b && true)
&&-true b = ground arith

find_transaction-put_transaction :
    (t : UcTransaction) (a : ℕ) (ts : List UcTransaction)
    → (t.address == a) ≡ false
    → find_transaction a (put_transaction t ts) ≡ find_transaction a ts
unfolding find_transaction put_transaction
find_transaction-put_transaction t a ts h =
    rw h (find_transaction-erase_transaction t.address a ts ∙ rw h)

-- The transaction that a start files.
abbrev opened : UcTransactionManager → UcTransaction
opened m = record {
  address = m.allocated;
  transaction_state = transaction_not_yet_started;
  access_mode = m.access_mode;
}

step-is_open :
    (c : Call) (m : UcTransactionManager) (a : ℕ)
    → a < m.allocated
    → (is_open a (step c m) ≡ (is_open a m && not (ends a c))) × (a < (step c m).allocated)
unfolding step start_transaction make_transaction
step-is_open starts m a h =
    let apart : (m.allocated == a) ≡ false = ground arith in
    (
      rw (find_transaction-put_transaction (opened m) a m.transactions apart)
          (&&-true (is_some (find_transaction a m.transactions))),
      omega arith,
    )
step-is_open (commits b) m a h =
    rw (end_state commit_transaction commit_transaction-Ends b m)
      (ground (arith, find_transaction-erase_transaction b a m.transactions))
step-is_open (rolls_back b) m a h =
    rw (end_state rollback_transaction rollback_transaction-Ends b m)
      (ground (arith, find_transaction-erase_transaction b a m.transactions))

-- A transaction that was made is open behind a history exactly if it was open before, and no
-- commit or rollback of it is among the calls: other calls do not touch it, and its address is
-- not given out again.
pub run-is_open :
    (cs : List Call) (m : UcTransactionManager) (a : ℕ)
    → a < m.allocated
    → is_open a (run cs m) ≡ (is_open a m && not (ended a cs))
unfolding run
run-is_open [] m a h = ground arith
run-is_open (c ∷ cs) m a h =
    let (now, later) = step-is_open c m a h in
    ground (arith, now, run-is_open cs (step c m) a later)
