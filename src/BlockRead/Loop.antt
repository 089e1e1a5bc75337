-- ===== src/BlockRead/Loop.antt =====
-- The loop of `readBlockTxs` in src/BlockchainRead.cpp comes to its end on every block.
use node_infrastructure_torr.Prelude.{
  ℕ, ◌≡◌, Bool, Bytes, List, Option, some, length, Result, fault,
}
use node_infrastructure_torr.BlockInfo.Records.{TransactionInfo}
use node_infrastructure_torr.BlockRead.Transaction.{Libraries}
use node_infrastructure_torr.BlockRead.Total.{IsUndefined}

module _ (libraries : Libraries) (raw : Bytes) (pos_in_file : ℕ) (save : Bool)
    (begin_tx count_tx : ℕ) (valid : Bool) where
  -- The loop ends, and its end is undefined only if the reading of some transaction is.
  abbrev Ends : Option (Result (List TransactionInfo)) → Type 0
  Ends o =
      (r : Result (List TransactionInfo)) × (o ≡ some r)
      × (r ≡ fault → (p : ℕ) × (is_read : Bool) × IsUndefined libraries is_read raw (length raw) p)
