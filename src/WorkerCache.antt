-- ===== src/WorkerCache.antt =====
-- `WorkerCache` of src/Workers/WorkerCache.h and its .cpp, which fills the caches of blocks and
-- transactions from a queue of blocks, with `AllCaches` of src/Cache/Cache.h. The worker takes the
-- blocks in the order in which they were pushed; what it throws for one block it logs, and goes on.
pub mod Window
mod Tests
use node_infrastructure_torr.Prelude.{
  ℕ, zero, suc, ◌+◌, ◌-◌, ◌/◌, ◌%◌, ◌^◌, Bytes, List, [], ◌∷◌, none, some, ltb, ◌==◌, if◌then◌else◌,
}
use node_infrastructure_torr.BlockInfo.Records.{TransactionInfo, BlockInfo}
use node_infrastructure_torr.BlockInfo.Transactions.{is_int_status_node_test}
use node_infrastructure_torr.Cache.{Cache, add_value, remove}

-- The caches that the worker fills, and their limits.
pub record AllCaches : Type 0 where
  pub max_count_elements_block_cache : ℕ
  pub max_count_elements_txs_cache : ℕ
  pub block_dump_cache : Cache Bytes
  pub txs_cache : Cache TransactionInfo

-- The decimal digits of a number of at most `fuel` digits, in front of `digits`.
unfoldable pub digits_before : ℕ → ℕ → Bytes → Bytes
digits_before zero n digits = digits
digits_before (suc fuel) n digits =
    let longer = digits_before fuel (n / 10) ((b'0' + n % 10) ∷ digits) in
    if ltb n 10 then (b'0' + n) ∷ digits else longer

-- std::to_string of a size_t, which has at most 20 digits
unfoldable pub to_string : ℕ → Bytes
to_string n = digits_before 20 n []

-- std::to_string(number - max), of the block that leaves the cache
unfoldable pub leaving : ℕ → ℕ → Bytes
leaving number max_count = to_string ((number + 2 ^ 64 - max_count) % 2 ^ 64)

unfoldable pub add_dump : ℕ → ℕ → Bytes → Bytes → Cache Bytes → Cache Bytes
add_dump number max_count hash dump c =
    if max_count == 0
    then c
    else remove (leaving number max_count) (add_value hash (to_string number) dump c)

-- The loop over the transactions.
unfoldable pub add_txs :
    Bytes → List TransactionInfo → Cache TransactionInfo → Cache TransactionInfo
add_txs attribute [] c = c
add_txs attribute (tx ∷ rest) c =
    let skipped = add_txs attribute rest c in
    let added = add_txs attribute rest (add_value tx.hash attribute tx c) in
    if is_int_status_node_test tx then skipped else if tx.is_save_to_bd then added else skipped

unfoldable pub add_block_txs :
    ℕ → ℕ → List TransactionInfo → Cache TransactionInfo → Cache TransactionInfo
add_block_txs number max_count txs c =
    if max_count == 0
    then c
    else remove (leaving number max_count) (add_txs (to_string number) txs c)

-- A round of `work`, on a block with its bytes. A block without a number throws.
unfoldable pub work_block : BlockInfo → Bytes → AllCaches → AllCaches
work_block bi dump caches = elim bi.header.block_number [
  | none ↦ caches
  | some number ↦ record caches {
    block_dump_cache =
        add_dump number caches.max_count_elements_block_cache bi.header.hash dump
          caches.block_dump_cache;
    txs_cache = add_block_txs number caches.max_count_elements_txs_cache bi.txs caches.txs_cache;
  }
]

-- The loop of `work`, over the blocks of the queue.
unfoldable pub work : List (BlockInfo × Bytes) → AllCaches → AllCaches
work [] caches = caches
work ((bi, dump) ∷ rest) caches = work rest (work_block bi dump caches)
