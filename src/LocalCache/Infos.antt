-- ===== src/LocalCache/Infos.antt =====
-- `LocalCacheTxs` and `LocalCacheTxsStatus` of src/Cache/LocalCache.cpp. The source has each method
-- twice, once for `TransactionInfo` and once for `TransactionStatus`, in the same words; only
-- `setTransactions` turns a list round.
use mathlib.Core.List.{reverse}
use node_infrastructure_torr.Prelude.{
  ℕ, ◌+◌, ◌^◌, ◌%◌, ◌-◌, min, Bool, List, [], ◌∷◌, ◌++◌, none, some, ltb, leb, ◌==◌, if◌then◌else◌,
  Result, ok, err, fault, ◌>>=◌, Bytes, find, assign, length, take, drop, out_of_range,
  incorrect_type,
}
use node_infrastructure_torr.BlockInfo.Transactions.{back, get_max_block_number}
use node_infrastructure_torr.LocalCache.{
  Value, max_number, full, LocalCacheInternal, next_num, add_cached,
}

module _ {ℓ} {A : Type ℓ} (number : A → ℕ) where
  -- The list that `setTransactions` hands to `addElement`: newest first.
  unfoldable pub newest_first : List A → List A
  newest_first [] = []
  newest_first (first ∷ rest) =
      if leb (number (back first rest)) (number first) then first ∷ rest else reverse (first ∷ rest)

  unfoldable pub set_transactions :
      Bytes → List A → Bool → LocalCacheInternal A → Result (LocalCacheInternal A)
  unfolding newest_first
  set_transactions address transactions is_sync_blockchain_thread_updated c =
      add_cached number address (newest_first transactions) is_sync_blockchain_thread_updated c

  unfoldable pub set_statuses :
      Bytes → List A → Bool → LocalCacheInternal A → Result (LocalCacheInternal A)
  set_statuses address transactions is_sync_blockchain_thread_updated c =
      add_cached number address transactions is_sync_blockchain_thread_updated c

  unfoldable pub add_to_value : List A → Value A → Value A
  add_to_value transactions (max_number n) = max_number (get_max_block_number number transactions)
  add_to_value transactions (full txs) = full (transactions ++ txs)

  -- addTransactions, addStatuses
  unfoldable pub add_infos : Bytes → List A → LocalCacheInternal A → LocalCacheInternal A
  unfolding add_to_value
  add_infos address transactions c = elim (find address c.cache) [
    | none ↦ c
    | some e ↦ record c {
      cache = assign address (record e { value = add_to_value transactions e.value }) c.cache;
    }
  ]

  -- The loop over `iter`, and the removal of what it passed.
  unfoldable pub skip_block : ℕ → List A → List A
  skip_block block_num [] = []
  skip_block block_num (t ∷ rest) =
      let later = skip_block block_num rest in if number t == block_num then later else t ∷ rest

  -- `iter->blockNumber` of an empty vector is undefined.
  unfoldable pub remove_last_of_value : Value A → Result (Value A)
  unfolding skip_block
  remove_last_of_value (max_number n) = ok (max_number n)
  remove_last_of_value (full []) = fault
  remove_last_of_value (full (t ∷ rest)) = ok (full (skip_block (number t) (t ∷ rest)))

  -- removeLastTransactions, removeLastStatuses. `cache.at` throws where the address is not there.
  unfoldable pub remove_last_infos : Bytes → LocalCacheInternal A → Result (LocalCacheInternal A)
  unfolding remove_last_of_value
  remove_last_infos address c = elim (find address c.cache) [
    | none ↦ err out_of_range
    | some e ↦ do
      value ← remove_last_of_value e.value
      ok (record c {
        cache =
            assign address
              (record e { value = value; block_unkles_or_new_num = next_num c.last_block_num })
              c.cache;
      })
  ]

-- The vector of the iterators res.begin() + from and res.begin() + to. A range that ends before it
-- begins is undefined.
unfoldable pub sub_vector {ℓ} : {A : Type ℓ} → ℕ → ℕ → List A → Result (List A)
sub_vector from to res = if ltb to from then fault else ok (take (to - from) (drop from res))

-- `from + count` is a `size_t`.
unfoldable pub get_transactions {ℓ} : {A : Type ℓ} → Value A → ℕ → ℕ → Result (List A)
unfolding sub_vector
get_transactions (max_number n) from count = err incorrect_type
get_transactions (full res) from count =
    if count == 0
    then ok res
    else sub_vector (min from (length res)) (min ((from + count) % 2 ^ 64) (length res)) res

pub get_statuses {ℓ} : {A : Type ℓ} → Value A → Result (List A)
get_statuses (max_number n) = err incorrect_type
get_statuses (full res) = ok res
