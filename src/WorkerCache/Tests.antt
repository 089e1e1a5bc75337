-- ===== src/WorkerCache/Tests.antt =====
-- Runs of the worker, with room for two blocks.
use node_infrastructure_torr.Prelude.{
  ℕ, ◌+◌, ◌≡◌, refl, arith, Bytes, codes, List, [], ◌∷◌, some, find, length,
}
use node_infrastructure_torr.BlockInfo.Records.{BlockInfo}
use node_infrastructure_torr.BlockChain.{new_header}
use node_infrastructure_torr.Cache.{empty_cache}
use node_infrastructure_torr.WorkerCache.{AllCaches, to_string, digits_before, work}
use node_infrastructure_torr.WorkerCache.Window.{AreWindows, work-AreWindows}

abbrev block : Bytes → ℕ → BlockInfo
block hash number = record {
  header = record new_header { hash = hash; block_number = some number };
  txs = [];
}

abbrev blocks : List (BlockInfo × Bytes)
blocks =
    (block (codes "a") 8, codes "first")
    ∷ (block (codes "b") 9, codes "second")
    ∷ (block (codes "c") 10, codes "third")
    ∷ []

abbrev empty_caches : AllCaches
empty_caches = record {
  max_count_elements_block_cache = 2;
  max_count_elements_txs_cache = 0;
  block_dump_cache = empty_cache;
  txs_cache = empty_cache;
}

empty-AreWindows : AreWindows 7 empty_caches
unfolding find
empty-AreWindows =
    ((λ pos. ((λ k v h. absurd (cc h)), λ a h. absurd (h refl))), (λ pos. absurd (omega arith)))

work-AreWindows_example : AreWindows (7 + length blocks) (work blocks empty_caches)
work-AreWindows_example =
    work-AreWindows blocks 7 empty_caches empty-AreWindows (omega arith) (omega arith)
      (refl, (refl, (refl, tt))) (omega arith)

ten : to_string 10 ≡ codes "10"
unfolding to_string digits_before
ten = refl
