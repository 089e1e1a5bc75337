-- ===== src/BlockSource/Draining.antt =====
-- The calls of `NetworkBlockSource::process` one after the other, until it returns false: with
-- servers that serve every block they are all handed on, in order.
use node_infrastructure_torr.Prelude.{
  ℕ, zero, suc, ◌+◌, ◌-◌, ◌%◌, ◌^◌, min, ◌<◌, ◌≤◌, ◌≡◌, refl, ap, ◌∙◌, arith, true, false, Bytes,
  List, [], ◌∷◌, Option, none, some, inl, inr, ltb, ok, Option-cases, map,
}
use node_infrastructure_torr.BlockInfo.Records.{BlockInfo}
use node_infrastructure_torr.Batches.{numbers_from}
use node_infrastructure_torr.BlockSource.{
  Getter, Settings, AdvancedBlock, NetworkBlockSource, Processed, no_block, handed, thrown,
  dangling, find_block, count_advanced, count_advanced_blocks, hand_on, hand_on_loaded, verify_one,
  verify_blocks, load_one, load_blocks, load_more, process, LastBlockResponse, start, answer,
  do_process,
}
use node_infrastructure_torr.BlockSource.Handing.{Each, find_block-Each}

abbrev behind : Processed → Option (List (BlockInfo × Bytes)) → Option (List (BlockInfo × Bytes))
behind (handed bi dump) none = none
behind (handed bi dump) (some rest) = some ((bi, dump) ∷ rest)
behind no_block rest = some []
behind (thrown e) rest = none
behind dangling rest = none

module _ {ℓ} {W : Type ℓ} (settings : Settings) (getter : Getter W) where
  -- What `process` hands on until it returns false; nothing if it throws, or if it does not return
  -- false within `fuel` calls.
  unfoldable pub drain : ℕ → NetworkBlockSource → W → Option (List (BlockInfo × Bytes))
  drain zero s w = none
  drain (suc fuel) s w =
      let ((x, s'), w') = process settings getter s w in behind x (drain fuel s' w')

  module _ (expected : ℕ → AdvancedBlock) (first : ℕ) where
    -- The servers serve each block of the chain from `first` on, whatever was asked of them before.
    abbrev pub Serves : NetworkBlockSource → Type ℓ
    Serves s =
        (server : Bytes) × (others : List Bytes) × (s.servers ≡ server ∷ others)
        × ((k : ℕ) (w : W)
            → first ≤ k
            → k ≤ s.last_block_in_blockchain
            → verify_one settings
                (load_one settings getter s.last_block_in_blockchain server s.servers k w).0
              ≡ ok (expected k))

    abbrev IsExpected : ℕ → AdvancedBlock → Type 0
    IsExpected k a = a ≡ expected k

    -- A source that is at a block of the chain and has nothing else stored than such blocks.
    abbrev pub IsGood : NetworkBlockSource → Type 0
    IsGood s =
        (first ≤ s.next_block_to_read)
        × (s.last_block_in_blockchain + 1 < 2 ^ 64)
        × Each (λ k a. a ≡ expected k) s.advanced_blocks

    -- The block, handed on by a source with the blocks `blocks`.
    abbrev Handed : NetworkBlockSource → Processed × NetworkBlockSource → Type 0
    Handed s r =
        (blocks : List (ℕ × AdvancedBlock)) × (r ≡ (
          handed (expected s.next_block_to_read).bi (expected s.next_block_to_read).dump,
          record s { next_block_to_read = s.next_block_to_read + 1; advanced_blocks = blocks },
        ))
        × Each (λ k a. a ≡ expected k) blocks

    loads :
        (last : ℕ) (server : Bytes) (servers : List Bytes)
        → ((k : ℕ) (w : W)
            → first ≤ k
            → k ≤ last
            → verify_one settings (load_one settings getter last server servers k w).0
              ≡ ok (expected k))
        → (count curr : ℕ) (w : W) → first ≤ curr
        → curr + count ≤ last + 1
        → verify_blocks settings (load_blocks settings getter last server servers count curr w).0
          ≡ ok (map (λ k. (k, expected k)) (numbers_from curr count))
    unfolding load_blocks verify_blocks numbers_from
    loads last server servers h zero curr w f l = refl
    loads last server servers h (suc count) curr w f l =
        let one = load_one settings getter last server servers curr w in
        rw
          (
            h curr w f (omega arith),
            loads last server servers h count (curr + 1) one.1 (omega arith) (omega arith),
          )
          refl

    numbers-Each :
        (count curr : ℕ)
        → Each (λ k a. a ≡ expected k) (map (λ k. (k, expected k)) (numbers_from curr count))
    unfolding numbers_from
    numbers-Each zero curr = tt
    numbers-Each (suc count) curr = (refl, numbers-Each count (curr + 1))

    hand_on-Handed :
        (s : NetworkBlockSource) (blocks : List (ℕ × AdvancedBlock)) (a : AdvancedBlock)
        → a.exception ≡ none
        → a ≡ expected s.next_block_to_read
        → s.next_block_to_read + 1 < 2 ^ 64
        → Each (λ k a. a ≡ expected k) blocks
        → Handed s (hand_on a (record s { advanced_blocks = blocks }))
    unfolding hand_on
    hand_on-Handed s blocks a e q lt each =
        let small : (s.next_block_to_read + 1) % 2 ^ 64 ≡ s.next_block_to_read + 1 = omega arith in
        (blocks, rw (e, hand_on, small, q) refl, each)

    first_found :
        (n curr : ℕ)
        → find_block curr (map (λ k. (k, expected k)) (numbers_from curr (suc n)))
          ≡ some (expected curr)
    unfolding numbers_from find_block
    first_found n curr = ground arith

    loaded-Handed :
        (s : NetworkBlockSource) (count : ℕ)
        → 0 < count
        → (expected s.next_block_to_read).exception ≡ none
        → s.next_block_to_read + 1 < 2 ^ 64
        → Handed s (
            hand_on_loaded
              (ok (map (λ k. (k, expected k)) (numbers_from s.next_block_to_read count)))
              (record s { advanced_blocks = [] }))
    unfolding hand_on_loaded
    loaded-Handed s zero pos e lt = absurd (omega arith)
    loaded-Handed s (suc n) pos e lt =
        rw (first_found n s.next_block_to_read, hand_on_loaded)
          (hand_on-Handed s (map (λ k. (k, expected k)) (numbers_from s.next_block_to_read (suc n)))
            (expected s.next_block_to_read) e refl lt (numbers-Each (suc n) s.next_block_to_read))

    load_more-Handed :
        (server : Bytes) (others : List Bytes) (s : NetworkBlockSource) (w : W)
        → ((k : ℕ) (w : W)
            → first ≤ k
            → k ≤ s.last_block_in_blockchain
            → verify_one settings
                (load_one settings getter s.last_block_in_blockchain server s.servers k w).0
              ≡ ok (expected k))
        → first ≤ s.next_block_to_read
        → s.last_block_in_blockchain + 1 < 2 ^ 64
        → (expected s.next_block_to_read).exception ≡ none
        → s.next_block_to_read ≤ s.last_block_in_blockchain
        → Handed s (load_more settings getter (server ∷ others) s w).0
    unfolding load_more count_advanced
    load_more-Handed server others s w h f lt e le =
        let count =
          min count_advanced_blocks
            ((s.last_block_in_blockchain + 2 ^ 64 - s.next_block_to_read + 1) % 2 ^ 64) in
        rw
          (loads s.last_block_in_blockchain server s.servers h count s.next_block_to_read w f
            (omega arith))
          (loaded-Handed s count (omega arith) e (omega arith))

    process-Handed :
        (s : NetworkBlockSource) (w : W)
        → Serves s
        → IsGood s
        → (expected s.next_block_to_read).exception ≡ none
        → s.next_block_to_read ≤ s.last_block_in_blockchain
        → Handed s (process settings getter s w).0
    unfolding process
    process-Handed s w (server, others, q, h) (f, lt, each) e le =
        let more : ltb s.last_block_in_blockchain s.next_block_to_read ≡ false = ground arith in
        elim (Option-cases (find_block s.next_block_to_read s.advanced_blocks)) [
          | inl g ↦
              rw (more, g, ap (λ l. load_more settings getter l s w) q)
                (load_more-Handed server others s w h f lt e le)
          | inr (a, g) ↦
              let p = find_block-Each IsExpected s.next_block_to_read s.advanced_blocks each g in
              rw (more, g)
                (hand_on-Handed s s.advanced_blocks a (ap (λ b. b.exception) p ∙ e) p (omega arith)
                  each)
        ]

    drain_step :
        (fuel : ℕ) (s : NetworkBlockSource) (w : W) (t : Processed × NetworkBlockSource)
        → (process settings getter s w).0 ≡ t
        → drain (suc fuel) s w ≡ behind t.0 (drain fuel t.1 (process settings getter s w).1)
    unfolding drain
    drain_step fuel s w t h =
        ap (λ t. behind t.0 (drain fuel t.1 (process settings getter s w).1)) h

    drain_end :
        (s : NetworkBlockSource) (w : W)
        → s.next_block_to_read ≡ s.last_block_in_blockchain + 1
        → drain 1 s w ≡ some []
    unfolding drain process
    drain_end s w q =
        let no_more : ltb s.last_block_in_blockchain s.next_block_to_read ≡ true = ground arith in
        rw no_more refl

    drain_loop :
        (n : ℕ) (s : NetworkBlockSource) (w : W)
        → ((k : ℕ) → first ≤ k → k ≤ s.last_block_in_blockchain → (expected k).exception ≡ none)
        → Serves s
        → IsGood s
        → s.next_block_to_read + n ≡ s.last_block_in_blockchain + 1
        → drain (suc n) s w
          ≡ some (
              map (λ k. ((expected k).bi, (expected k).dump)) (numbers_from s.next_block_to_read n))
    unfolding numbers_from
    drain_loop zero s w e serves good q = drain_end s w (omega arith)
    drain_loop (suc n) s w e serves good q =
        let (blocks, h, each) =
          process-Handed s w serves good (e s.next_block_to_read good.0 (omega arith))
            (omega arith) in
        let rest =
          drain_loop n
            (record s { next_block_to_read = s.next_block_to_read + 1; advanced_blocks = blocks })
            (process settings getter s w).1 e serves (omega arith, good.1, each) (omega arith) in
        let a = expected s.next_block_to_read in
        drain_step (suc n) s w _ h ∙ ap (behind (handed a.bi a.dump)) rest

    -- Where `doProcess` is told a last block behind the last known one, whose number is below the
    -- largest `size_t`, and some servers, and these serve each block from the one behind the known
    -- ones to the last, verified and without an exception, whatever they were asked before: the
    -- calls of `process` that follow hand on these blocks, each once and in the order of their
    -- numbers, and the call behind them returns false.
    pub drain-all :
        (s : NetworkBlockSource) (w : W) (response : LastBlockResponse) (server : Bytes)
        (others : List Bytes)
        → (getter.get_last_block w).0 ≡ inr response
        → response.error ≡ none
        → response.servers ≡ server ∷ others
        → response.last_block + 1 < 2 ^ 64
        → 0 < first
        → first ≤ response.last_block
        → ((k : ℕ) (w' : W)
            → first ≤ k
            → k ≤ response.last_block
            → verify_one settings
                (load_one settings getter response.last_block server response.servers k w').0
              ≡ ok (expected k))
        → ((k : ℕ) → first ≤ k → k ≤ response.last_block → (expected k).exception ≡ none)
        → let ((r, s'), w') = do_process settings getter (first - 1) s w in
          drain (suc (response.last_block + 1 - first)) s' w'
          ≡ some (
              map
                (λ k. ((expected k).bi, (expected k).dump))
                (numbers_from first (response.last_block + 1 - first)))
    unfolding do_process answer start
    drain-all s w response server others told no_error some_servers lt pos le serves e =
        let number : (first - 1 + 1) % 2 ^ 64 ≡ first = omega arith in
        rw (told, answer, no_error, start, number)
          (drain_loop (response.last_block + 1 - first)
            (record s {
              next_block_to_read = first;
              last_block_in_blockchain = response.last_block;
              servers = response.servers;
              advanced_blocks = [];
            })
            (getter.clear_advanced (getter.get_last_block w).1) e
            (server, others, some_servers, serves) (omega arith, lt, tt) (omega arith))
