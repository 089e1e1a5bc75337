-- ===== src/WorkerCache/Window.antt =====
-- The blocks that the caches of `WorkerCache` keep: the last ones, as many as the limit says.
use node_infrastructure_torr.Prelude.{
  ℕ, suc, ◌+◌, ◌%◌, ◌^◌, ◌-◌, ◌≤◌, ◌<◌, ◌≡◌, ◌≢◌, refl, sym, ◌∙◌, ap, arith, inl, inr, Bool, true,
  false, Bytes, bytes_eq, bytes_eq_iff, List, [], ◌∷◌, some, ltb, ◌==◌, if◌then◌else◌, length,
  Bool-cases,
}
use node_infrastructure_torr.BlockInfo.Records.{TransactionInfo, BlockInfo}
use node_infrastructure_torr.BlockInfo.Transactions.{is_int_status_node_test}
use node_infrastructure_torr.Cache.{Cache, keys_of, add_value, remove}
use node_infrastructure_torr.Cache.Attributes.{
  IsListed, keys_of-add, keys_of-remove, add_value-IsListed, remove-IsListed,
}
use node_infrastructure_torr.WorkerCache.{
  AllCaches, to_string, leaving, add_dump, add_txs, add_block_txs, work_block, work,
}

module _ {ℓ} {V : Type ℓ} where
  -- The attributes that have keys are blocks from `max_count` before `low` on, up to `high`.
  abbrev Between : ℕ → ℕ → ℕ → Cache V → Type 0
  Between low high max_count c =
      (a : Bytes)
      → keys_of a c.attributes ≢ []
      → (m : ℕ) × (a ≡ to_string m) × (low < m + max_count) × (m ≤ high)

  -- Each value is listed under an attribute, and each attribute is one of the `max_count` blocks up
  -- to `number`, unless the cache is switched off.
  abbrev pub IsRecent : ℕ → ℕ → Cache V → Type ℓ
  IsRecent number max_count c =
      IsListed c
      × ((a : Bytes)
          → keys_of a c.attributes ≢ []
          → (m : ℕ) × (a ≡ to_string m) × (number < m + max_count) × (m ≤ number))

  -- While the block behind `number` is added.
  abbrev IsOpen : ℕ → ℕ → Cache V → Type ℓ
  IsOpen number max_count c = IsListed c × Between number (suc number) max_count c

  IsRecent-IsOpen :
      (number max_count : ℕ) (c : Cache V) → IsRecent number max_count c → IsOpen number max_count c
  IsRecent-IsOpen number max_count c (l, b) =
      (l, λ a h. let (m, e, lo, hi) = b a h in (m, e, lo, omega arith))

  IsOpen-if :
      (b : Bool) (number max_count : ℕ) (c c' : Cache V)
      → IsOpen number max_count c
      → IsOpen number max_count c'
      → IsOpen number max_count (if b then c else c')
  IsOpen-if true number max_count c c' o o' = o
  IsOpen-if false number max_count c c' o o' = o'

  add_value-IsOpen :
      (number max_count : ℕ) (key : Bytes) (value : V) (c : Cache V)
      → 0 < max_count
      → IsOpen number max_count c
      → IsOpen number max_count (add_value key (to_string (suc number)) value c)
  add_value-IsOpen number max_count key value c pos (l, b) = (
    add_value-IsListed key (to_string (suc number)) value c l,
    λ a h. elim (Bool-cases (bytes_eq (to_string (suc number)) a)) [
      | inl same ↦ (
        suc number,
        sym ((bytes_eq_iff (to_string (suc number)) a).0 same),
        omega arith,
        omega arith,
      )
      | inr other ↦ b a (λ e. h (keys_of-add key (to_string (suc number)) a value c ∙ rw other e))
    ],
  )

  remove-IsRecent :
      (number max_count : ℕ) (c : Cache V)
      → suc number < 2 ^ 64
      → max_count < 2 ^ 64
      → IsOpen number max_count c
      → IsRecent (suc number) max_count (remove (leaving (suc number) max_count) c)
  unfolding leaving
  remove-IsRecent number max_count c lt small (l, b) =
      let gone = leaving (suc number) max_count in
      (
        (remove-IsListed gone c l).0,
        λ a h. elim (Bool-cases (bytes_eq gone a)) [
          | inl same ↦ absurd (h (keys_of-remove gone a c ∙ rw same refl))
          | inr other ↦
              let (m, e, lo, hi) = b a (λ q. h (keys_of-remove gone a c ∙ rw other q)) in
              elim (Bool-cases (ltb (suc number) (m + max_count))) [
                | inl f ↦ (m, e, ground arith, hi)
                | inr f ↦
                    let last : (suc number + 2 ^ 64 - max_count) % 2 ^ 64 ≡ m = ground arith in
                    absurd (cc ((bytes_eq_iff gone a).1 (ap to_string last ∙ sym e), other))
              ]
        ],
      )

add_txs-IsOpen :
    (number max_count : ℕ) (txs : List TransactionInfo) (c : Cache TransactionInfo)
    → 0 < max_count
    → IsOpen number max_count c
    → IsOpen number max_count (add_txs (to_string (suc number)) txs c)
unfolding add_txs
add_txs-IsOpen number max_count [] c pos o = o
add_txs-IsOpen number max_count (tx ∷ rest) c pos o =
    let skipped = add_txs-IsOpen number max_count rest c pos o in
    let c' = add_value tx.hash (to_string (suc number)) tx c in
    let added =
      add_txs-IsOpen number max_count rest c' pos
        (add_value-IsOpen number max_count tx.hash tx c pos o) in
    IsOpen-if (is_int_status_node_test tx) number max_count _ _ skipped
      (IsOpen-if tx.is_save_to_bd number max_count _ _ added skipped)

-- A cache with a limit has only recent blocks; one without is not filled.
abbrev pub IsWindow {ℓ} : {V : Type ℓ} → ℕ → ℕ → Cache V → Type ℓ
IsWindow number max_count c = 0 < max_count → IsRecent number max_count c

abbrev pub AreWindows : ℕ → AllCaches → Type 0
AreWindows number caches =
    IsWindow number caches.max_count_elements_block_cache caches.block_dump_cache
    × IsWindow number caches.max_count_elements_txs_cache caches.txs_cache

add_dump-IsWindow :
    (number max_count : ℕ) (hash dump : Bytes) (c : Cache Bytes)
    → suc number < 2 ^ 64
    → max_count < 2 ^ 64
    → IsWindow number max_count c
    → IsWindow (suc number) max_count (add_dump (suc number) max_count hash dump c)
unfolding add_dump
add_dump-IsWindow number max_count hash dump c lt small w pos =
    let limited : (max_count == 0) ≡ false = ground arith in
    rw limited (
      remove-IsRecent number max_count _ lt small (
        add_value-IsOpen number max_count hash dump c pos
          (IsRecent-IsOpen number max_count c (w pos))))

add_block_txs-IsWindow :
    (number max_count : ℕ) (txs : List TransactionInfo) (c : Cache TransactionInfo)
    → suc number < 2 ^ 64
    → max_count < 2 ^ 64
    → IsWindow number max_count c
    → IsWindow (suc number) max_count (add_block_txs (suc number) max_count txs c)
unfolding add_block_txs
add_block_txs-IsWindow number max_count txs c lt small w pos =
    let limited : (max_count == 0) ≡ false = ground arith in
    rw limited (
      remove-IsRecent number max_count _ lt small
        (add_txs-IsOpen number max_count txs c pos (IsRecent-IsOpen number max_count c (w pos))))

-- Blocks with the numbers behind `number`, in order.
abbrev pub Follow : ℕ → List (BlockInfo × Bytes) → Type 0
Follow number [] = Unit
Follow number ((bi, dump) ∷ rest) =
    (bi.header.block_number ≡ some (suc number)) × Follow (suc number) rest

-- Where both caches have only the last blocks up to one, as many as their limit, and blocks with the
-- numbers behind it come in order, all below 2 ^ 64, both caches have only the last blocks up to the
-- last of these, as many as their limit: each value is listed under an attribute, and each attribute
-- with keys is such a block. A cache with the limit 0 is left out.
pub work-AreWindows :
    (blocks : List (BlockInfo × Bytes)) (number : ℕ) (caches : AllCaches)
    → AreWindows number caches
    → caches.max_count_elements_block_cache < 2 ^ 64
    → caches.max_count_elements_txs_cache < 2 ^ 64
    → Follow number blocks
    → number + length blocks < 2 ^ 64
    → AreWindows (number + length blocks) (work blocks caches)
unfolding work work_block
work-AreWindows [] number caches w l m f lt =
    let same : number + 0 ≡ number = omega arith in rw same w
work-AreWindows ((bi, dump) ∷ rest) number caches (w, w') l m (e, f) lt =
    let next =
      add_dump-IsWindow number _ bi.header.hash dump caches.block_dump_cache (omega arith) l w in
    let next' = add_block_txs-IsWindow number _ bi.txs caches.txs_cache (omega arith) m w' in
    let last : number + suc (length rest) ≡ suc number + length rest = omega arith in
    rw (e, last) (work-AreWindows rest (suc number) _ (next, next') l m f (omega arith))
