-- ===== src/BlockSource/Handing.antt =====
-- What `NetworkBlockSource::process` of src/BlockSource/NetworkBlockSource.cpp hands on: the block
-- with the next number, or nothing.
use node_infrastructure_torr.Prelude.{
  ℕ, zero, suc, ◌+◌, ◌%◌, ◌^◌, ◌<◌, ◌≤◌, ◌≡◌, refl, sym, arith, Bytes, List, [], ◌∷◌, none, some,
  ◌⊎◌, inl, inr, ltb, ◌==◌, Result, ok, err, fault, ◌>>=◌, Error, All, Bool-cases, Option-cases,
  chain_ok,
}
use node_infrastructure_torr.BlockSource.{
  Getter, LastBlockResponse, Settings, AdvancedBlock, NetworkBlockSource, Processed, no_block,
  handed, thrown, dangling, find_block, count_advanced, hand_on, hand_on_loaded, verify_one,
  verify_blocks, load_one, load_blocks, load_more, process, start, answer, do_process,
}

-- Each number with its block.
abbrev pub Each {κ} : (ℕ → AdvancedBlock → Type κ) → List (ℕ × AdvancedBlock) → Type κ
Each P l = All (λ e. P e.0 e.1) l

pub find_block-Each {κ} :
    (P : ℕ → AdvancedBlock → Type κ) (n : ℕ) (l : List (ℕ × AdvancedBlock)) {a : AdvancedBlock}
    → Each P l
    → find_block n l ≡ some a
    → P n a
unfolding find_block
find_block-Each P n [] h e = absurd (cc e)
find_block-Each P n ((m, b) ∷ rest) {a} (p, h) e = elim (Bool-cases (m == n)) [
  | inl same ↦
      let number : m ≡ n = ground arith in
      let block : b ≡ a = ground (arith, e, same) in rw (sym number, sym block) p
  | inr other ↦ find_block-Each P n rest h (ground (arith, e, other))
]

module _ {ℓ} {W : Type ℓ} (settings : Settings) (getter : Getter W) where
  verify_blocks-Each {κ} :
      (P : ℕ → AdvancedBlock → Type κ) (last : ℕ) (server : Bytes) (servers : List Bytes)
      → ((k : ℕ) (w : W) (a : AdvancedBlock)
          → verify_one settings (load_one settings getter last server servers k w).0 ≡ ok a
          → P k a)
      → (count curr : ℕ) (w : W) {l : List (ℕ × AdvancedBlock)}
      → verify_blocks settings (load_blocks settings getter last server servers count curr w).0
        ≡ ok l
      → Each P l
  unfolding load_blocks verify_blocks
  verify_blocks-Each P last server servers h zero curr w {l} e =
      let q : [] ≡ l = cc e in rw (sym q) tt
  verify_blocks-Each P last server servers h (suc count) curr w {l} e =
      let one = load_one settings getter last server servers curr w in
      let rest = load_blocks settings getter last server servers count (curr + 1) one.1 in
      let (a, f, g) =
        chain_ok (verify_one settings one.0)
          (λ a. verify_blocks settings rest.0 >>= λ later. ok ((curr, a) ∷ later)) e in
      let (later, f', g') =
        chain_ok (verify_blocks settings rest.0) (λ later. ok ((curr, a) ∷ later)) g in
      let q : (curr, a) ∷ later ≡ l = cc g' in
      rw (sym q)
        (h curr w a f, verify_blocks-Each P last server servers h count (curr + 1) one.1 f')

  -- How `process` ends, of the source before it and behind it.
  abbrev Nothing : NetworkBlockSource → Processed → NetworkBlockSource → Type 0
  Nothing s x s' = (x ≡ no_block) × (s.last_block_in_blockchain < s.next_block_to_read) × (s' ≡ s)

  abbrev Hands {κ} :
      (ℕ → AdvancedBlock → Type κ) → NetworkBlockSource → Processed → NetworkBlockSource → Type κ
  Hands P s x s' =
      (a : AdvancedBlock) × (x ≡ handed a.bi a.dump)
      × P s.next_block_to_read a
      × (a.exception ≡ none)
      × (s.next_block_to_read ≤ s.last_block_in_blockchain)
      × (s'.next_block_to_read ≡ (s.next_block_to_read + 1) % 2 ^ 64)

  abbrev Refuses : NetworkBlockSource → Processed → NetworkBlockSource → Type 0
  Refuses s x s' =
      (((e : Error) × (x ≡ thrown e)) ⊎ (x ≡ dangling))
      × (s'.next_block_to_read ≡ s.next_block_to_read)

  abbrev pub Ends {κ} :
      (ℕ → AdvancedBlock → Type κ) → NetworkBlockSource → Processed × NetworkBlockSource → Type κ
  Ends P s r =
      Each P r.1.advanced_blocks
      × (r.1.last_block_in_blockchain ≡ s.last_block_in_blockchain)
      × (r.1.servers ≡ s.servers)
      × (Nothing s r.0 r.1 ⊎ (Hands P s r.0 r.1 ⊎ Refuses s r.0 r.1))

  hand_on-Ends {κ} :
      (P : ℕ → AdvancedBlock → Type κ) (a : AdvancedBlock) (s : NetworkBlockSource)
      → s.next_block_to_read ≤ s.last_block_in_blockchain
      → Each P s.advanced_blocks
      → P s.next_block_to_read a
      → Ends P s (hand_on a s)
  unfolding hand_on
  hand_on-Ends P a s le each p = elim (Option-cases a.exception) [
    | inl e ↦ rw (e, hand_on) (each, refl, refl, inr (inl (a, refl, p, e, le, refl)))
    | inr (x, e) ↦ rw (e, hand_on) (each, refl, refl, inr (inr (inl (x, refl), refl)))
  ]

  -- The stored blocks do not matter to how `process` ends, where a block is to be read.
  restart {κ} :
      (P : ℕ → AdvancedBlock → Type κ) (s : NetworkBlockSource) (blocks : List (ℕ × AdvancedBlock))
      (r : Processed × NetworkBlockSource)
      → s.next_block_to_read ≤ s.last_block_in_blockchain
      → Ends P (record s { advanced_blocks = blocks }) r
      → Ends P s r
  restart P s blocks r le (each, l, v, inl (x, lt, q)) = absurd (omega arith)
  restart P s blocks r le (each, l, v, inr h) = (each, l, v, inr h)

  loaded-Ends {κ} :
      (P : ℕ → AdvancedBlock → Type κ) (r : Result (List (ℕ × AdvancedBlock)))
      (s : NetworkBlockSource)
      → s.next_block_to_read ≤ s.last_block_in_blockchain
      → Each P s.advanced_blocks
      → ((l : List (ℕ × AdvancedBlock)) → r ≡ ok l → Each P l)
      → Ends P s (hand_on_loaded r s)
  unfolding hand_on_loaded
  loaded-Ends P fault s le each h = (each, refl, refl, inr (inr (inr refl, refl)))
  loaded-Ends P (err e) s le each h = (each, refl, refl, inr (inr (inl (e, refl), refl)))
  loaded-Ends P (ok l) s le each h = elim (Option-cases (find_block s.next_block_to_read l)) [
    | inl e ↦ rw (e, hand_on_loaded) (h l refl, refl, refl, inr (inr (inl (_, refl), refl)))
    | inr (a, e) ↦
        rw (e, hand_on_loaded)
          (restart P s l _ le (
            hand_on-Ends P a (record s { advanced_blocks = l }) le (h l refl)
              (find_block-Each P s.next_block_to_read l (h l refl) e)))
  ]

  -- What the blocks that `process` loads have.
  abbrev pub Provides {κ} : (ℕ → AdvancedBlock → Type κ) → NetworkBlockSource → Type (ℓ ⊔ κ)
  Provides P s =
      (server : Bytes) (others : List Bytes) (k : ℕ) (w : W) (a : AdvancedBlock)
      → s.servers ≡ server ∷ others
      → verify_one settings
          (load_one settings getter s.last_block_in_blockchain server s.servers k w).0
        ≡ ok a
      → P k a

  load_more-Ends {κ} :
      (P : ℕ → AdvancedBlock → Type κ) (servers : List Bytes) (s : NetworkBlockSource) (w : W)
      → s.servers ≡ servers
      → Provides P s
      → s.next_block_to_read ≤ s.last_block_in_blockchain
      → Ends P s (load_more settings getter servers s w).0
  unfolding load_more
  load_more-Ends P [] s w e h le = (tt, refl, refl, inr (inr (inl (_, refl), refl)))
  load_more-Ends P (server ∷ others) s w e h le = restart P s [] _ le (
      loaded-Ends P _ (record s { advanced_blocks = [] }) le tt
        λ l f.
          verify_blocks-Each P s.last_block_in_blockchain server s.servers
            (λ k w' a g. h server others k w' a e g) (count_advanced s) s.next_block_to_read w f)

  pub process-Ends {κ} :
      (P : ℕ → AdvancedBlock → Type κ) (s : NetworkBlockSource) (w : W)
      → Provides P s
      → Each P s.advanced_blocks
      → Ends P s (process settings getter s w).0
  unfolding process
  process-Ends P s w h each =
      elim (Bool-cases (ltb s.last_block_in_blockchain s.next_block_to_read)) [
        | inl e ↦ rw e (each, refl, refl, inl (refl, ground arith, refl))
        | inr e ↦
            let le : s.next_block_to_read ≤ s.last_block_in_blockchain = ground arith in
            elim (Option-cases (find_block s.next_block_to_read s.advanced_blocks)) [
              | inl f ↦ rw (e, f) (load_more-Ends P s.servers s w refl h le)
              | inr (a, f) ↦
                  rw (e, f)
                    (hand_on-Ends P a s le each
                      (find_block-Each P s.next_block_to_read s.advanced_blocks each f))
            ]
      ]

  -- The block was loaded from the servers of the source for the number, and verified.
  abbrev pub Loaded : NetworkBlockSource → ℕ → AdvancedBlock → Type ℓ
  Loaded s k a =
      (server : Bytes) × (others : List Bytes) × (w : W) × (s.servers ≡ server ∷ others)
      × (verify_one settings
            (load_one settings getter s.last_block_in_blockchain server s.servers k w).0
          ≡ ok a)

  start-Loaded :
      (response : LastBlockResponse) (s : NetworkBlockSource) (w : W)
      → Each (Loaded s) s.advanced_blocks
      → let s' = (start settings getter response s w).0.1 in Each (Loaded s') s'.advanced_blocks
  unfolding start
  start-Loaded response s w each = elim (Option-cases response.error) [
    | inl e ↦ rw (e, start) tt
    | inr (x, e) ↦ rw (e, start) each
  ]

  answer-Loaded :
      (r : Error ⊎ LastBlockResponse) (s : NetworkBlockSource) (w : W)
      → Each (Loaded s) s.advanced_blocks
      → let s' = (answer settings getter r s w).0.1 in Each (Loaded s') s'.advanced_blocks
  unfolding answer
  answer-Loaded (inl e) s w each = each
  answer-Loaded (inr response) s w each = start-Loaded response s w each

  -- On a source each of whose stored blocks was loaded for its number and verified, `process`
  -- either returns false and changes nothing, since the next number is behind the last block; or
  -- hands on the block and bytes that were loaded for the next number and verified without an
  -- exception, and goes on to the number behind it, modulo 2 ^ 64; or throws, or is undefined, and
  -- stays at the number. In each case the stored blocks are so again, and behind `doProcess` they
  -- are too.
  pub process_cases :
      (s : NetworkBlockSource) (w : W)
      → Each (Loaded s) s.advanced_blocks
      → Ends (Loaded s) s (process settings getter s w).0
        × ((count_blocks : ℕ)
            → let s' = (do_process settings getter count_blocks s w).0.1 in
              Each (Loaded s') s'.advanced_blocks)
  unfolding do_process
  process_cases s w each = (
    process-Ends (Loaded s) s w (λ server others k w' a e f. (server, others, w', e, f)) each,
    λ count_blocks.
        answer-Loaded _ (record s { next_block_to_read = (count_blocks + 1) % 2 ^ 64 }) _ each,
  )
