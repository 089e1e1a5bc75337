-- ===== src/LocalCache/Runs.antt =====
-- The calls of the cache in src/Cache/LocalCache.cpp one after the other: what each of them comes
-- to, and the invariant behind every sequence of them.
use node_infrastructure_torr.Prelude.{
  ℕ, ◌≡◌, refl, ◌⊎◌, inl, inr, arith, Bool, List, [], ◌∷◌, none, some, Result, ok, err, fault,
  ◌>>=◌, out_of_range, Bytes, find, assign, Option-cases,
}
use node_infrastructure_torr.LocalCache.{
  Value, max_number, full, LocalCacheElement, LocalCacheInternal, next_num, set_last_block_num,
  get_value_if_exist, add_if_no_exist,
}
use node_infrastructure_torr.LocalCache.Infos.{
  newest_first, set_transactions, set_statuses, add_to_value, add_infos, remove_last_of_value,
  remove_last_infos, skip_block,
}
use node_infrastructure_torr.LocalCache.Valid.{
  IsValid, change-IsValid, set_last_block_num-IsValid, get_value_if_exist-IsValid,
  add_cached-IsValid, add_if_no_exist-IsValid,
}

-- The methods that change the cache, with their arguments. `read_value` has the time of the call.
pub data Call {ℓ} (A : Type ℓ) : Type ℓ where
  put_transactions : Bytes → List A → Bool → Call A
  put_statuses : Bytes → List A → Bool → Call A
  put_if_no_exist : Bytes → (Bytes → List A) → Bool → Bool → Call A
  put_last_block : ℕ → Call A
  prepend_infos : Bytes → List A → Call A
  drop_last_infos : Bytes → Call A
  read_value : Bytes → ℕ → Call A

module _ {ℓ} {A : Type ℓ} (number : A → ℕ) where
  unfoldable pub run_call : Call A → LocalCacheInternal A → Result (LocalCacheInternal A)
  run_call (put_transactions a l s) c = set_transactions number a l s c
  run_call (put_statuses a l s) c = set_statuses number a l s c
  run_call (put_if_no_exist a g s i) c = ok (add_if_no_exist number a g s i c)
  run_call (put_last_block n) c = ok (set_last_block_num n c)
  run_call (prepend_infos a l) c = ok (add_infos number a l c)
  run_call (drop_last_infos a) c = remove_last_infos number a c
  run_call (read_value a now) c = do (_, c') ← get_value_if_exist a now c; ok c'

  -- The removal finds no element, and throws, or it finds one with no infos, and reads behind them.
  abbrev pub CannotDrop : Bytes → LocalCacheInternal A → Type ℓ
  CannotDrop a c =
      ((find a c.cache ≡ none) × (run_call (drop_last_infos a) c ≡ err out_of_range))
      ⊎ ((e : LocalCacheElement A) × (find a c.cache ≡ some e)
          × (e.value ≡ full [])
          × (run_call (drop_last_infos a) c ≡ fault))

  abbrev Goes : Call A → LocalCacheInternal A → Type ℓ
  Goes call c = (c' : LocalCacheInternal A) × (run_call call c ≡ ok c') × IsValid c'

  add_infos-IsValid :
      (a : Bytes) (l : List A) (c : LocalCacheInternal A)
      → IsValid c
      → IsValid (add_infos number a l c)
  unfolding add_infos
  add_infos-IsValid a l c v = elim (Option-cases (find a c.cache)) [
    | inl e ↦ rw (e, add_infos) v
    | inr (old, e) ↦
        rw (e, add_infos)
          (change-IsValid a (record old { value = add_to_value number l old.value }) c v old e refl)
  ]

  removal :
      (o : Value A)
      → ((o ≡ full []) × (remove_last_of_value number o ≡ fault))
        ⊎ ((w : Value A) × (remove_last_of_value number o ≡ ok w))
  unfolding remove_last_of_value
  removal (max_number n) = inr (max_number n, refl)
  removal (full []) = inl (refl, refl)
  removal (full (t ∷ rest)) = inr (full (skip_block number (number t) (t ∷ rest)), refl)

  drop_cases :
      (a : Bytes) (c : LocalCacheInternal A)
      → IsValid c
      → Goes (drop_last_infos a) c ⊎ CannotDrop a c
  unfolding run_call remove_last_infos
  drop_cases a c v = elim (Option-cases (find a c.cache)) [
    | inl e ↦ inr (inl (e, ground arith))
    | inr (old, e) ↦ elim (removal old.value) [
      | inl (f, g) ↦ inr (inr (old, e, f, ground (arith, e, g)))
      | inr (w, g) ↦
          let new = record old { value = w; block_unkles_or_new_num = next_num c.last_block_num } in
          inl (
            record c { cache = assign a new c.cache },
            ground (arith, e, g),
            change-IsValid a new c v old e refl,
          )
    ]
  ]

  -- On a cache that is valid (its set of addresses not synced is that of the elements so flagged,
  -- and its heap is in order and knows only of addresses in the cache) each call returns and leaves
  -- the cache valid, except the removal of the last block where the address is not there, which
  -- throws, or has an empty list, which reads outside of it.
  pub run_call-IsValid :
      (call : Call A) (c : LocalCacheInternal A)
      → IsValid c
      → ((c' : LocalCacheInternal A) × (run_call call c ≡ ok c') × IsValid c')
        ⊎ ((a : Bytes) × (call ≡ drop_last_infos a) × CannotDrop a c)
  unfolding run_call set_transactions set_statuses
  run_call-IsValid (put_transactions a l s) c v =
      inl (add_cached-IsValid number a (newest_first number l) s c v)
  run_call-IsValid (put_statuses a l s) c v = inl (add_cached-IsValid number a l s c v)
  run_call-IsValid (put_if_no_exist a g s i) c v =
      inl (add_if_no_exist number a g s i c, refl, add_if_no_exist-IsValid number a g s i c v)
  run_call-IsValid (put_last_block n) c v =
      inl (set_last_block_num n c, refl, set_last_block_num-IsValid n c v)
  run_call-IsValid (prepend_infos a l) c v =
      inl (add_infos number a l c, refl, add_infos-IsValid a l c v)
  run_call-IsValid (drop_last_infos a) c v = elim (drop_cases a c v) [
    | inl g ↦ inl g
    | inr g ↦ inr (a, refl, g)
  ]
  run_call-IsValid (read_value a now) c v =
      let (r, heap, e, w) = get_value_if_exist-IsValid a now c v in
      inl (record c { heap = heap }, rw (e, ◌>>=◌) refl, w)
