-- ===== src/LocalCache/Pages.antt =====
-- The pages that `getTransactions` of src/Cache/LocalCache.cpp cuts.
use node_infrastructure_torr.Prelude.{
  ℕ, zero, suc, ◌+◌, ◌-◌, ◌^◌, ◌≤◌, ◌<◌, ◌≡◌, refl, sym, ap, ◌∙◌, min, arith, List, [], ◌∷◌, ◌++◌,
  ok, fault, length, take, drop, length-drop, take_none, drop_none, take-take_add, drop-drop,
}
use node_infrastructure_torr.LocalCache.{full}
use node_infrastructure_torr.LocalCache.Infos.{sub_vector, get_transactions}

module _ {ℓ} {A : Type ℓ} where
  drop-min : (n : ℕ) (xs : List A) → drop (min n (length xs)) xs ≡ drop n xs
  drop-min zero xs = let e : min 0 (length xs) ≡ 0 = omega arith in rw e refl
  drop-min (suc n) [] = drop_none (min (suc n) 0)
  drop-min (suc n) (x ∷ xs) =
      let e : min (suc n) (suc (length xs)) ≡ suc (min n (length xs)) = omega arith in
      rw e (drop-min n xs)

  take-min : (n : ℕ) (xs : List A) → take (min n (length xs)) xs ≡ take n xs
  take-min zero xs = let e : min 0 (length xs) ≡ 0 = omega arith in rw e refl
  take-min (suc n) [] = take_none (min (suc n) 0)
  take-min (suc n) (x ∷ xs) =
      let e : min (suc n) (suc (length xs)) ≡ suc (min n (length xs)) = omega arith in
      rw e (ap (◌∷◌ x) (take-min n xs))

  -- Both ends cut at the length of the list.
  cut :
      (from count : ℕ) (xs : List A)
      → take
          (min (from + count) (length xs) - min from (length xs))
          (drop (min from (length xs)) xs)
        ≡ take count (drop from xs)
  cut from count xs =
      let e : min (from + count) (length xs) - min from (length xs)
          ≡ min count (length (drop from xs)) =
        omega (arith, length-drop from xs) in
      rw (drop-min from xs, e) (take-min count (drop from xs))

  -- `from + count` is below 2 ^ 64.
  page :
      (xs : List A) (from count : ℕ)
      → 0 < count
      → from + count < 2 ^ 64
      → get_transactions (full xs) from count ≡ ok (take count (drop from xs))
  unfolding get_transactions sub_vector
  page xs from count pos h = ground (arith, cut from count xs)

  -- A page and the one behind it are the page of both, where neither is empty and their end is
  -- below 2 ^ 64: `getTransactions` returns all three, whether or not the list is that long.
  pub get_transactions-pages :
      (xs : List A) (from count next : ℕ)
      → 0 < count
      → 0 < next
      → from + (count + next) < 2 ^ 64
      → (p q : List A) × (get_transactions (full xs) from count ≡ ok p)
        × (get_transactions (full xs) (from + count) next ≡ ok q)
        × (get_transactions (full xs) from (count + next) ≡ ok (p ++ q))
  get_transactions-pages xs from count next pos pos' h =
      let p = take count (drop from xs) in
      let q = take next (drop (from + count) xs) in
      (
        p,
        q,
        page xs from count pos (omega arith),
        page xs (from + count) next pos' (omega arith),
        page xs from (count + next) (omega arith) h
            ∙ ap ok (
                sym (take-take_add count next (drop from xs))
                ∙ ap (λ l. p ++ take next l) (drop-drop from count xs)),
      )

  -- Where `from + count` is 2 ^ 64 or more, it is taken modulo 2 ^ 64: a list of which something
  -- lies between the two ends is then read backwards, which is undefined.
  pub get_transactions_wraps :
      (xs : List A) (from count : ℕ)
      → from < 2 ^ 64
      → count < 2 ^ 64
      → 2 ^ 64 ≤ from + count
      → from + count - 2 ^ 64 < length xs
      → get_transactions (full xs) from count ≡ fault
  unfolding get_transactions sub_vector
  get_transactions_wraps xs from count f c h l = ground arith
