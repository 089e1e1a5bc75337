-- ===== src/Heap/Reduce.antt =====
-- `reduceToMax` of src/utils/Heap.cpp: how many keys it leaves, and which.
use mathlib.Core.Path.{subst}
use node_infrastructure_torr.Prelude.{
  ℕ, ◌≤◌, ◌<◌, ◌≡◌, refl, min, inl, inr, arith, Bool, false, ◌&&◌, ◌||◌, List, [], ◌∷◌, ◌++◌,
  append_assoc, append-nil, none, some, ltb, ltb→lt, ◌==◌, if◌then◌else◌, ok, Bytes, bytes_eq,
  bytes_eq_iff, Map, find, erase, find-erase, All, All-map, length, Bool-cases, erase-IsDistinct,
  length-erase,
}
use node_infrastructure_torr.Heap.{Heap, reduce_loop, reduce_to_max}
use node_infrastructure_torr.Heap.Order.{entry_count}
use node_infrastructure_torr.Heap.Synced.{IsSynced}

abbrev pub among : Bytes → List Bytes → Bool
among k [] = false
among k (j ∷ rest) = bytes_eq j k || among k rest

-- The keys were removed, and each was no newer than any that stays.
pub record IsReduced (new_size : ℕ) (keys : Map ℕ) (removed : List Bytes) (h : Heap) : Type 0 where
  pub synced : IsSynced h
  pub sized : length h.keys ≡ min new_size (length keys)
  pub found : (k : Bytes) → find k h.keys ≡ (if among k removed then none else find k keys)
  pub oldest :
      All
        (λ r.
          (t : ℕ) × (find r keys ≡ some t) × ((k : Bytes) (u : ℕ) → find k h.keys ≡ some u → t ≤ u))
        removed

All-counted :
    (P : ℕ × Bytes → Type 0) (v : ℕ) (k : Bytes) (l : List (ℕ × Bytes))
    → All P l
    → 0 < entry_count v k l
    → P (v, k)
All-counted P v k [] a h = absurd (omega arith)
All-counted P v k ((w, j) ∷ rest) (p, a) h = elim (Bool-cases (w == v && bytes_eq j k)) [
  | inl e ↦ let same : (w, j) ≡ (v, k) = ground (arith, bytes_eq_iff j k) in subst P same p
  | inr e ↦ let g = rw e at h in All-counted P v k rest a (omega arith)
]

module _ (new_size v : ℕ) (k : Bytes) (keys : Map ℕ) (rest : List (ℕ × Bytes))
    (s : IsSynced (record { keys = keys; heap = (v, k) ∷ rest })) where
  find_first : find k keys ≡ some v
  find_first = ground (arith, s.counted v k, bytes_eq_iff k k)

  erase-IsSynced : IsSynced (record { keys = erase k keys; heap = rest })
  erase-IsSynced = record {
    distinct = erase-IsDistinct k keys s.distinct;
    counted =
        λ w j. ground (arith, s.counted w j, find-erase k j keys, find_first, bytes_eq_iff k j);
    sized = omega (arith, s.sized, length-erase k keys s.distinct find_first);
    ordered = s.ordered.1;
  }

  -- The first entry is no newer than a key that stays.
  first_oldest :
      (removed : List Bytes) (h : Heap)
      → IsReduced new_size (erase k keys) removed h
      → (j : Bytes) (u : ℕ) → find j h.keys ≡ some u
      → v ≤ u
  first_oldest removed h r j u e =
      let stays : 0 < entry_count u j rest =
        ground (arith, erase-IsSynced.counted u j, r.found j) in
      All-counted (λ f. v ≤ f.0) u j rest s.ordered.0 stays

  first_removed :
      (removed : List Bytes) (h : Heap)
      → new_size < length keys
      → IsReduced new_size (erase k keys) removed h
      → IsReduced new_size keys (k ∷ removed) h
  first_removed removed h lt r = record {
    synced = r.synced;
    sized = omega (arith, r.sized, length-erase k keys s.distinct find_first);
    found = λ j. ground (arith, r.found j, find-erase k j keys);
    oldest = (
      (v, find_first, first_oldest removed h r),
      All-map removed (λ j p. (p.0, ground (arith, p.1, find-erase k j keys), p.2)) r.oldest,
    );
  }

abbrev ReducesTo : ℕ → List Bytes → Map ℕ → List (ℕ × Bytes) → Type 0
ReducesTo new_size result keys l =
    (removed : List Bytes) × (h : Heap) × (reduce_loop new_size result keys l
      ≡ ok (result ++ removed, h))
    × IsReduced new_size keys removed h

reduce_loop_lem :
    (new_size : ℕ) (result : List Bytes) (keys : Map ℕ) (l : List (ℕ × Bytes))
    → IsSynced (record { keys = keys; heap = l })
    → ReducesTo new_size result keys l
unfolding reduce_loop
reduce_loop_lem new_size result keys [] s = (
  [],
  record { keys = keys; heap = [] },
  ground (arith, s.sized, append-nil result),
  record { synced = s; sized = omega (arith, s.sized); found = λ k. refl; oldest = tt },
)
reduce_loop_lem new_size result keys ((v, k) ∷ rest) s =
    elim (Bool-cases (ltb new_size (length keys))) [
      | inl more ↦
          let synced = erase-IsSynced new_size v k keys rest s in
          let (removed, h, e, r) =
            reduce_loop_lem new_size (result ++ (k ∷ [])) (erase k keys) rest synced in
          (
            k ∷ removed,
            h,
            rw (more, e, append_assoc result (k ∷ []) removed) refl,
            first_removed new_size v k keys rest s removed h (ltb→lt new_size (length keys) more) r,
          )
      | inr done ↦ (
        [],
        record { keys = keys; heap = (v, k) ∷ rest },
        rw (done, append-nil result) refl,
        record { synced = s; sized = ground arith; found = λ j. refl; oldest = tt },
      )
    ]

-- On a heap whose two containers hold the same entries, `reduceToMax` to a size that is not 0 comes
-- to its end and returns keys. Behind it the heap has as many keys as it had, and `newSize` at most.
-- Exactly the returned keys are gone, the others have the times they had, the time of each returned
-- key is no later than that of any key that stays, and the two containers hold the same entries
-- again.
pub reduce_to_max-IsReduced :
    (new_size : ℕ) (h : Heap)
    → 0 < new_size
    → IsSynced h
    → (removed : List Bytes) × (h' : Heap) × (reduce_to_max new_size h ≡ ok (removed, h'))
      × IsReduced new_size h.keys removed h'
unfolding reduce_to_max
reduce_to_max-IsReduced new_size h pos s =
    let (removed, h', e, r) = reduce_loop_lem new_size [] h.keys h.heap s in
    (removed, h', ground (arith, e), r)
