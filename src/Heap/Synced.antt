-- ===== src/Heap/Synced.antt =====
-- The two containers of src/utils/Heap.h hold the same entries: the map from keys to times, and the
-- multimap from times to keys.
use node_infrastructure_torr.Prelude.{
  ℕ, ◌≡◌, refl, inl, inr, arith, suc, List, Option, none, some, ◌==◌, if◌then◌else◌, ok, Bytes,
  bytes_eq, bytes_eq_iff, Map, find, assign, find-assign, length, Option-cases, IsDistinct,
  assign-IsDistinct, length-assign_new, length-assign_old,
}
use node_infrastructure_torr.Heap.{Heap, empty_heap, erase_entry, put_entry, add_element}
use node_infrastructure_torr.Heap.Order.{
  IsOrdered, one_if, entry_count, count-insert, length-insert, insert-IsOrdered, count-erase,
  erase-some, length-erase_entry, erase-IsOrdered,
}

abbrev pub holds : ℕ → Option ℕ → ℕ
holds v none = 0
holds v (some w) = one_if (w == v)

pub record IsSynced (h : Heap) : Type 0 where
  pub distinct : IsDistinct h.keys
  pub counted : (v : ℕ) (k : Bytes) → entry_count v k h.heap ≡ holds v (find k h.keys)
  pub sized : length h.heap ≡ length h.keys
  pub ordered : IsOrdered h.heap

pub empty_heap-IsSynced : IsSynced empty_heap
unfolding find
empty_heap-IsSynced = record { distinct = tt; counted = λ v k. refl; sized = refl; ordered = tt }

-- A key and its time come to both, where the multimap holds all entries of the map but the key's.
put_entry-IsSynced :
    (key : Bytes) (value : ℕ) (keys : Map ℕ) (heap : List (ℕ × Bytes))
    → IsDistinct keys
    → ((v : ℕ) (k : Bytes)
        → entry_count v k heap ≡ (if bytes_eq key k then 0 else holds v (find k keys)))
    → suc (length heap) ≡ length (assign key value keys)
    → IsOrdered heap
    → IsSynced (put_entry key value keys heap)
put_entry-IsSynced key value keys heap d c s o = record {
  distinct = assign-IsDistinct key value keys d;
  counted =
      λ v k. ground (arith, count-insert value key v k heap, find-assign key k value keys, c v k);
  sized = omega (arith, length-insert value key heap);
  ordered = insert-IsOrdered value key heap o;
}

module _ (key : Bytes) (value : ℕ) (h : Heap) (s : IsSynced h) where
  abbrev Inserted : Heap → Type 0
  Inserted h' =
      (add_element key value h ≡ ok h') × (h'.keys ≡ assign key value h.keys) × IsSynced h'

  added_new : find key h.keys ≡ none → (h' : Heap) × Inserted h'
  unfolding add_element
  added_new e = (
    put_entry key value h.keys h.heap,
    (
      ground arith,
      refl,
      put_entry-IsSynced key value h.keys h.heap s.distinct
          (λ v k. ground (arith, s.counted v k, bytes_eq_iff key k))
          (omega (arith, s.sized, length-assign_new key value h.keys e)) s.ordered,
    ),
  )

  added_over :
      (last_value : ℕ) (heap : List (ℕ × Bytes))
      → find key h.keys ≡ some last_value
      → erase_entry last_value key h.heap ≡ some heap
      → (h' : Heap) × Inserted h'
  unfolding add_element
  added_over last_value heap e f = (
    put_entry key value h.keys heap,
    (
      ground arith,
      refl,
      put_entry-IsSynced key value h.keys heap s.distinct
          (λ v k.
            ground
              (arith, s.counted v k, count-erase last_value key v k h.heap f, bytes_eq_iff key k))
          (omega (
            arith,
            s.sized,
            length-erase_entry last_value key h.heap f,
            length-assign_old key value h.keys e,
          ))
          (erase-IsOrdered last_value key h.heap f s.ordered),
    ),
  )

  -- On a heap whose two containers hold the same entries, `addElement` throws nothing: it finds the
  -- entry to remove. Behind it the map has the key at its new time and every other key as before,
  -- and the two containers hold the same entries again.
  pub add_element-IsSynced :
      (h' : Heap) × (add_element key value h ≡ ok h')
      × (h'.keys ≡ assign key value h.keys)
      × IsSynced h'
  add_element-IsSynced = elim (Option-cases (find key h.keys)) [
    | inl e ↦ let (h', a) = added_new e in (h', a.0, a.1, a.2)
    | inr (last_value, e) ↦
        let (heap, f) =
          erase-some last_value key h.heap (ground (arith, s.counted last_value key)) in
        let (h', a) = added_over last_value heap e f in (h', a.0, a.1, a.2)
  ]
