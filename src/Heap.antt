-- ===== src/Heap.antt =====
-- `Heap<HashedString, time_point>` of src/utils/Heap.h and src/utils/Heap.cpp. A time point is the
-- number of its ticks since `time_point::min()`. `heap` is the multimap in its order: by time, and
-- for one time by insertion.
pub mod Order
pub mod Synced
pub mod Reduce
mod Tests
use node_infrastructure_torr.Prelude.{
  ℕ, ◌≡◌, Bool, true, false, not, ◌&&◌, List, [], ◌∷◌, ◌++◌, Option, none, some, ltb, ◌==◌,
  if◌then◌else◌, Result, ok, fault, ◌>>=◌, ◌>>◌, check, or_fail, not_found, incorrect_count, Bytes,
  bytes_eq, Map, find, assign, erase, length,
}

pub record Heap : Type 0 where
  pub keys : Map ℕ
  pub heap : List (ℕ × Bytes)

abbrev pub empty_heap : Heap
empty_heap = record { keys = []; heap = [] }

-- heap.insert({value, key}): behind the entries of the same value
pub multimap_insert : ℕ → Bytes → List (ℕ × Bytes) → List (ℕ × Bytes)
multimap_insert value key [] = (value, key) ∷ []
multimap_insert value key ((v, k) ∷ rest) =
    let later = multimap_insert value key rest in
    if ltb value v then (value, key) ∷ (v, k) ∷ rest else (v, k) ∷ later

abbrev pub push_entry : ℕ × Bytes → Option (List (ℕ × Bytes)) → Option (List (ℕ × Bytes))
push_entry e none = none
push_entry e (some rest) = some (e ∷ rest)

-- The search through `equal_range(lastValue)`, and `heap.erase(saveIt)`. Nothing if `saveIt` is the
-- end of the range.
pub erase_entry : ℕ → Bytes → List (ℕ × Bytes) → Option (List (ℕ × Bytes))
erase_entry last_value key [] = none
erase_entry last_value key ((v, k) ∷ rest) =
    let later = push_entry (v, k) (erase_entry last_value key rest) in
    if v == last_value && bytes_eq k key then some rest else later

-- The part of `addElement` behind the removal of the old entry.
abbrev pub put_entry : Bytes → ℕ → Map ℕ → List (ℕ × Bytes) → Heap
put_entry key value keys heap = record {
  keys = assign key value keys;
  heap = multimap_insert value key heap;
}

pub add_element : Bytes → ℕ → Heap → Result Heap
add_element key value h = elim (find key h.keys) [
  | none ↦ ok (put_entry key value h.keys h.heap)
  | some last_value ↦ elim (erase_entry last_value key h.heap) [
    | none ↦ Result.err not_found
    | some heap ↦ ok (put_entry key value h.keys heap)
  ]
]

-- The loop of `reduceToMax`. The first entry is `heap.lower_bound(minValue)`; to read it where there
-- is none is undefined.
pub reduce_loop : ℕ → List Bytes → Map ℕ → List (ℕ × Bytes) → Result (List Bytes × Heap)
reduce_loop new_size result keys [] =
    if ltb new_size (length keys) then fault else ok (result, record { keys = keys; heap = [] })
reduce_loop new_size result keys ((v, k) ∷ rest) =
    let next = reduce_loop new_size (result ++ (k ∷ [])) (erase k keys) rest in
    if ltb new_size (length keys)
    then next
    else ok (result, record { keys = keys; heap = (v, k) ∷ rest })

pub reduce_to_max : ℕ → Heap → Result (List Bytes × Heap)
unfolding reduce_loop
reduce_to_max new_size h = do
  check (not (new_size == 0)) incorrect_count
  reduce_loop new_size [] h.keys h.heap
