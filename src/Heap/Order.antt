-- ===== src/Heap/Order.antt =====
-- The multimap of the heap: its order, and the entries that an insertion and a removal change.
use node_infrastructure_torr.Prelude.{
  ℕ, ◌+◌, ◌≤◌, ◌<◌, ◌≡◌, refl, inl, inr, arith, suc, Bool, true, false, ◌&&◌, List, [], ◌∷◌, Option,
  some, ltb, ◌==◌, Bytes, bytes_eq, bytes_eq_iff, All, All-map, length, Bool-cases, Option-cases,
}
use node_infrastructure_torr.Heap.{multimap_insert, push_entry, erase_entry}

-- The entries stand in the order of their times.
abbrev pub IsOrdered : List (ℕ × Bytes) → Type 0
IsOrdered [] = Unit
IsOrdered (e ∷ rest) = All (λ f. e.0 ≤ f.0) rest × IsOrdered rest

abbrev pub one_if : Bool → ℕ
one_if true = 1
one_if false = 0

-- How often the entry stands in the list.
abbrev pub entry_count : ℕ → Bytes → List (ℕ × Bytes) → ℕ
entry_count v k [] = 0
entry_count v k ((w, j) ∷ rest) = one_if (w == v && bytes_eq j k) + entry_count v k rest

push_entry-some :
    (e : ℕ × Bytes) (o : Option (List (ℕ × Bytes)))
    → ((l : List (ℕ × Bytes)) × (o ≡ some l))
    → (l : List (ℕ × Bytes)) × (push_entry e o ≡ some l)
push_entry-some e o (l, h) = (e ∷ l, rw h)

module _ (value : ℕ) (key : Bytes) where
  pub count-insert :
      (v : ℕ) (k : Bytes) (l : List (ℕ × Bytes))
      → entry_count v k (multimap_insert value key l)
        ≡ one_if (value == v && bytes_eq key k) + entry_count v k l
  unfolding multimap_insert
  count-insert v k [] = refl
  count-insert v k ((w, j) ∷ rest) = ground (arith, count-insert v k rest)

  pub length-insert : (l : List (ℕ × Bytes)) → length (multimap_insert value key l) ≡ suc (length l)
  unfolding multimap_insert
  length-insert [] = refl
  length-insert ((w, j) ∷ rest) = ground (arith, length-insert rest)

  All-insert :
      (n : ℕ) (l : List (ℕ × Bytes))
      → n ≤ value
      → All (λ f. n ≤ f.0) l
      → All (λ f. n ≤ f.0) (multimap_insert value key l)
  unfolding multimap_insert
  All-insert n [] h a = (h, tt)
  All-insert n ((w, j) ∷ rest) h (p, a) = elim (Bool-cases (ltb value w)) [
    | inl e ↦ rw e (h, (p, a))
    | inr e ↦ rw e (p, All-insert n rest h a)
  ]

  pub insert-IsOrdered :
      (l : List (ℕ × Bytes)) → IsOrdered l → IsOrdered (multimap_insert value key l)
  unfolding multimap_insert
  insert-IsOrdered [] o = (tt, tt)
  insert-IsOrdered ((w, j) ∷ rest) (a, o) = elim (Bool-cases (ltb value w)) [
    | inl e ↦ rw e ((ground arith, All-map rest (λ f p. ground arith) a), (a, o))
    | inr e ↦ rw e (All-insert w rest (ground arith) a, insert-IsOrdered rest o)
  ]

  pub count-erase :
      (v : ℕ) (k : Bytes) (l : List (ℕ × Bytes)) {l' : List (ℕ × Bytes)}
      → erase_entry value key l ≡ some l'
      → entry_count v k l ≡ one_if (value == v && bytes_eq key k) + entry_count v k l'
  unfolding erase_entry
  count-erase v k [] e = absurd (cc e)
  count-erase v k ((w, j) ∷ rest) {l' = l'} e = elim (Bool-cases (w == value && bytes_eq j key)) [
    | inl t ↦ ground (arith, bytes_eq_iff j key)
    | inr t ↦ elim (Option-cases (erase_entry value key rest)) [
      | inl g ↦ absurd (cc (rw (t, g) at e))
      | inr (m, g) ↦ ground (arith, count-erase v k rest g)
    ]
  ]

  pub erase-some :
      (l : List (ℕ × Bytes))
      → 0 < entry_count value key l
      → (l' : List (ℕ × Bytes)) × (erase_entry value key l ≡ some l')
  unfolding erase_entry
  erase-some [] h = absurd (omega arith)
  erase-some ((w, j) ∷ rest) h = elim (Bool-cases (w == value && bytes_eq j key)) [
    | inl e ↦ (rest, rw e)
    | inr e ↦ let g = rw e at h in rw e (push_entry-some (w, j) _ (erase-some rest (omega arith)))
  ]

  pub length-erase_entry :
      (l : List (ℕ × Bytes)) {l' : List (ℕ × Bytes)}
      → erase_entry value key l ≡ some l'
      → length l ≡ suc (length l')
  unfolding erase_entry
  length-erase_entry [] e = absurd (cc e)
  length-erase_entry ((w, j) ∷ rest) {l' = l'} e =
      elim (Bool-cases (w == value && bytes_eq j key)) [
        | inl t ↦ ground arith
        | inr t ↦ elim (Option-cases (erase_entry value key rest)) [
          | inl g ↦ absurd (cc (rw (t, g) at e))
          | inr (m, g) ↦ ground (arith, length-erase_entry rest g)
        ]
      ]

  All-erase :
      (n : ℕ) (l : List (ℕ × Bytes)) {l' : List (ℕ × Bytes)}
      → erase_entry value key l ≡ some l'
      → All (λ f. n ≤ f.0) l
      → All (λ f. n ≤ f.0) l'
  unfolding erase_entry
  All-erase n [] e a = absurd (cc e)
  All-erase n ((w, j) ∷ rest) {l' = l'} e (p, a) =
      elim (Bool-cases (w == value && bytes_eq j key)) [
        | inl t ↦ let same : rest ≡ l' = cc (rw t at e) in rw (← same) a
        | inr t ↦ elim (Option-cases (erase_entry value key rest)) [
          | inl g ↦ absurd (cc (rw (t, g) at e))
          | inr (m, g) ↦
              let same : (w, j) ∷ m ≡ l' = cc (rw (t, g) at e) in
              rw (← same) (p, All-erase n rest g a)
        ]
      ]

  pub erase-IsOrdered :
      (l : List (ℕ × Bytes)) {l' : List (ℕ × Bytes)}
      → erase_entry value key l ≡ some l'
      → IsOrdered l
      → IsOrdered l'
  unfolding erase_entry
  erase-IsOrdered [] e o = absurd (cc e)
  erase-IsOrdered ((w, j) ∷ rest) {l' = l'} e (a, o) =
      elim (Bool-cases (w == value && bytes_eq j key)) [
        | inl t ↦ let same : rest ≡ l' = cc (rw t at e) in rw (← same) o
        | inr t ↦ elim (Option-cases (erase_entry value key rest)) [
          | inl g ↦ absurd (cc (rw (t, g) at e))
          | inr (m, g) ↦
              let same : (w, j) ∷ m ≡ l' = cc (rw (t, g) at e) in
              rw (← same) (All-erase w rest g a, erase-IsOrdered rest g o)
        ]
      ]
