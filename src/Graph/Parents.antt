-- ===== src/Graph/Parents.antt =====
-- What `addEdge` of src/utils/Graph.cpp does to the parents.
use node_infrastructure_torr.Prelude.{
  ℕ, suc, ◌≡◌, ◌<◌, ◌⊎◌, inl, inr, refl, sym, ap, ◌∙◌, arith, Bytes, [], ◌∷◌, ◌++◌, Option, none,
  some, Option-cases, Bool-cases, same_or_not, already_exists, get_elem?-append,
  get_elem?-append_left, get_elem?-set_self, get_elem?-set_ne, length, length-append, get_elem?,
  get_elem?-set_cases, get_elem?-snoc, get_elem?-lt, length-set, set, bytes_eq, bytes_eq_iff, ok,
  err,
}
use node_infrastructure_torr.Graph.{Element, Graph, find_index, find_or_add, link, Added, add_edge}

-- Each parent is an element of the graph, so that no pointer is dangling.
abbrev pub IsClosed : Graph → Type 0
IsClosed g =
    (i : ℕ) (e : Element) (p : ℕ) → get_elem? g i ≡ some e → e.parent ≡ some p → p < length g

-- The element at an index has this name.
abbrev pub IsNamed : Graph → ℕ → Bytes → Type 0
IsNamed g i name = (e : Element) × (get_elem? g i ≡ some e) × (e.element ≡ name)

find_index-IsNamed :
    (name : Bytes) (g : Graph) (i : ℕ) → find_index name g ≡ some i → IsNamed g i name
unfolding find_index
find_index-IsNamed name [] i h = absurd (cc h)
find_index-IsNamed name (e ∷ rest) i h = elim (Bool-cases (bytes_eq e.element name)) [
  | inl same ↦
      let zeroth : 0 ≡ i = cc (rw same at h) in
      rw (← zeroth) (e, refl, (bytes_eq_iff e.element name).0 same)
  | inr other ↦ elim (Option-cases (find_index name rest)) [
    | inl missing ↦ absurd (cc (rw (other, missing) at h))
    | inr (j, found) ↦
        let later : suc j ≡ i = cc (rw (other, found) at h) in
        rw (← later) (find_index-IsNamed name rest j found)
  ]
]

abbrev new : Bytes → Element
new name = record { element = name; parent = none }

find_or_add_cases :
    (name : Bytes) (g : Graph)
    → ((i : ℕ) × (find_or_add name g ≡ (i, g)) × IsNamed g i name)
      ⊎ (find_or_add name g ≡ (length g, g ++ (new name ∷ [])))
unfolding find_or_add
find_or_add_cases name g = elim (Option-cases (find_index name g)) [
  | inl missing ↦ inr (rw (missing, find_or_add))
  | inr (i, found) ↦ inl (i, rw (found, find_or_add), find_index-IsNamed name g i found)
]

-- What `findOrAdd` leaves: the element is there, the others keep their places, and no pointer dangles.
find_or_add_lem :
    (name : Bytes) (g : Graph)
    → IsClosed g
    → IsNamed (find_or_add name g).1 (find_or_add name g).0 name
      × ((i : ℕ) (other : Bytes) → IsNamed g i other → IsNamed (find_or_add name g).1 i other)
      × ((i : ℕ) (e : Element)
          → get_elem? g i ≡ some e
          → get_elem? (find_or_add name g).1 i ≡ some e)
      × ((i : ℕ) (e : Element) (p : ℕ)
          → get_elem? (find_or_add name g).1 i ≡ some e
          → e.parent ≡ some p
          → get_elem? g i ≡ some e)
      × IsClosed (find_or_add name g).1
find_or_add_lem name g c = elim (find_or_add_cases name g) [
  | inl (i, e, n) ↦ rw e (n, (λ j other m. m), (λ j x at. at), (λ j x p at q. at), c)
  | inr e ↦ rw e (
    (new name, get_elem?-append g (new name) [] (length g) refl, refl),
    (λ j other m. (m.0, get_elem?-append_left g (new name ∷ []) j m.1, m.2)),
    (λ j x at. get_elem?-append_left g (new name ∷ []) j at),
    (λ j x p at q. elim (get_elem?-snoc g (new name) j at) [
      | inl (_, same) ↦ absurd (cc (q, ap (λ (y : Element). y.parent) same))
      | inr old ↦ old
    ]),
    closed,
  )
]
  where
    closed : IsClosed (g ++ (new name ∷ []))
    closed i e p at q = elim (get_elem?-snoc g (new name) i at) [
      | inl (_, same) ↦ absurd (cc (q, ap (λ (x : Element). x.parent) same))
      | inr old ↦ omega (arith, c i e p old q, length-append g (new name ∷ []))
    ]

link-IsClosed :
    (g : Graph) (first second : ℕ) (e : Element)
    → IsClosed g
    → first < length g
    → IsClosed (set g second (record e { parent = some first }))
link-IsClosed g first second e c h i x p at q =
    elim (get_elem?-set_cases g second i (record e { parent = some first }) at) [
      | inl same ↦
          let to : first ≡ p = cc (q, ap (λ (y : Element). y.parent) same) in
          omega (arith, to, h, length-set g second (record e { parent = some first }))
      | inr old ↦
          omega (arith, c i x p old q, length-set g second (record e { parent = some first }))
    ]

-- The name of an element stays when a parent is set.
set-IsNamed :
    (g : Graph) (first second i : ℕ) (e : Element) (name : Bytes)
    → get_elem? g second ≡ some e
    → IsNamed g i name
    → IsNamed (set g second (record e { parent = some first })) i name
set-IsNamed g first second i e name at (x, there, named) = elim (same_or_not second i) [
  | inl same ↦
      let one : e ≡ x = cc (at, there, ap (get_elem? g) same) in
      (
        record e { parent = some first },
        ap (get_elem? (set g second (record e { parent = some first }))) (sym same)
            ∙ get_elem?-set_self g second _ (get_elem?-lt g second at),
        ap (λ (y : Element). y.element) one ∙ named,
      )
  | inr other ↦ (x, get_elem?-set_ne g (record e { parent = some first }) other ∙ there, named)
]

-- In the graph, an element of this name has a parent.
abbrev pub HasParent : Bytes → Graph → Type 0
HasParent child g =
    (i p : ℕ) × (e : Element) × (get_elem? g i ≡ some e) × (e.element ≡ child) × (e.parent ≡ some p)

-- The element of the child has that of `parent` as its parent. It had none in the graph `g`, or was
-- not in it.
abbrev pub IsLinked : Bytes → Bytes → Graph → Graph → Type 0
IsLinked parent child g g' =
    (i p : ℕ) × (e : Element) × (get_elem? g' i ≡ some e)
    × (e.element ≡ child)
    × (e.parent ≡ some p)
    × IsNamed g' p parent
    × ((old : Element) → get_elem? g i ≡ some old → old.parent ≡ none)

-- No pointer dangles, and either the child had a parent, or it has `parent` now.
abbrev pub IsAddedEdge : Bytes → Bytes → Graph → Added → Type 0
IsAddedEdge parent child g a =
    IsClosed a.graph
    × (((a.outcome ≡ err already_exists) × HasParent child g)
        ⊎ ((a.outcome ≡ ok tt) × IsLinked parent child g a.graph))

link-IsAddedEdge :
    (parent child : Bytes) (g : Graph) (first second : ℕ)
    → IsClosed g
    → IsNamed g first parent
    → IsNamed g second child
    → (before : Graph)
    → ((i : ℕ) (e : Element) → get_elem? before i ≡ some e → get_elem? g i ≡ some e)
    → ((i : ℕ) (e : Element) (p : ℕ)
        → get_elem? g i ≡ some e
        → e.parent ≡ some p
        → get_elem? before i ≡ some e)
    → IsAddedEdge parent child before (link g first second (get_elem? g second))
link-IsAddedEdge parent child g first second c (x, there, named) (e, at, called) before stays was =
    rw at (by_parent e.parent refl)
  where
    unique : (old : Element) → get_elem? before second ≡ some old → old ≡ e
    unique old at_old = cc (stays second old at_old, at)

    by_parent :
        (o : Option ℕ)
        → e.parent ≡ o
        → IsAddedEdge parent child before (link g first second (some e))
    by_parent (some p) q =
        let had : HasParent child before = (second, p, e, was second e p at q, called, q) in
        rw (q, link) (c, inl (refl, had))
    by_parent none q =
        rw (q, link)
          (
            link-IsClosed g first second e c (get_elem?-lt g first there),
            inr (
              refl,
              (
                second,
                first,
                record e { parent = some first },
                get_elem?-set_self g second _ (get_elem?-lt g second at),
                called,
                refl,
                set-IsNamed g first second first e parent at (x, there, named),
                λ old at_old. ap (λ (y : Element). y.parent) (unique old at_old) ∙ q,
              ),
            ),
          )

-- On a graph without dangling pointers, `addEdge` leaves none, and either throws, and an element
-- with the name of the child had a parent, or gives an element with the name of the child, which had
-- no parent or was not there, an element with the name of the parent as its parent.
pub add_edge-IsAddedEdge :
    (parent child : Bytes) (g : Graph)
    → IsClosed g
    → IsAddedEdge parent child g (add_edge parent child g)
unfolding add_edge
add_edge-IsAddedEdge parent child g c =
    let (named1, _, stays1, was1, closed1) = find_or_add_lem parent g c in
    let (named2, keeps, stays2, was2, closed2) =
      find_or_add_lem child (find_or_add parent g).1 closed1 in
    link-IsAddedEdge parent child (find_or_add child (find_or_add parent g).1).1
      (find_or_add parent g).0 (find_or_add child (find_or_add parent g).1).0 closed2
      (keeps (find_or_add parent g).0 parent named1) named2 g (λ i e at. stays2 i e (stays1 i e at))
      (λ i e p at q. was1 i e p (was2 i e p at q) q)
