-- ===== src/Graph.antt =====
-- src/utils/Graph.h and src/utils/Graph.cpp: the nodes by which a node finds its parent. A pointer to
-- an element, which the deque never moves, is the element's index.
pub mod Parents
mod Tests
use node_infrastructure_torr.Prelude.{
  ℕ, zero, suc, Bool, true, false, Bytes, List, [], ◌∷◌, ◌++◌, Option, none, some, length,
  get_elem?, set, map, bytes_eq, if◌then◌else◌, Result, ok, err, fault, Error, already_exists,
  not_found, not_set,
}

pub record Element : Type 0 where
  pub element : Bytes
  pub parent : Option ℕ

-- The member `elements`, which is all that a graph has.
abbrev pub Graph : Type 0
Graph = List Element

abbrev shift : Option ℕ → Option ℕ
shift none = none
shift (some i) = some (suc i)

-- std::find_if(...), as an index.
pub find_index : Bytes → Graph → Option ℕ
find_index name [] = none
find_index name (e ∷ rest) =
    let later = find_index name rest in if bytes_eq e.element name then some 0 else shift later

-- findOrAdd(element): the index and the graph behind it.
pub find_or_add : Bytes → Graph → ℕ × Graph
unfolding find_index
find_or_add name g = elim (find_index name g) [
  | some i ↦ (i, g)
  | none ↦ (length g, g ++ (record { element = name; parent = none } ∷ []))
]

abbrev set_parent : Graph → ℕ → ℕ → Element → Graph
set_parent g first second e = set g second (record e { parent = some first })

abbrev has_parent : Option ℕ → Bool
has_parent none = false
has_parent (some i) = true

-- What `addEdge` returns or throws, and the graph behind it: elements that were added stay.
pub record Added : Type 0 where
  pub outcome : Result (Unit {0})
  pub graph : Graph

abbrev link : Graph → ℕ → ℕ → Option Element → Added
link g first second none = record { outcome = fault; graph = g }
link g first second (some e) =
    if has_parent e.parent
    then record { outcome = err already_exists; graph = g }
    else record { outcome = ok tt; graph = set_parent g first second e }

-- addEdge(parent, child)
pub add_edge : Bytes → Bytes → Graph → Added
unfolding find_or_add
add_edge parent child g =
    let (first, g1) = find_or_add parent g in
    let (second, g2) = find_or_add child g1 in link g2 first second (get_elem? g2 second)

-- findElement(element)
pub find_element : Bytes → Graph → Result ℕ
unfolding find_index
find_element name g = elim (find_index name g) [ some i ↦ ok i | none ↦ err not_found ]

-- Element::isParent(), which is whether the element has a parent.
pub is_parent : Element → Bool
is_parent e = has_parent e.parent

-- Element::getParent()
pub get_parent : Element → Result ℕ
get_parent e = elim e.parent [ some i ↦ ok i | none ↦ err not_set ]

-- getAllElements()
pub get_all_elements : Graph → List Bytes
get_all_elements g = map (λ e. e.element) g
