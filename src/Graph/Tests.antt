-- ===== src/Graph/Tests.antt =====
-- A small graph for src/utils/Graph.cpp.
use node_infrastructure_torr.Prelude.{
  ◌≡◌, zero, suc, arith, refl, [], ◌∷◌, none, some, codes, bytes_eq, err, already_exists,
}
use node_infrastructure_torr.Graph.{Graph, find_index, find_or_add, add_edge}
use node_infrastructure_torr.Graph.Parents.{IsClosed, IsAddedEdge, add_edge-IsAddedEdge}

abbrev small : Graph
small =
    record { element = codes "root"; parent = none }
    ∷ record { element = codes "left"; parent = some 0 }
    ∷ []

small-IsClosed : IsClosed small
small-IsClosed zero e p at q = absurd (cc (at, q))
small-IsClosed (suc zero) e p at q = rw (← root) (omega arith)
  where
    root : 0 ≡ p
    root = cc (at, q)
small-IsClosed (suc (suc i)) e p at q = absurd (cc at)

second_parent : (add_edge (codes "right") (codes "left") small).outcome ≡ err already_exists
unfolding add_edge find_or_add find_index bytes_eq
second_parent = refl

add_edge-IsAddedEdge_example :
    IsAddedEdge (codes "left") (codes "leaf") small (add_edge (codes "left") (codes "leaf") small)
add_edge-IsAddedEdge_example =
    add_edge-IsAddedEdge (codes "left") (codes "leaf") small small-IsClosed
