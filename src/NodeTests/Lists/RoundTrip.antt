-- ===== src/NodeTests/Lists/RoundTrip.antt =====
-- The lists of src/Workers/NodeTestsBlockInfo.cpp are read back as they are written.
use node_infrastructure_torr.Prelude.{
  ℕ, ◌^◌, ◌<◌, ◌≡◌, ◌∙◌, sym, Bytes, List, [], ◌∷◌, ◌++◌, append-nil, append_assoc, length, All,
  All-map, foldl, concat_map, append_each-append, ok,
}
use node_infrastructure_torr.Serialize.{serialize_int, serialize_string}
use node_infrastructure_torr.Serialize.Cursor.{
  Decodes, Decodes-pure, Decodes-bind, Decodes-eq, Decodes-repeat, repeat,
}
use node_infrastructure_torr.Serialize.RoundTrip.{IsU64, Decodes-u64, Decodes-string}
use node_infrastructure_torr.Containers.{insert, assign_key, lt_key}
use node_infrastructure_torr.Containers.Sorted.{IsSorted, foldl-insert, foldl-assign_key}
use node_infrastructure_torr.Address.{bytes_lt}
use node_infrastructure_torr.Address.Order.{bytes_lt-StrictOrder}
use node_infrastructure_torr.NodeTests.Records.{AllTestedNodes, AllNodes, NodeRps}
use node_infrastructure_torr.NodeTests.Codec.RoundTrip.{not_empty-int, whole-Decodes}
use node_infrastructure_torr.NodeTests.Lists.{
  serialize_tested_nodes, read_node, deserialize_tested_nodes_at, deserialize_tested_nodes,
  serialize_name, serialize_all_nodes, read_name, deserialize_all_nodes_at, deserialize_all_nodes,
  serialize_node_rps, read_rp, deserialize_node_rps_at, deserialize_node_rps,
}

All-of {ℓ κ} : {A : Type ℓ} {P : A → Type κ} (xs : List A) → ((x : A) → P x) → All P xs
All-of [] g = tt
All-of (x ∷ xs) g = (g x, All-of xs g)

Decodes-read_node :
    (node : Bytes) (nodes : List Bytes)
    → Decodes (read_node nodes) (serialize_string node) (insert bytes_lt node nodes)
unfolding read_node
Decodes-read_node node nodes =
    Decodes-eq (append-nil _) (Decodes-bind _ _ (Decodes-string node) (Decodes-pure _))

Decodes-nodes :
    (nodes : List Bytes)
    → IsSorted bytes_lt nodes
    → Decodes (repeat (length nodes) read_node []) (concat_map serialize_string nodes) nodes
Decodes-nodes nodes s = rw (foldl-insert bytes_lt-StrictOrder nodes s) at (
    Decodes-repeat read_node serialize_string (λ s x. insert bytes_lt x s) nodes []
      (All-of nodes (λ x t. Decodes-read_node x t)))

-- `AllTestedNodes::deserialize` reads back the day and the set of nodes, in order, that
-- `AllTestedNodes::serialize` writes, if the numbers are in range and the string is not too long.
pub deserialize_tested_nodes-serialize_tested_nodes :
    (n : AllTestedNodes)
    → IsSorted bytes_lt n.nodes
    → IsU64 n.day
    → IsU64 (length n.nodes)
    → length (serialize_tested_nodes n) < 2 ^ 64
    → deserialize_tested_nodes (serialize_tested_nodes n) ≡ ok n
unfolding deserialize_tested_nodes deserialize_tested_nodes_at
deserialize_tested_nodes-serialize_tested_nodes n s d c l =
    rw (written, not_empty-int n.day _)
      (whole-Decodes
        (Decodes-eq (simp append-nil) (
          Decodes-bind _ _ (Decodes-u64 n.day d) (
            Decodes-bind _ _ (Decodes-u64 (length n.nodes) c)
              (Decodes-bind _ _ (Decodes-nodes n.nodes s) (Decodes-pure _)))))
        (rw written at l))
  where
    written :
        serialize_tested_nodes n
        ≡ serialize_int 8 n.day
          ++ (serialize_int 8 (length n.nodes) ++ concat_map serialize_string n.nodes)
    written =
        unfold serialize_tested_nodes in
        append_each-append serialize_string _ n.nodes
        ∙ append_assoc (serialize_int 8 n.day) (serialize_int 8 (length n.nodes)) _

Decodes-read_name :
    (p : Bytes × Bytes) (nodes : List (Bytes × Bytes))
    → Decodes (read_name nodes) (serialize_name p) (assign_key bytes_lt p nodes)
unfolding read_name
Decodes-read_name (node, name) nodes = Decodes-eq (simp append-nil) (
    Decodes-bind _ _ (Decodes-string node)
      (Decodes-bind _ _ (Decodes-string name) (Decodes-pure _)))

-- `AllNodes::deserialize` reads back the map of names, in the order of its keys, that
-- `AllNodes::serialize` writes, if its size is in range and the string is not too long.
pub deserialize_all_nodes-serialize_all_nodes :
    (n : AllNodes)
    → IsSorted (lt_key bytes_lt) n.nodes
    → IsU64 (length n.nodes)
    → length (serialize_all_nodes n) < 2 ^ 64
    → deserialize_all_nodes (serialize_all_nodes n) ≡ ok n
unfolding deserialize_all_nodes deserialize_all_nodes_at
deserialize_all_nodes-serialize_all_nodes n s c l =
    rw (written, not_empty-int (length n.nodes) _)
      (whole-Decodes
        (Decodes-eq (simp append-nil) (
          Decodes-bind _ _ (Decodes-u64 (length n.nodes) c)
            (Decodes-bind _ _ names (Decodes-pure _))))
        (rw written at l))
  where
    written :
        serialize_all_nodes n
        ≡ serialize_int 8 (length n.nodes) ++ concat_map serialize_name n.nodes
    written = unfold serialize_all_nodes in append_each-append serialize_name _ n.nodes

    names :
        Decodes (repeat (length n.nodes) read_name []) (concat_map serialize_name n.nodes) n.nodes
    names = rw (foldl-assign_key bytes_lt-StrictOrder n.nodes s) at (
        Decodes-repeat read_name serialize_name (λ m p. assign_key bytes_lt p m) n.nodes []
          (All-of n.nodes (λ p t. Decodes-read_name p t)))

foldl-snoc : (xs ys : List ℕ) → foldl (λ s x. s ++ (x ∷ [])) xs ys ≡ xs ++ ys
foldl-snoc xs [] = sym (append-nil xs)
foldl-snoc xs (y ∷ ys) = foldl-snoc (xs ++ (y ∷ [])) ys ∙ append_assoc xs (y ∷ []) ys

Decodes-read_rp :
    (rp : ℕ) (rps : List ℕ)
    → IsU64 rp
    → Decodes (read_rp rps) (serialize_int 8 rp) (rps ++ (rp ∷ []))
unfolding read_rp
Decodes-read_rp rp rps h =
    Decodes-eq (append-nil _) (Decodes-bind _ _ (Decodes-u64 rp h) (Decodes-pure _))

-- `NodeRps::deserialize` reads back the list that `NodeRps::serialize` writes, if the numbers and
-- the length are in range and the string is not too long.
pub deserialize_node_rps-serialize_node_rps :
    (n : NodeRps)
    → All IsU64 n.rps
    → IsU64 (length n.rps)
    → length (serialize_node_rps n) < 2 ^ 64
    → deserialize_node_rps (serialize_node_rps n) ≡ ok n
unfolding deserialize_node_rps deserialize_node_rps_at
deserialize_node_rps-serialize_node_rps n a c l =
    rw (written, not_empty-int (length n.rps) _)
      (whole-Decodes
        (Decodes-eq (simp append-nil) (
          Decodes-bind _ _ (Decodes-u64 (length n.rps) c)
            (Decodes-bind _ _ items (Decodes-pure _))))
        (rw written at l))
  where
    written :
        serialize_node_rps n ≡ serialize_int 8 (length n.rps) ++ concat_map (serialize_int 8) n.rps
    written = unfold serialize_node_rps in append_each-append (serialize_int 8) _ n.rps

    items : Decodes (repeat (length n.rps) read_rp []) (concat_map (serialize_int 8) n.rps) n.rps
    items = rw (foldl-snoc [] n.rps) at (
        Decodes-repeat read_rp (serialize_int 8) (λ s x. s ++ (x ∷ [])) n.rps []
          (All-map n.rps (λ x h t. Decodes-read_rp x t h) a))
