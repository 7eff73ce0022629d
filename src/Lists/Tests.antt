-- ===== src/Lists/Tests.antt =====
-- The theorems on the lists at a header and three nodes in a store of zeros.
use binsort.Base.{ℕ, ◌≡◌, some, [], ◌∷◌, Cells, arith}
use binsort.Lists.{init_list, add_tail, remove, free_all}
use binsort.Lists.Refine.{IsList, init_list-IsList, add_tail-IsList, remove-IsList}
use binsort.Lists.Drain.{free_all_ends}

abbrev zeros : Cells ℕ
zeros i = 0

abbrev one_node : Cells ℕ
one_node = add_tail 100 10 (init_list 100 zeros)

abbrev two_nodes : Cells ℕ
two_nodes = add_tail 100 20 one_node

one_node-IsList : IsList 100 one_node (10 ∷ [])
one_node-IsList =
    add_tail-IsList 100 10 (init_list 100 zeros) [] (init_list-IsList 100 zeros (omega arith))
      (omega arith) tt

two_nodes-IsList : IsList 100 two_nodes (10 ∷ 20 ∷ [])
two_nodes-IsList =
    add_tail-IsList 100 20 one_node (10 ∷ []) one_node-IsList (omega arith) (omega arith)

remove-IsList_example : IsList 100 (remove 10 two_nodes) (20 ∷ [])
remove-IsList_example = remove-IsList 100 10 two_nodes [] (20 ∷ []) two_nodes-IsList

free_all_ends_example :
    (m' : Cells ℕ) × (free_all 3 100 two_nodes [] ≡ some (10 ∷ 20 ∷ [], m')) × IsList 100 m' []
free_all_ends_example = free_all_ends 3 100 two_nodes (10 ∷ 20 ∷ []) two_nodes-IsList (omega arith)
