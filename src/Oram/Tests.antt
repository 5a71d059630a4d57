-- ===== src/Oram/Tests.antt =====
-- crates/oram/src/lib.rs: runs, and the theorems at concrete trees.
use novachannel.Common.{
  ℕ, ◌^◌, ◌<◌, ◌≤◌, ◌≡◌, ◌⊎◌, ◌-◌, refl, arith, some, none, List, [], ◌∷◌, ◌++◌, contains,
}
use novachannel.Oram.{
  InMemoryServer, Client, new_in_memory, with_server, new_path_oram, in_memory, read_in_memory,
  write_in_memory, depth_for_capacity, path_nodes, is_ancestor_of_leaf, choose, position, value_at,
  set_value, put_value, read_nodes, read_path_into_stash, insert_position, evict_nodes, evict_path,
  access, read, write, next_power_from, ilog2_fuel,
}
use novachannel.Oram.Tree.{is_ancestor_of_leaf-contains}
use novachannel.Oram.Trace.{Touch, reads, writes, logged, with_log, Touches, access-Touches}
use novachannel.Oram.Storage.{in_memory-IsStore}
use novachannel.Oram.Depth.{depth_for_capacity_least}
use novachannel.Oram.Access.{Holds, access-Holds}
use novachannel.Oram.Access.Update.{written}
use novachannel.Oram.Session.{
  Op, reading, writing, answers, run, run-answers, with_server-Holds, new_path_oram-Holds,
}

program : Unit {0}
unfolding new_in_memory with_server new_path_oram read_in_memory write_in_memory depth_for_capacity
    path_nodes is_ancestor_of_leaf choose position value_at set_value put_value read_nodes
    read_path_into_stash evict_nodes evict_path access read write run answers next_power_from
    ilog2_fuel
program = tt

path_run : path_nodes 4 3 ≡ 7 ∷ 3 ∷ 1 ∷ []
unfolding program
path_run = refl

depth_run :
    (depth_for_capacity 1 ≡ some 0)
    × (depth_for_capacity 5 ≡ some 3)
    × (depth_for_capacity 1024 ≡ some 10)
    × (depth_for_capacity (2 ^ 41) ≡ none)
unfolding program
depth_run = (refl, refl, refl, refl)

abbrev tree : Client ℕ (InMemoryServer ℕ)
tree = with_server 2 (new_in_memory 8 1)

tree_run : new_path_oram {V = ℕ} 3 1 ≡ some tree
unfolding program
tree_run = refl

abbrev ops : List (Op ℕ)
ops =
    writing 7 70 0 3
    ∷ writing 8 80 1 2
    ∷ reading 7 0 1
    ∷ writing 7 71 0 0
    ∷ reading 7 0 2
    ∷ reading 9 3 1
    ∷ []

session_run : run in_memory ops tree ≡ some (none ∷ none ∷ some 70 ∷ some 70 ∷ some 71 ∷ none ∷ [])
unfolding program
session_run = refl

run-answers_example : run in_memory ops tree ≡ some (answers ops (λ _. none))
unfolding program
run-answers_example =
    run-answers in_memory-IsStore ops tree (λ _. none) (with_server-Holds ℕ 2 1)
      (
        (omega arith, omega arith),
        (
          (omega arith, omega arith),
          (
            (omega arith, omega arith),
            (
              (omega arith, omega arith),
              ((omega arith, omega arith), ((omega arith, omega arith), tt)),
            ),
          ),
        ),
      )

access-Holds_example :
    (c' : Client ℕ (InMemoryServer ℕ)) × (access in_memory 7 (some 70) 0 3 tree ≡ some (none, c'))
    × (c'.num_leaves ≡ tree.num_leaves)
    × Holds in_memory-IsStore c' (written 7 (some 70) (λ _. none))
unfolding with_server
access-Holds_example =
    access-Holds in_memory-IsStore tree (λ _. none) 7 (some 70) 0 3 (with_server-Holds ℕ 2 1)
      (omega arith) (omega arith)

new_path_oram-Holds_example :
    (c : Client ℕ (InMemoryServer ℕ)) × (new_path_oram 1000 4 ≡ some c)
    × (1000 ≤ c.num_leaves)
    × Holds in_memory-IsStore c (λ _. none)
new_path_oram-Holds_example = new_path_oram-Holds ℕ 1000 4 (omega arith) (omega arith) (omega arith)

depth_for_capacity_least_example :
    ((5 ≤ 2 ^ 40)
      × ((d : ℕ) × (depth_for_capacity 5 ≡ some d)
          × (5 ≤ 2 ^ d)
          × (d ≤ 40)
          × ((d ≡ 0) ⊎ (2 ^ (d - 1) < 5))))
    ⊎ ((2 ^ 40 < 5) × (depth_for_capacity 5 ≡ none))
depth_for_capacity_least_example = depth_for_capacity_least 5

is_ancestor_of_leaf-contains_example : is_ancestor_of_leaf 4 3 2 ≡ contains (path_nodes 4 2) 3
is_ancestor_of_leaf-contains_example = is_ancestor_of_leaf-contains 4 3 2 (omega arith)

access-Touches_example :
    (c' : Client ℕ (InMemoryServer ℕ)) × (trace : List Touch) × (access in_memory 7
        (some 70)
        2
        3
        tree
      ≡ some (none, c'))
    × (access (logged in_memory) 7 (some 70) 2 3 (with_log tree [])
        ≡ some (none, with_log c' ([] ++ trace)))
    × Touches tree.depth tree.num_leaves 2 trace
    × (c'.position_map 7 ≡ some 3)
unfolding with_server
access-Touches_example =
    access-Touches in_memory-IsStore tree (λ _. none) 7 (some 70) 2 3 [] (with_server-Holds ℕ 2 1)
      refl (omega arith) (omega arith)

-- The path of the leaf 2 is read and then written, both from the leaf up.
trace_run :
    access (logged in_memory) 7 (some 70) 2 3 (with_log tree [])
    ≡ some (
      none,
      record (with_log tree []) {
        server = (
          record tree.server {
            buckets = [] ∷ [] ∷ [] ∷ (record { id = 7; value = 70 } ∷ []) ∷ [] ∷ [] ∷ [] ∷ [] ∷ [];
          },
          reads 6 ∷ reads 3 ∷ reads 1 ∷ writes 6 ∷ writes 3 ∷ writes 1 ∷ [],
        );
        position_map = insert_position 7 3 (λ _. none);
      },
    )
unfolding program
trace_run = refl
