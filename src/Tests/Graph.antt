-- ===== src/Tests/Graph.antt =====
-- The theorems on the graph at a document of three bullets.
use flying_shuttle.Prelude.{◌≡◌, ◌⊎◌, ◌↔◌, ◌<◌, ℕ, refl, true, List}
use flying_shuttle.Prelude.Sort.{sort_by}
use flying_shuttle.Doc.Stamp.{stamp_leb}
use flying_shuttle.Model.{Node}
use flying_shuttle.Doc.Valid.{IsValid}
use flying_shuttle.Dag.Cycle.Acyclic.{Acyclic}
use flying_shuttle.Dag.Topo.{topological_sort, sorted, cyclic}
use flying_shuttle.Dag.Topo.Sorted.{IsSorting}
use flying_shuttle.Dag.Topo.Complete.{topological_sort_correct}
use flying_shuttle.Dag.Validate.{validate_graph}
use flying_shuttle.Dag.Validate.Sound.{validate_graph_correct}
use flying_shuttle.Tests.{chain}

chain-IsValid : IsValid chain
chain-IsValid = record {
  nodes_distinct = ((refl, (refl, tt)), ((refl, tt), (tt, tt)));
  edges_distinct = ((refl, tt), (tt, tt));
  edges_refer = ((refl, refl), ((refl, refl), tt));
  evidence_distinct = tt;
  evidence_refer = tt;
  threads_distinct = tt;
  thread_nodes_distinct = tt;
  thread_nodes_refer = tt;
  snapshots_distinct = tt;
  branches_distinct = tt;
}

topological_sort_correct_example :
    ((result : List Node) × (topological_sort chain ≡ sorted result) × IsSorting chain result)
    ⊎ ((count : ℕ) × (topological_sort chain ≡ cyclic count 3)
        × (count < 3)
        × ¬ (Acyclic chain.edges))
topological_sort_correct_example = topological_sort_correct chain chain-IsValid

chain_sorts : topological_sort chain ≡ sorted chain.nodes
unfolding topological_sort sort_by stamp_leb flying_shuttle.Prelude.Int.◌+ℤ◌
chain_sorts = refl

validate_graph_correct_example : ((validate_graph chain).valid ≡ true) ↔ Acyclic chain.edges
validate_graph_correct_example = validate_graph_correct chain chain-IsValid
