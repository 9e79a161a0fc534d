-- ===== src/Runtime/Graph/Reachable.antt =====
-- `_reachable_from` and `_reverse_reachable_from` return what the paths of the workflow reach.
use workcore.Prelude.{String, ◌≡◌, ◌↔◌, true, arith, contains}
use workcore.Dict.{has}
use workcore.Runtime.Models.{Workflow}
use workcore.Runtime.Graph.{rounds, sources, targets, reachable_from, reverse_reachable_from}
use workcore.Runtime.Graph.Walk.{Reaches, walk-Reaches}
use workcore.Runtime.Graph.Adjacency.{unspent, unspent-nil, spend_targets, spend_sources}

-- From a node of the workflow the walk over the targets collects exactly the nodes that some path
-- of edges reaches: its bound on the rounds is never met.
pub reachable_from_correct :
    (w : Workflow) (a v : String)
    → has a w.nodes ≡ true
    → (contains v (reachable_from w a) ≡ true) ↔ ∥ Reaches (targets w) a v ∥₁
unfolding reachable_from
reachable_from_correct w a v known = rw known (
    walk-Reaches (targets w) (unspent (λ e. e.source) w.edges) (spend_targets w) (rounds w) a v
      (omega (arith, unspent-nil (λ e. e.source) w.edges)))

-- The walk over the sources collects exactly the nodes from which a path of edges leads to its
-- start, as paths along the edges turned round.
pub reverse_reachable_from_correct :
    (w : Workflow) (a v : String)
    → (contains v (reverse_reachable_from w a) ≡ true) ↔ ∥ Reaches (sources w) a v ∥₁
unfolding reverse_reachable_from
reverse_reachable_from_correct w a v =
    walk-Reaches (sources w) (unspent (λ e. e.target) w.edges) (spend_sources w) (rounds w) a v
      (omega (arith, unspent-nil (λ e. e.target) w.edges))
