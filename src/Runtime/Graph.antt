-- ===== src/Runtime/Graph.antt =====
-- The engine's adjacency and its graph walks: `_build_incoming`, `_build_outgoing`,
-- `_reachable_from`, `_reverse_reachable_from` and `_collect_downstream` of runtime/engine.py.
-- A `set` of node ids is the list of its members, read by `contains` alone.
pub mod Walk
pub mod Adjacency
pub mod Reachable
pub mod Downstream
use mathlib.Core.List.{foldl}
use workcore.Prelude.{
  ℕ, zero, suc, String, true, false, List, [], ◌∷◌, ◌++◌, contains, length, if◌then◌else◌,
}
use workcore.Dict.{Dict, get_or, put, has}
use workcore.Runtime.Models.{Edge, Workflow}

-- `d.setdefault(k, []).append(v)`
append_at : String → String → Dict (List String) → Dict (List String)
append_at k v d = put k (get_or k [] d ++ (v ∷ [])) d

unfoldable pub build_incoming : List Edge → Dict (List String)
unfolding append_at
build_incoming = foldl (λ d e. append_at e.target e.source d) []

unfoldable pub build_outgoing : List Edge → Dict (List String)
unfolding append_at
build_outgoing = foldl (λ d e. append_at e.source e.target d) []

-- `self._incoming.get(k, [])` and `self._outgoing.get(k, [])`
unfoldable pub sources : Workflow → String → List String
unfolding build_incoming
sources w k = get_or k [] (build_incoming w.edges)

unfoldable pub targets : Workflow → String → List String
unfolding build_outgoing
targets w k = get_or k [] (build_outgoing w.edges)

-- `for target in …: stack.append(target)`; the head of the list is the top of the stack
abbrev pub push_all : List String → List String → List String
push_all [] stack = stack
push_all (t ∷ ts) stack = push_all ts (t ∷ stack)

-- The loop of `_reachable_from` over the neighbours that `next` gives. Each round pops one entry.
unfoldable pub walk : (String → List String) → ℕ → List String → List String → List String
walk next zero visited stack = visited
walk next (suc fuel) visited [] = visited
walk next (suc fuel) visited (current ∷ stack) = elim (contains current visited) [
  | true ↦ walk next fuel visited stack
  | false ↦ walk next fuel (current ∷ visited) (push_all (next current) stack)
]

-- An edge pushes at most once, so the rounds are at most one more than the edges.
abbrev pub rounds : Workflow → ℕ
rounds w = suc (suc (length w.edges))

unfoldable pub reachable_from : Workflow → String → List String
reachable_from w node_id =
    if has node_id w.nodes then walk (targets w) (rounds w) [] (node_id ∷ []) else []

unfoldable pub reverse_reachable_from : Workflow → String → List String
reverse_reachable_from w node_id = walk (sources w) (rounds w) [] (node_id ∷ [])

-- The inner loop of `_collect_downstream`: what is not yet visited is marked and pushed.
unfoldable pub mark_all : List String → List String → List String → List String × List String
mark_all [] visited stack = (visited, stack)
mark_all (t ∷ ts) visited stack = elim (contains t visited) [
  | true ↦ mark_all ts visited stack
  | false ↦ mark_all ts (t ∷ visited) (t ∷ stack)
]

unfoldable pub descend : (String → List String) → ℕ → List String → List String → List String
unfolding mark_all
descend next zero visited stack = visited
descend next (suc fuel) visited [] = visited
descend next (suc fuel) visited (current ∷ stack) =
    let marked = mark_all (next current) visited stack in
    let rest = descend next fuel marked.0 marked.1 in rest

unfoldable pub collect_downstream : Workflow → String → List String
unfolding descend
collect_downstream w node_id = descend (targets w) (rounds w) [] (node_id ∷ [])
