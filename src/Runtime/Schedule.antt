-- ===== src/Runtime/Schedule.antt =====
-- `_runnable_nodes`, `_dependencies_resolved` and `_is_edge_active` of runtime/engine.py
use workcore.Prelude.{
  String, Bool, true, false, not, ◌&&◌, ◌||◌, Option, none, some, List, [], ◌∷◌, ◌==◌, contains,
  if◌then◌else◌,
}
pub mod Ready
pub mod Exact
use Prim.Native.String.{compare}
use package.text.Mathlib.Text.{is_le}
use workcore.Dict.{Dict, get, has}
use workcore.Runtime.Models.{
  Node, NodeRun, Workflow, Run, is_resolved, is_taken, NodeStatus, resolved,
}
use workcore.Runtime.Graph.{sources}
use workcore.Runtime.Config.{text, given, same_text}

-- `a <= b` on texts
abbrev pub le_text : String → String → Bool
le_text a b = is_le (compare a b)

-- A while node, and a node that selects one of its targets.
abbrev pub is_while : Node → Bool
is_while n = n.kind == "while"

abbrev pub selects : Node → Bool
selects n = n.kind == "if_else" || n.kind == "while"

abbrev pub same_branch : Option String → String → Bool
same_branch none target = false
same_branch (some s) target = s == target

-- `run.node_runs[id].status == RESOLVED`, false where there is no such node run
abbrev pub resolved_run : Option NodeRun → Bool
resolved_run none = false
resolved_run (some nr) = is_resolved nr.status

abbrev pub taken_run : Option NodeRun → Bool
taken_run none = false
taken_run (some nr) = is_taken nr.status

module _ (w : Workflow) (r : Run) where
  active_from : String → String → Node → Bool
  active_from source target n =
      if selects n then same_branch (get source r.branch_selection) target else true

  -- `_is_edge_active`; `none` is the `KeyError` of an edge from a node that the workflow lacks
  unfoldable pub is_edge_active : String → String → Option Bool
  unfolding active_from
  is_edge_active source target =
      if contains source r.skipped_nodes
      then some false
      else elim (get source w.nodes) [ none ↦ none | some n ↦ some (active_from source target n) ]

  -- The edges that the loop passes over at a while node: on reentry all but the one that loops
  -- back, at first that one.
  unfoldable pub passed_over : String → String → Bool
  passed_over node_id source = elim (get node_id w.nodes) [
    | none ↦ false
    | some n ↦
        is_while n
        && given (text n "loop_back")
        && (if has node_id r.loop_state
            then not (same_text (some source) (text n "loop_back"))
            else same_text (some source) (text n "loop_back"))
  ]

  -- The loop over the incoming edges.
  unfoldable pub check_sources : String → List String → Bool → Option Bool
  check_sources node_id [] has_active = some has_active
  check_sources node_id (source ∷ rest) has_active =
      let skipped = check_sources node_id rest has_active in
      let kept : Option Bool = elim (is_edge_active source node_id) [
        | none ↦ none
        | some false ↦ check_sources node_id rest has_active
        | some true ↦
            if resolved_run (get source r.node_runs)
            then check_sources node_id rest true
            else some false
      ] in
      if passed_over node_id source then skipped else kept

  abbrev after_sources : String → List String → Option Bool
  after_sources node_id [] = some true
  after_sources node_id (s ∷ ss) = check_sources node_id (s ∷ ss) false

  unfoldable pub dependencies_resolved : String → Option Bool
  dependencies_resolved node_id = after_sources node_id (sources w node_id)

  -- The `continue` of `_runnable_nodes`: a while node that is resolved is passed over once it has
  -- left its loop, any other node as soon as it is taken.
  unfoldable pub held : String → Node → Bool
  held node_id n =
      contains node_id r.skipped_nodes
      || (if is_while n && resolved_run (get node_id r.node_runs)
          then same_text (get node_id r.branch_selection) (text n "exit_target")
          else taken_run (get node_id r.node_runs))

  abbrev when_ready : Bool → Node → List Node → List Node
  when_ready true n rest = n ∷ rest
  when_ready false n rest = rest

  -- The loop over the nodes, before the sort.
  unfoldable pub ready_nodes : Dict Node → Option (List Node)
  ready_nodes [] = some []
  ready_nodes ((node_id, n) ∷ nodes) =
      let rest = ready_nodes nodes in
      let tried : Option (List Node) = elim (dependencies_resolved node_id) [
        | none ↦ none
        | some b ↦ elim (ready_nodes nodes) [ none ↦ none | some l ↦ some (when_ready b n l) ]
      ] in
      if held node_id n then rest else tried

-- `sorted(runnable, key=lambda n: n.id)`: stable insertion by id. Python compares texts by code
-- points, which the order of their UTF-8 bytes is.
unfoldable pub insert_node : Node → List Node → List Node
insert_node n [] = n ∷ []
insert_node n (m ∷ ms) = if le_text n.id m.id then n ∷ m ∷ ms else m ∷ insert_node n ms

unfoldable pub sort_nodes : List Node → List Node
unfolding insert_node
sort_nodes [] = []
sort_nodes (n ∷ ns) = insert_node n (sort_nodes ns)

unfoldable pub runnable_nodes : Workflow → Run → Option (List Node)
runnable_nodes w r = elim (ready_nodes w r w.nodes) [ none ↦ none | some l ↦ some (sort_nodes l) ]
