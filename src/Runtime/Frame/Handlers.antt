-- ===== src/Runtime/Frame/Handlers.antt =====
-- Every handler but that of a while node leaves the progress of the nodes alone.
use workcore.Prelude.{
  String, ◌≡◌, refl, ◌==◌, true, false, Option, none, some, List, [], ◌∷◌, arith, eq_iff,
}
use workcore.Dict.{get}
use workcore.Dict.Laws.{get-put}
use workcore.Value.{Value, Fields}
use workcore.Runtime.Models.{Node, NodeRun, Run, Interrupt, Workflow, RunStatus}
use workcore.Runtime.Env.{Env, ExecutorResult, Executor}
use workcore.Runtime.Writes.{set_output, set_state, set_status, edit, edit_node_run}
use workcore.Runtime.Branching.{select_branch, handle_if_else, handle_while}
use workcore.Runtime.SetState.{handle_start, handle_set_state, handle_output, assign_each}
use workcore.Runtime.Interaction.{suspend, handle_interaction, handle_approval, as_approval, new_id}
use workcore.Runtime.Execute.{handle}
use workcore.Runtime.Calls.{
  call, record_output, record_agent, merge_agent_output, handle_agent, handle_mcp,
  handle_integration_http,
}
use workcore.Runtime.Frame.{Same, Same-refl, progress}
use workcore.Runtime.Frame.Rules.{Frames, frame_rules}

module _ (id : String) where
  set_output-Same : (k : String) (v : Value) (r : Run) → Same id r (set_output k v r)
  set_output-Same k v r = record { progressed = λ k. refl; loops = refl; branches = λ k ne. refl }

  set_state-Same : (d : Fields) (r : Run) → Same id r (set_state d r)
  set_state-Same d r = record { progressed = λ k. refl; loops = refl; branches = λ k ne. refl }

  set_status-Same : (st : RunStatus) (r : Run) → Same id r (set_status st r)
  set_status-Same st r = record { progressed = λ k. refl; loops = refl; branches = λ k ne. refl }

  suspend-Same : (env : Env) (i : Interrupt) (r : Run) → Same id r (suspend env i r)
  unfolding suspend
  suspend-Same env i r = record { progressed = λ k. refl; loops = refl; branches = λ k ne. refl }

  select_branch-Same :
      (w : Workflow) (selected : String) (others : List String) (r : Run)
      → Same id r (select_branch w id selected others r)
  unfolding select_branch
  select_branch-Same w selected others r = record {
    progressed = λ k. refl;
    loops = refl;
    branches = λ k ne. ground (arith, get-put k id selected r.branch_selection, eq_iff id k);
  }

  edit-Same_of :
      (f : NodeRun → NodeRun) (k : String) (r : Run) (o : Option NodeRun)
      → ((nr : NodeRun) → progress (some (f nr)) ≡ progress (some nr))
      → get k r.node_runs ≡ o
      → Same id r (edit o f k r)
  edit-Same_of f k r none keeps e = Same-refl id r
  edit-Same_of f k r (some nr) keeps e = record {
    progressed = λ j. ground (arith, eq_iff k j, get-put j k (f nr) r.node_runs, keeps nr);
    loops = refl;
    branches = λ j ne. refl;
  }

  pub edit-Same :
      (f : NodeRun → NodeRun) (k : String) (r : Run)
      → ((nr : NodeRun) → progress (some (f nr)) ≡ progress (some nr))
      → Same id r (edit_node_run k f r)
  edit-Same f k r keeps = edit-Same_of f k r (get k r.node_runs) keeps refl

  edit_output-Same :
      (k : String) (res : ExecutorResult) (r : Run)
      → Same id r (edit_node_run k (record_output res) r)
  edit_output-Same k res r = edit-Same (record_output res) k r (λ nr. refl)

  edit_agent-Same :
      (k : String) (res : ExecutorResult) (r : Run)
      → Same id r (edit_node_run k (record_agent res) r)
  edit_agent-Same k res r = edit-Same (record_agent res) k r (λ nr. refl)

  output_and-Same :
      (k : String) (v : Value) (r : Run)
      → Same id r (set_output k v (record r { outputs = some v }))
  output_and-Same k v r = record { progressed = λ k. refl; loops = refl; branches = λ k ne. refl }

  ruleset writes = (
    frame_rules, set_output-Same, set_state-Same, set_status-Same, suspend-Same, select_branch-Same,
    edit_output-Same, edit_agent-Same, output_and-Same,
  )

  assign_each-Frames :
      (env : Env) (l : List (String × String)) (v : Value) (d : Fields)
      → Frames id (assign_each env l v d)
  unfolding assign_each
  assign_each-Frames env [] v d = search writes
  assign_each-Frames env ((t, e) ∷ rest) v d =
      let more : (v : Value) (d : Fields) → Frames id (assign_each env rest v d) =
        λ v d. assign_each-Frames env rest v d in
      search (writes, more) depth 12

  call-Frames : (x : Executor) (n : Node) → Frames id (call x n)
  unfolding call
  call-Frames x n = search writes

  handle_start-Frames : (n : Node) → Frames id (handle_start n)
  unfolding handle_start
  handle_start-Frames n = search writes

  handle_set_state-Frames : (env : Env) (n : Node) → Frames id (handle_set_state env n)
  unfolding handle_set_state
  handle_set_state-Frames env n = search (writes, assign_each-Frames) depth 12

  handle_output-Frames : (env : Env) (n : Node) → Frames id (handle_output env n)
  unfolding handle_output
  handle_output-Frames env n = search writes depth 12

  new_id-Frames : (env : Env) (p : String) → Frames id (new_id env p)
  unfolding new_id
  new_id-Frames env p = search writes depth 12

  handle_interaction-Frames : (env : Env) (n : Node) → Frames id (handle_interaction env n)
  unfolding handle_interaction
  handle_interaction-Frames env n = search (writes, new_id-Frames) depth 12

  handle_approval-Frames : (env : Env) (n : Node) → Frames id (handle_approval env n)
  unfolding handle_approval
  handle_approval-Frames env n = handle_interaction-Frames env (as_approval env n)

  merge_agent_output-Frames : (n : Node) (v : Value) → Frames id (merge_agent_output n v)
  unfolding merge_agent_output
  merge_agent_output-Frames n v = search writes depth 12

  handle_agent-Frames : (env : Env) (n : Node) → Frames id (handle_agent env n)
  unfolding handle_agent
  handle_agent-Frames env n = search (writes, call-Frames, merge_agent_output-Frames) depth 16

  handle_mcp-Frames : (env : Env) (n : Node) → Frames id (handle_mcp env n)
  unfolding handle_mcp
  handle_mcp-Frames env n = search (writes, call-Frames) depth 16

  handle_integration_http-Frames :
      (env : Env) (n : Node) → Frames id (handle_integration_http env n)
  unfolding handle_integration_http
  handle_integration_http-Frames env n = search (writes, call-Frames) depth 24

handle_if_else-Frames : (env : Env) (w : Workflow) (n : Node) → Frames n.id (handle_if_else env w n)
unfolding handle_if_else
handle_if_else-Frames env w n = search (frame_rules, select_branch-Same) depth 12

ruleset all_handlers = (
  handle_start-Frames, handle_set_state-Frames, handle_output-Frames, handle_interaction-Frames,
  handle_approval-Frames, handle_agent-Frames, handle_mcp-Frames, handle_integration_http-Frames,
  handle_if_else-Frames, set_status-Same, frame_rules,
)

no_while :
    (env : Env) (w : Workflow) (n : Node)
    → (n.kind == "while") ≡ false
    → (n.kind == "while") ≡ true
    → Frames n.id (handle_while env w n)
no_while env w n no_loop loop = cc

-- Whatever a handler does, returning or raising, the progress of every node, the loop counters
-- and the branches of the other nodes are as before, unless the node is a while node.
pub handle-Frames :
    (env : Env) (w : Workflow) (n : Node)
    → (n.kind == "while") ≡ false
    → Frames n.id (handle env w n)
unfolding handle
handle-Frames env w n other = search (all_handlers, no_while) depth 18
