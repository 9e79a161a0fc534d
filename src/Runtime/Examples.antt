-- ===== src/Runtime/Examples.antt =====
-- Tests on small workflows, and the theorems at concrete runs.
use workcore.Prelude.{
  suc, ◌+◌, ◌<◌, String, ◌≡◌, ◌≢◌, ◌↔◌, ◌⊎◌, refl, true, false, not, ◌&&◌, ◌||◌, none, some, List,
  [], ◌∷◌, ◌++◌, arith, contains, any, map, if◌then◌else◌, ◌==◌,
}
use workcore.Prelude.Int.{pos}
use workcore.Dict.{get, put}
use workcore.Value.{Value, arr, cons, nil, boolean, str, int, obj, end, field}
use workcore.Value.Object
use workcore.Runtime.Models.{Node, Run, Event, Interrupt, Workflow, is_running, cancelled, opened}
use workcore.Runtime.Env.{State, set_run}
use workcore.Runtime.Graph.{reachable_from, reverse_reachable_from, targets, sources}
use workcore.Runtime.Graph.Walk.{Reaches}
use workcore.Runtime.Graph.Adjacency.{adjacency, out_edges, in_edges}
use workcore.Runtime.Graph.Reachable.{reachable_from_correct, reverse_reachable_from_correct}
use workcore.Runtime.Schedule.{
  runnable_nodes, dependencies_resolved, ready_nodes, sort_nodes, insert_node, check_sources,
  passed_over, is_edge_active, held,
}
use workcore.Runtime.Schedule.Ready.{Sourced}
use workcore.Runtime.Schedule.Exact.{
  runs, ids, all, counts, is_done, runnable_nodes-exact, dependencies_resolved-exact,
}
use workcore.Runtime.Work.{IsKeyed, work, caps, pending_at, cap_at, loop_left_at}
use workcore.Runtime.Config.{config, max_retries}
use workcore.Text.{split_dots, strip}
use workcore.Value.Path.{set_parts}
use workcore.Runtime.Work.Execute.{execute_node-work}
use workcore.Runtime.Execute.{execute_node, enter, finished}
use workcore.Runtime.Engine.{
  blocked, closing_events, start_run, execute_until_blocked, resume_interrupt,
}
use workcore.Runtime.Engine.Termination.{execute_until_blocked-IsBlocked}
use workcore.Runtime.Engine.Resume.{
  execute_until_blocked-stopped, resume_interrupt-once, GoesOn, Settled,
}
use workcore.Runtime.Branching.{handle_if_else, enter_body}
use workcore.Runtime.Branching.Skips.{Chose, handle_if_else-skips, enter_body-resets}
use workcore.Runtime.Config.{iterate}
use workcore.Runtime.SetState.{set_path}
use workcore.Runtime.SetState.Reads.{get_path, set_path-read}
use workcore.Runtime.Projection.{
  select_path, apply_state_exclude_paths, segments, is_valid_projection_path,
}
use workcore.Runtime.Projection.Excluded.{apply_state_exclude_paths-hides}
use workcore.Runtime.Samples.{plain_env, choice_flow, started, node, edge}

choice_flow-IsKeyed : IsKeyed choice_flow
unfolding get
choice_flow-IsKeyed = (refl, refl, (refl, refl, (refl, refl, (refl, refl, (refl, refl, tt)))))

choice_flow-Sourced : Sourced choice_flow.edges choice_flow
unfolding get
choice_flow-Sourced = (refl, (refl, (refl, (refl, tt))))

enough : suc (work plain_env choice_flow started.run) < 40
unfolding work start_run caps pending_at cap_at loop_left_at get config max_retries Object.get
enough = omega arith

ends_example :
    (events : List Event) × (t : State) × (execute_until_blocked plain_env choice_flow 40 started
      ≡ blocked (events ++ closing_events t.run) t)
    × ((is_running t.run.status ≡ false) ⊎ (runnable_nodes choice_flow t.run ≡ some []))
ends_example =
    execute_until_blocked-IsBlocked plain_env choice_flow 40 started choice_flow-IsKeyed
      choice_flow-Sourced enough

reach_example :
    (contains "end" (reachable_from choice_flow "choose") ≡ true)
    ↔ ∥ Reaches (targets choice_flow) "choose" "end" ∥₁
reach_example = reachable_from_correct choice_flow "choose" "end" (unfold get in refl)

reverse_example :
    (contains "start" (reverse_reachable_from choice_flow "end") ≡ true)
    ↔ ∥ Reaches (sources choice_flow) "end" "start" ∥₁
reverse_example = reverse_reachable_from_correct choice_flow "end" "start"

adjacency_example :
    (targets choice_flow "choose" ≡ out_edges "choose" choice_flow.edges)
    × (sources choice_flow "choose" ≡ in_edges "choose" choice_flow.edges)
adjacency_example = adjacency choice_flow "choose"

path_example :
    (get_path "form.answer" (field "form" (obj (field "answer" (boolean true) end)) end)
      ≡ some (boolean true))
    × ((k : String)
        → k ≢ "form"
        → Object.get k (field "form" (obj (field "answer" (boolean true) end)) end)
          ≡ Object.get k end)
unfolding set_path set_parts split_dots Object.get Object.put
path_example =
    set_path-read "form.answer" (boolean true) end
      (field "form" (obj (field "answer" (boolean true) end)) end) refl

-- At first the start node can be run, and nothing else.
first_runnable : runnable_nodes choice_flow started.run ≡ some ((node "start" "start" end).1 ∷ [])
unfolding runnable_nodes ready_nodes sort_nodes insert_node dependencies_resolved check_sources
    passed_over is_edge_active held sources targets get start_run put
first_runnable = refl

runnable_example :
    contains "ask" (ids choice_flow started.run ((node "start" "start" end).1 ∷ []))
    ≡ runs choice_flow started.run "ask"
runnable_example =
    runnable_nodes-exact choice_flow started.run ((node "start" "start" end).1 ∷ []) "ask"
      choice_flow-IsKeyed first_runnable

dependencies_example :
    dependencies_resolved choice_flow started.run "end"
    ≡ some (
        all
          (λ s. not (counts choice_flow started.run "end" s) || is_done choice_flow started.run s)
          ("ask" ∷ [])
        && any
            (λ s. counts choice_flow started.run "end" s && is_done choice_flow started.run s)
            ("ask" ∷ []))
dependencies_example = dependencies_resolved-exact choice_flow started.run "end" choice_flow-Sourced

abbrev chooser : Node
chooser =
    (node "choose" "if_else" (
      field "branches"
        (arr (cons (obj (field "condition" (str "go") (field "target" (str "ask") end))) nil))
        (field "else_target" (str "end2") end))).1

skips_example :
    Chose plain_env choice_flow chooser
      (cons (obj (field "condition" (str "go") (field "target" (str "ask") end))) nil)
      started
      (handle_if_else plain_env choice_flow chooser started)
unfolding iterate config get Object.get
skips_example =
    handle_if_else-skips plain_env choice_flow chooser
      (cons (obj (field "condition" (str "go") (field "target" (str "ask") end))) nil) started refl

work_example :
    let t = (execute_node plain_env choice_flow (node "start" "start" end).1 started).1 in
    (work plain_env choice_flow t.run < work plain_env choice_flow started.run)
    ⊎ (is_running t.run.status ≡ false)
work_example =
    execute_node-work plain_env choice_flow (node "start" "start" end).1 started
      (unfold get in refl) (unfold finished enter start_run get put in refl)

-- A run that was cancelled while it asked, and its interrupt, which is open still.
abbrev question : Interrupt
question = record {
  id = "int_1";
  run_id = "run_a0";
  node_id = "ask";
  kind = str "interaction";
  status = opened;
  prompt = str "Hi Ada!";
  input_schema = none;
  allow_file_upload = false;
  input = none;
  files = none;
  state_target = some "form.answer";
}

abbrev cancelled_state : State
cancelled_state =
    set_run started
      (record started.run { status = cancelled; interrupts = ("int_1", question) ∷ [] })

resume_example :
    (q : Run) × GoesOn plain_env choice_flow 9 cancelled_state
      (resume_interrupt plain_env choice_flow 9 "int_1" none none cancelled_state)
      q
    × Settled plain_env choice_flow cancelled_state "int_1" question end [] q
unfolding get
resume_example =
    resume_interrupt-once plain_env choice_flow 9 cancelled_state "int_1" none none question refl
      refl

stopped_example :
    (events : List Event) × (execute_until_blocked plain_env choice_flow 1 cancelled_state
      ≡ blocked events cancelled_state)
    × (map (λ e. e.kind) events ≡ [])
    × (map (λ e. e.run_id) events ≡ [])
stopped_example = execute_until_blocked-stopped plain_env choice_flow 0 cancelled_state refl

-- start → again → step → again, with again → end
abbrev loop_flow : Workflow
loop_flow = record {
  id = "wf_loop";
  version_id = "v1";
  nodes =
      node "start" "start" end
      ∷ node "again" "while" (
          field "condition" (str "go") (
            field "max_iterations" (int (pos 2)) (
              field "body_target" (str "step")
                (field "exit_target" (str "end") (field "loop_back" (str "step") end)))))
      ∷ node "step" "set_state" (field "target" (str "x") (field "expression" (str "go") end))
      ∷ node "end" "end" end
      ∷ [];
  edges =
      edge "start" "again" ∷ edge "again" "step" ∷ edge "step" "again" ∷ edge "again" "end" ∷ [];
}

resets_example :
    let q =
      enter_body plain_env loop_flow (node "again" "while" end).1 0 "step" "step" started.run in
    ((v : String)
      → let reset =
          contains v (reachable_from loop_flow "step")
          && (contains v (reverse_reachable_from loop_flow "step") && not (v == "again")) in
        (get v q.node_runs ≡ (if reset then none else get v started.run.node_runs))
        × (get v q.node_outputs ≡ (if reset then none else get v started.run.node_outputs)))
    × (get "again" q.loop_state ≡ some (0 + 1))
    × (get "again" q.branch_selection ≡ some "step")
resets_example =
    enter_body-resets plain_env loop_flow (node "again" "while" end).1 0 "step" "step" started.run

-- A state with two secrets in a list.
abbrev secrets : Value
secrets = obj (field "users" (arr (cons (obj (field "token" (str "a") end)) nil)) end)

hides_example :
    select_path
      (apply_state_exclude_paths secrets ("users.*.token" ∷ "x" ∷ []))
      (segments "users.*.token")
    ≡ none
unfolding is_valid_projection_path strip split_dots
hides_example =
    apply_state_exclude_paths-hides secrets ("users.*.token" ∷ "x" ∷ []) "users.*.token" refl refl
