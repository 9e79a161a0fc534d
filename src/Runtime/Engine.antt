-- ===== src/Runtime/Engine.antt =====
-- The operations of `OrchestratorEngine`: `start_run`, `execute_until_blocked`,
-- `resume_interrupt` and `rerun_node` of runtime/engine.py
pub mod Resume
pub mod Rerun
pub mod Termination
use workcore.Prelude.{
  ℕ, zero, suc, ◌+◌, String, Bool, true, false, not, ◌&&◌, ◌||◌, Option, none, some, List, [], ◌∷◌,
  ◌++◌, ◌==◌, ◌<>◌, contains, if◌then◌else◌,
}
use mathlib.Core.List.{reverse}
use workcore.Dict.{Dict, get, put, pop, has, values}
use workcore.Value.{Value, Fields, str, obj, arr, nil, cons, end, field}
use workcore.Value.Object
use workcore.Runtime.Models.{
  Node, NodeRun, Workflow, Run, Event, Interrupt, RunStatus, NodeStatus, running, resolved, settled,
  is_running, is_completed, is_failed, is_waiting, is_open, error,
}
use workcore.Runtime.Graph.{collect_downstream}
use workcore.Runtime.Env.{Result, ok, raise, Env, State, set_run, event}
use workcore.Runtime.Writes.{edit_node_run, with_status, pop_all, set_state, set_output, set_status}
use workcore.Runtime.SetState.{set_path}
use workcore.Runtime.Execute.{execute_node}
use workcore.Runtime.Schedule.{runnable_nodes}

-- How an operation ends: blocked, with its events; by an exception; or, in this model alone, out
-- of fuel. A run is mutated in place, so what was done before an exception stays.
pub data Outcome : Type 0 where
  blocked : List Event → State → Outcome
  raised : String → State → Outcome
  out_of_fuel : Outcome

abbrev pub is_nil {ℓ} : {A : Type ℓ} → List A → Bool
is_nil [] = true
is_nil (x ∷ xs) = false

-- The last node run of those given that meets the test.
abbrev pub first_with : (NodeRun → Bool) → List NodeRun → Option NodeRun
first_with p [] = none
first_with p (nr ∷ rest) = let later = first_with p rest in if p nr then some nr else later

abbrev pub has_error : Option String → Bool
has_error none = false
has_error (some e) = not (e == "")

abbrev pub is_error : NodeStatus → Bool
is_error error = true
is_error _ = false

pub record Diagnostics : Type 0 where
  pub node_id : Option String
  pub error_text : String
  pub trace_id : Option String

abbrev text_or : Option String → String → String
text_or none t = t
text_or (some s) t = s

-- The node run that explains a failure: the last one with an error text, or else the last one
-- whose status is an error.
abbrev explained : Option NodeRun → Option NodeRun → Diagnostics
explained (some nr) other = record {
  node_id = some nr.node_id;
  error_text = text_or nr.last_error "Run failed without explicit error";
  trace_id = nr.trace_id;
}
explained none (some nr) = record {
  node_id = some nr.node_id;
  error_text = "Run failed without explicit error";
  trace_id = nr.trace_id;
}
explained none none = record {
  node_id = none;
  error_text = "Run failed without explicit error";
  trace_id = none;
}

-- `_run_failure_diagnostics`
unfoldable pub run_failure_diagnostics : Run → Diagnostics
run_failure_diagnostics r =
    let node_runs = reverse (values r.node_runs) in
    explained (first_with (λ nr. has_error nr.last_error) node_runs)
      (first_with (λ nr. is_error nr.status) node_runs)

abbrev add_text : String → Option String → Fields → Fields
add_text key none d = d
add_text key (some s) d = if s == "" then d else field key (str s) d

unfoldable pub failure_event : Run → Event
unfolding run_failure_diagnostics
failure_event r =
    let d = run_failure_diagnostics r in
    event "run_failed" r d.node_id (
      some (
        field "error" (str d.error_text)
          (add_text "trace_id" d.trace_id (add_text "node_id" d.node_id end))))

-- The events that follow the loop of `execute_until_blocked`, by the status of the run.
unfoldable pub closing_events : Run → List Event
unfolding failure_event
closing_events r =
    if is_completed r.status
    then event "run_completed" r none none ∷ []
    else if is_failed r.status
    then failure_event r ∷ []
    else if is_waiting r.status
    then event "run_waiting_for_input" r none none ∷ []
    else []

unfoldable pub opening_events : Run → List Event
opening_events r =
    if is_running r.status && is_nil r.node_runs then event "run_started" r none none ∷ [] else []

abbrev pub mode_or : Option String → String
mode_or none = "live"
mode_or (some m) = if m == "" then "live" else m

module _ (env : Env) (w : Workflow) where
  -- `start_run`
  unfoldable pub start_run : Fields → Option String → Fields → ℕ → State
  start_run inputs mode metadata tick = record {
    run = record {
      id = "run_" <> env.hex tick;
      workflow_id = w.id;
      version_id = w.version_id;
      status = running;
      inputs = inputs;
      state = end;
      mode = mode_or mode;
      outputs = none;
      node_runs = [];
      node_outputs = [];
      interrupts = [];
      branch_selection = [];
      loop_state = [];
      skipped_nodes = [];
      metadata = metadata;
    };
    tick = suc tick;
    emitted = [];
  }

  -- `for node in runnable`, left as soon as the run is not running
  unfoldable pub execute_round : List Node → State → List Event × State
  execute_round [] s = ([], s)
  execute_round (n ∷ ns) s =
      let (events, s') = execute_node env w n s in
      let rest = execute_round ns s' in
      if is_running s'.run.status then (events ++ rest.0, rest.1) else (events, s')

  -- `while run.status == RUNNING`
  unfoldable pub execute_loop : ℕ → List Event → State → Outcome
  execute_loop zero events s = out_of_fuel
  execute_loop (suc fuel) events s =
      let looked : Outcome = elim (runnable_nodes w s.run) [
        | none ↦ raised "KeyError" s
        | some [] ↦ blocked events s
        | some (n ∷ ns) ↦
            let (more, s') = execute_round (n ∷ ns) s in execute_loop fuel (events ++ more) s'
      ] in
      if is_running s.run.status then looked else blocked events s

  abbrev pub close : Outcome → Outcome
  close (blocked events s) = blocked (events ++ closing_events s.run) s
  close other = other

  unfoldable pub execute_until_blocked : ℕ → State → Outcome
  execute_until_blocked fuel s = close (execute_loop fuel (opening_events s.run) s)

  -- What `resume_interrupt` writes to the interrupt.
  abbrev pub answer : Fields → List Value → Interrupt → Interrupt
  answer input files i = record i { status = settled; input = some input; files = some files }

  -- `run.state.setdefault("interrupts", {})[interrupt.id] = interrupt.input`
  abbrev pub note_input : String → Fields → Option Value → Fields → Option Fields
  note_input id input none state =
      some (Object.put "interrupts" (obj (field id (obj input) end)) state)
  note_input id input (some (obj d)) state =
      some (Object.put "interrupts" (obj (Object.put id (obj input) d)) state)
  note_input id input (some v) state = none

  -- The write at the state target, where there is one.
  abbrev pub target_input : Option String → Fields → Fields → Option Fields
  target_input none input state = some state
  target_input (some t) input state = if t == "" then some state else set_path t (obj input) state

  abbrev files_or : Option (List Value) → List Value
  files_or none = []
  files_or (some l) = l

  abbrev input_or : Option Fields → Fields
  input_or none = end
  input_or (some d) = d

  -- The writes to the state and the outputs, made if the input is not empty. The run comes back
  -- beside an exception too.
  unfoldable pub apply_input : Interrupt → Fields → Run → Result (Unit {0}) × Run
  apply_input i end r = (ok tt, r)
  apply_input i (field k v d) r =
      let input = field k v d in
      elim (note_input i.id input (Object.get "interrupts" r.state) r.state) [
        | none ↦ (raise "object does not support item assignment", r)
        | some noted ↦ elim (target_input i.state_target input noted) [
          | none ↦ (raise "object does not support item assignment", set_state noted r)
          | some state ↦ (ok tt, set_output i.node_id (obj input) (set_state state r))
        ]
      ]

  -- The node run is resolved and the run goes on.
  unfoldable pub reopen : Interrupt → Run → Run
  reopen i r = set_status running (edit_node_run i.node_id (with_status resolved) r)

  unfoldable pub settle_interrupt : String → Interrupt → Fields → List Value → Run → Run
  settle_interrupt key i input files r = record r {
    interrupts = put key (answer input files i) r.interrupts;
  }

  abbrev resume_with : ℕ → String → Interrupt → Fields → List Value → State → Outcome
  resume_with fuel key i input files s =
      let (result, r) = apply_input i input (settle_interrupt key i input files s.run) in
      let resumed = execute_until_blocked fuel (set_run s (reopen i r)) in
      let stopped = λ (e : String). raised e (set_run s r) in
      elim result [ raise e ↦ stopped e | ok done ↦ resumed ]

  unfoldable pub resume_interrupt :
      ℕ → String → Option Fields → Option (List Value) → State → Outcome
  resume_interrupt fuel interrupt_id input files s = elim (get interrupt_id s.run.interrupts) [
    | none ↦ raised "Interrupt not found or not open" s
    | some i ↦
        if is_open i.status
        then resume_with fuel interrupt_id i (input_or input) (files_or files) s
        else raised "Interrupt not found or not open" s
  ]

  -- The nodes that a rerun resets.
  unfoldable pub reset_nodes : String → String → Result (List String)
  reset_nodes node_id scope =
      if scope == "downstream"
      then ok (node_id ∷ collect_downstream w node_id)
      else if scope == "node_only"
      then ok (node_id ∷ [])
      else raise "Invalid scope"

  abbrev pub forget : List String → Run → Run
  forget ids r = record r {
    node_runs = pop_all ids r.node_runs;
    node_outputs = pop_all ids r.node_outputs;
  }

  unfoldable pub rerun_node : String → String → Run → Result Run
  rerun_node node_id scope r =
      if has node_id w.nodes
      then elim (reset_nodes node_id scope) [ raise e ↦ raise e | ok ids ↦ ok (forget ids r) ]
      else raise "Unknown node_id"
