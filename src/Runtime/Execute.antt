-- ===== src/Runtime/Execute.antt =====
-- `_execute_node` of runtime/engine.py: one attempt at one node
use workcore.Prelude.{
  ℕ, ◌+◌, String, Bool, false, not, ◌&&◌, Option, none, some, List, [], ◌∷◌, ◌++◌, ◌==◌, ◌<>◌,
  if◌then◌else◌,
}
use mathlib.Core.List.{reverse}
use workcore.Prelude.Int.{pos, Float, leb_ℤ, ltb_float}
use workcore.Text.{strip}
use workcore.Dict.{get, put, pop}
use workcore.Value.{Value, Fields, int, str, obj, end, field}
use workcore.Value.Object
use workcore.Runtime.Models.{
  Node, NodeRun, Workflow, Run, Event, running, failed, completed, to_do, in_progress, resolved,
  error, is_failed, is_waiting, is_settled,
}
use workcore.Runtime.Env.{
  Result, ok, raise, Env, State, M, ◌>>=◌, ◌>>◌, fail, lift, modify, set_run, event, observe,
}
use workcore.Runtime.Config.{config, text, present, same_text, seconds, max_retries}
use workcore.Runtime.Writes.{edit_node_run, set_status, with_status}
use workcore.Runtime.Branching.{handle_if_else, handle_while}
use workcore.Runtime.SetState.{handle_start, handle_set_state, handle_output}
use workcore.Runtime.Interaction.{handle_interaction, handle_approval}
use workcore.Runtime.Calls.{handle_agent, handle_mcp, handle_integration_http}

-- The error text of one entry of a payload: a text, or the `message` of an object.
nonblank : String → Option String
nonblank s = let t = strip s in if t == "" then none else some t

message_text : Option Value → Option String
unfolding nonblank
message_text (some (str s)) = nonblank s
message_text _ = none

entry_text : Option Value → Option String
unfolding message_text
entry_text (some (str s)) = nonblank s
entry_text (some (obj d)) = message_text (Object.get "message" d)
entry_text _ = none

abbrev or_text : Option String → Option String → Option String
or_text none other = other
or_text (some s) other = some s

-- `_error_text_from_payload`
unfoldable pub payload_error : Option Fields → Option String
unfolding entry_text
payload_error none = none
payload_error (some d) =
    or_text (entry_text (Object.get "error" d))
      (or_text (entry_text (Object.get "message" d)) (entry_text (Object.get "reason" d)))

-- `_extract_error_from_events`, over the events from the last to the first
first_error : List Event → Option String
first_error [] = none
first_error (e ∷ events) =
    let rest = first_error events in
    if e.kind == "node_failed"
    then or_text (payload_error e.payload) rest
    else if e.kind == "run_failed"
    then or_text (payload_error e.payload) rest
    else rest

unfoldable pub events_error : List Event → Option String
unfolding first_error
events_error events = first_error (reverse events)

abbrev pub fresh_node_run : String → NodeRun
fresh_node_run id = record {
  node_id = id;
  status = to_do;
  attempt = 1;
  output = none;
  last_error = none;
  trace_id = none;
  usage = none;
}

module _ (env : Env) (w : Workflow) where
  abbrev handle_end : M (Unit {0})
  handle_end = modify (set_status completed)

  -- `getattr(self, f"_handle_{node.type}", None)`, called
  unfoldable pub handle : Node → M (Unit {0})
  handle n =
      if n.kind == "start"
      then handle_start n
      else if n.kind == "if_else"
      then handle_if_else env w n
      else if n.kind == "while"
      then handle_while env w n
      else if n.kind == "set_state"
      then handle_set_state env n
      else if n.kind == "interaction"
      then handle_interaction env n
      else if n.kind == "approval"
      then handle_approval env n
      else if n.kind == "agent"
      then handle_agent env n
      else if n.kind == "mcp"
      then handle_mcp env n
      else if n.kind == "integration_http"
      then handle_integration_http env n
      else if n.kind == "output"
      then handle_output env n
      else if n.kind == "end"
      then handle_end
      else fail ("Unknown node type: " <> n.kind)

  -- The check of `timeout_s` once the handler has returned.
  over_limit : Node → Float → Float → Result (Unit {0})
  over_limit n limit elapsed =
      if ltb_float limit elapsed
      then raise ("Node " <> n.id <> " exceeded timeout (" <> env.two_decimals elapsed <> "s)")
      else ok tt

  unfoldable pub timed : Node → Option Value → ℕ → Result (Unit {0})
  unfolding over_limit
  timed n none at = ok tt
  timed n (some limit) at = elim (seconds env limit) [
    | raise e ↦ raise e
    | ok x ↦ over_limit n x (env.elapsed at)
  ]

  -- The body of the `try` up to the first use of `emitted`.
  unfoldable pub attempt : Node → M (Unit {0})
  unfolding timed
  attempt n = do handle n; at ← observe; lift (timed n (present (config n "timeout_s")) at)

  abbrev or_fallback : Node → Option String → Option String
  or_fallback n none = some ("Node " <> n.id <> " failed without explicit error")
  or_fallback n (some e) = some e

  abbrev filled : Node → Option String → Option String → Option String
  filled n none found = or_fallback n found
  filled n (some e) found = if e == "" then or_fallback n found else some e

  -- Where no error text was recorded, the one of the emitted events, or a fallback.
  abbrev explain : Option String → Node → NodeRun → NodeRun
  explain found n nr = record nr { status = error; last_error = filled n nr.last_error found }

  -- After an attempt that did not raise: the events, and the run with the node's new status.
  unfoldable pub conclude : Node → List Event → List Event → Run → List Event × Run
  conclude n started emitted r =
      if is_failed r.status
      then (started ++ emitted, edit_node_run n.id (explain (events_error emitted) n) r)
      else if is_waiting r.status
      then (started ++ emitted, r)
      else (
        started ++ (emitted ++ (event "node_completed" r (some n.id) none ∷ [])),
        edit_node_run n.id (with_status resolved) r,
      )

  abbrev pub retry_node_run : String → NodeRun → NodeRun
  retry_node_run message nr = record nr {
    status = to_do;
    attempt = nr.attempt + 1;
    output = none;
    last_error = some message;
  }

  abbrev pub failed_node_run : String → NodeRun → NodeRun
  failed_node_run message nr = record nr { status = error; last_error = some message }

  -- `except Exception as exc`: the node is tried again while its attempts allow, or the run fails.
  unfoldable pub recover : Node → String → List Event → NodeRun → Run → List Event × Run
  recover n message started nr r =
      if leb_ℤ (pos nr.attempt) (max_retries env n)
      then (
        started
            ++ (event "node_retry" r (some n.id) (
                  some (
                    field "attempt" (int (pos (nr.attempt + 1))) (field "error" (str message) end)))
                ∷ []),
        record r {
          node_runs = put n.id (retry_node_run message nr) r.node_runs;
          node_outputs = pop n.id r.node_outputs;
          status = running;
        },
      )
      else (
        started
            ++ (event "node_failed" r (some n.id) (some (field "error" (str message) end)) ∷ []),
        record r { node_runs = put n.id (failed_node_run message nr) r.node_runs; status = failed },
      )

  -- The node's run, entered where there is none.
  unfoldable pub enter : Node → Run → Run
  enter n r = elim (get n.id r.node_runs) [
    | none ↦ record r { node_runs = put n.id (fresh_node_run n.id) r.node_runs }
    | some nr ↦ r
  ]

  -- Whether `_execute_node` returns at once: the node is settled, and is no loop to be reentered.
  unfoldable pub finished : Node → Run → Bool
  finished n r = elim (get n.id r.node_runs) [
    | none ↦ false
    | some nr ↦
        is_settled nr.status
        && not (
            n.kind == "while"
            && not (same_text (get n.id r.branch_selection) (text n "exit_target")))
  ]

  abbrev pub node_run_or : Node → Option NodeRun → NodeRun
  node_run_or n none = fresh_node_run n.id
  node_run_or n (some nr) = nr

  abbrev pub settle : Node → List Event → Result (Unit {0}) → State → List Event × Run
  settle n started (ok done) s = conclude n started s.emitted s.run
  settle n started (raise e) s =
      recover n e started (node_run_or n (get n.id s.run.node_runs)) s.run

  -- The attempt and what follows it.
  unfoldable pub run_attempt : Node → State → List Event × State
  run_attempt n s =
      let started = event "node_started" s.run (some n.id) none ∷ [] in
      let begun : State = record {
        run = edit_node_run n.id (with_status in_progress) s.run;
        tick = s.tick;
        emitted = [];
      } in
      let (result, s') = attempt n begun in
      let (events, r) = settle n started result s' in
      (events, record { run = r; tick = s'.tick; emitted = [] })

  unfoldable pub execute_node : Node → State → List Event × State
  execute_node n s =
      let r = enter n s.run in
      let ran = run_attempt n (set_run s r) in if finished n r then ([], set_run s r) else ran
