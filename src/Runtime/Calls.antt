-- ===== src/Runtime/Calls.antt =====
-- The handlers that call an executor: `_handle_agent` with the merge of its output into the
-- state, `_handle_mcp` and `_handle_integration_http`
use workcore.Prelude.{
  String, Bool, true, false, not, ◌&&◌, ◌||◌, Option, none, some, [], ◌∷◌, ◌==◌, if◌then◌else◌,
}
use workcore.Text.{strip, lower_in}
use workcore.Value.{Value, Fields, null, boolean, str, obj, end, field}
use workcore.Value.Object
use workcore.Runtime.Models.{Node, NodeRun}
use workcore.Runtime.Env.{
  Result, ok, raise, Env, Context, Executor, ExecutorResult, M, ◌>>=◌, ◌>>◌, lift, require, get_run,
  modify, observe, emit_all,
}
use workcore.Runtime.Config.{config, present}
use workcore.Runtime.Writes.{edit_node_run, set_output, set_state, context}
use workcore.Runtime.Interaction.{rendered}
use workcore.Runtime.SetState.{set_path, stripped}
use workcore.Runtime.AgentMode.{resolve_executor}

-- `executor(run, node, emit)`
unfoldable pub call : Executor → Node → M ExecutorResult
call executor n = do
  run ← get_run
  at ← observe
  let called = executor run n at
  emit_all n.id called.emitted
  lift called.result

-- `config[key] = self._render_template(config[key], context)`, where it is a text with something
-- in it
unfoldable pub render_key : Env → Context → String → Fields → Result Fields
render_key env ctx key d = elim (Object.get key d) [
  | none ↦ ok d
  | some v ↦ elim (rendered env ctx v) [ raise e ↦ raise e | ok w ↦ ok (Object.put key w d) ]
]

unfoldable pub with_config : Node → Fields → Node
with_config n d = record n { config = d }

merge_flag : Option Value → Option Bool
merge_flag (some (boolean b)) = some b
merge_flag (some (str s)) =
    let t = strip s in
    if lower_in t ("1" ∷ "true" ∷ "yes" ∷ "on" ∷ [])
    then some true
    else if lower_in t ("0" ∷ "false" ∷ "no" ∷ "off" ∷ [])
    then some false
    else none
merge_flag _ = none

-- A dash in the name of a format counts as an underscore: both spellings are listed.
json_format : Option Value → Bool
json_format (some (str s)) =
    lower_in (strip s) ("json" ∷ "json_schema" ∷ "json-schema" ∷ "jsonschema" ∷ [])
json_format _ = false

absent_format : Option Value → Bool
absent_format none = true
absent_format (some v) = not (workcore.Value.truthy v)

is_there : Option Value → Bool
is_there none = false
is_there (some v) = true

-- `_should_auto_merge_agent_output`
unfoldable pub should_auto_merge : Node → Bool
unfolding merge_flag json_format absent_format is_there
should_auto_merge n = elim (merge_flag (config n "merge_output_to_state")) [
  | some b ↦ b
  | none ↦
      json_format (config n "output_format")
      || (is_there (present (config n "output_schema")) && absent_format (config n "output_format"))
]

-- The items of the output with a key, each written at its key.
unfoldable pub merge_items : Fields → Fields → Fields
merge_items end state = state
merge_items (field k v rest) state =
    merge_items rest (if k == "" then state else Object.put k v state)

merge_output : Bool → Value → Fields → Fields
merge_output true (obj d) state = merge_items d state
merge_output _ v state = state

abbrev written : Option Fields → Result Fields
written none = raise "object does not support item assignment"
written (some d) = ok d

-- `_merge_agent_output_into_state`
unfoldable pub merge_agent_output : Node → Value → M (Unit {0})
unfolding merge_output
merge_agent_output n output = do
  run ← get_run
  let target = stripped (config n "state_target")
  state ← lift (
      if target == ""
      then ok (merge_output (should_auto_merge n) output run.state)
      else written (set_path target output run.state))
  modify (set_state state)

abbrev pub record_output : ExecutorResult → NodeRun → NodeRun
record_output result nr = record nr { output = some result.output }

abbrev pub record_agent : ExecutorResult → NodeRun → NodeRun
record_agent result nr = record nr {
  output = some result.output;
  trace_id = result.trace_id;
  usage = result.usage;
}

module _ (env : Env) (n : Node) where
  unfoldable pub handle_agent : M (Unit {0})
  handle_agent = do
    run ← get_run
    executor ← lift (resolve_executor env run)
    instructed ← lift (render_key env (context run) "instructions" n.config)
    resolved ← lift (render_key env (context run) "user_input" instructed)
    result ← call executor (with_config n resolved)
    modify (set_output n.id result.output)
    merge_agent_output (with_config n resolved) result.output
    modify (edit_node_run n.id (record_agent result))

  unfoldable pub handle_mcp : M (Unit {0})
  handle_mcp = do
    executor ← require (env.executor "mcp") "MCP executor not configured"
    result ← call executor n
    modify (set_output n.id result.output)
    modify (edit_node_run n.id (record_output result))

  -- The headers that are not `None`, with their values as rendered texts.
  abbrev render_header : Context → Value → Result Value
  render_header ctx v = elim (rendered env ctx (str (env.text_of v))) [
    | raise e ↦ raise e
    | ok w ↦ ok w
  ]

  unfoldable pub render_headers : Context → Fields → Fields → Result Fields
  render_headers ctx end done = ok done
  render_headers ctx (field k null rest) done = render_headers ctx rest done
  render_headers ctx (field k v rest) done = elim (render_header ctx v) [
    | raise e ↦ raise e
    | ok w ↦ render_headers ctx rest (Object.put k w done)
  ]

  abbrev render_header_key : Context → Option Value → Fields → Result Fields
  render_header_key ctx (some (obj headers)) d = elim (render_headers ctx headers end) [
    | raise e ↦ raise e
    | ok done ↦ ok (Object.put "headers" (obj done) d)
  ]
  render_header_key ctx _ d = ok d

  abbrev body_message : String
  body_message = "integration_http request_body_expression must be a non-empty string"

  abbrev request_body : Context → Option Value → Fields → Result Fields
  request_body ctx none d = ok d
  request_body ctx (some (str s)) d =
      if strip s == "" then raise body_message else elim (env.eval (str s) ctx) [
        | raise e ↦ raise e
        | ok v ↦ ok (Object.put "request_body" v d)
      ]
  request_body ctx (some v) d = raise body_message

  -- `if isinstance(target, str) and target.strip(): self._set_path(run.state, …)`
  abbrev store_at : String → Value → Fields → Option Fields
  store_at target v state = if target == "" then some state else set_path target v state

  -- `output["body"]` where there is one, else the output
  abbrev body_or : Option Value → Value → Value
  body_or none output = output
  body_or (some v) output = v

  abbrev body_value : Value → Value
  body_value (obj d) = body_or (Object.get "body" d) (obj d)
  body_value v = v

  unfoldable pub handle_integration_http : M (Unit {0})
  handle_integration_http = do
    executor ← require (env.executor "integration_http") "integration_http executor not configured"
    run ← get_run
    let ctx = context run
    addressed ← lift (render_key env ctx "url" n.config)
    headed ← lift (render_header_key ctx (Object.get "headers" addressed) addressed)
    resolved ←
        lift (request_body ctx (present (Object.get "request_body_expression" headed)) headed)
    result ← call executor (with_config n resolved)
    modify (set_output n.id result.output)
    run ← get_run
    whole ←
        require
          (store_at (stripped (Object.get "response_state_target" resolved)) result.output
            run.state)
          "object does not support item assignment"
    modify (set_state whole)
    part ←
        require
          (store_at (stripped (Object.get "response_body_state_target" resolved))
            (body_value result.output) whole)
          "object does not support item assignment"
    modify (set_state part)
    modify (edit_node_run n.id (record_output result))
