-- ===== src/Runtime/Writes.antt =====
-- The writes of the engine to a run, field by field.
use workcore.Prelude.{String, Option, none, some, List, [], ◌∷◌, contains, if◌then◌else◌}
use workcore.Dict.{Dict, get, put, pop}
use workcore.Value.{Value, Fields}
use workcore.Runtime.Models.{Run, RunStatus, NodeStatus, NodeRun}
use workcore.Runtime.Env.{Context}

abbrev pub set_status : RunStatus → Run → Run
set_status status r = record r { status = status }

abbrev pub set_output : String → Value → Run → Run
set_output id v r = record r { node_outputs = put id v r.node_outputs }

abbrev pub set_state : Fields → Run → Run
set_state d r = record r { state = d }

-- `run.node_runs[id]`, where it is, through a function
abbrev pub edit : Option NodeRun → (NodeRun → NodeRun) → String → Run → Run
edit none f id r = r
edit (some nr) f id r = record r { node_runs = put id (f nr) r.node_runs }

abbrev pub edit_node_run : String → (NodeRun → NodeRun) → Run → Run
edit_node_run id f r = edit (get id r.node_runs) f id r

abbrev pub with_status : NodeStatus → NodeRun → NodeRun
with_status status nr = record nr { status = status }

abbrev pub pop_all {ℓ} : {V : Type ℓ} → List String → Dict V → Dict V
pop_all [] d = d
pop_all (k ∷ ks) d = pop_all ks (pop k d)

-- `s.add(k)`
abbrev pub add : String → List String → List String
add k s = if contains k s then s else k ∷ s

-- `_context`
abbrev pub context : Run → Context
context r = record { inputs = r.inputs; state = r.state; node_outputs = r.node_outputs }
