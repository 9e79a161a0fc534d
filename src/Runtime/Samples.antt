-- ===== src/Runtime/Samples.antt =====
-- Runs of small workflows, for the tests and for the examples of the theorems.
use workcore.Prelude.{ℕ, String, true, Option, none, some, List, [], ◌∷◌, map}
use workcore.Prelude.Int.{pos, of_int}
use workcore.Value.{Value, Fields, null, boolean, str, arr, obj, nil, cons, end, field}
use workcore.Value.Object
use workcore.Runtime.Models.{Node, Edge, Workflow, Event, RunStatus}
use workcore.Runtime.Env.{Result, ok, raise, Env, Context, State}
use workcore.Runtime.Engine.{Outcome, blocked, start_run}

-- An evaluator that reads a key of the state.
abbrev pub read_state : Value → Context → Result Value
read_state (str k) ctx = elim (Object.get k ctx.state) [ none ↦ ok null | some v ↦ ok v ]
read_state _ ctx = raise "no expression"

abbrev pub plain_env : Env
plain_env = record {
  eval = read_state;
  executor = λ name. none;
  hex = λ n. elim n [ ℕ.zero ↦ "a0" | _ ↦ "a1" ];
  elapsed = λ n. of_int (pos 0);
  parse_float = λ s. none;
  parse_int = λ s. none;
  text_of = λ v. "";
  two_decimals = λ x. "";
}

abbrev pub node : String → String → Fields → String × Node
node id kind d = (id, record { id = id; kind = kind; config = d })

abbrev pub edge : String → String → Edge
edge a b = record { source = a; target = b }

-- start → choose → ask → end, or start → choose → end2
abbrev pub choice_flow : Workflow
choice_flow = record {
  id = "wf";
  version_id = "v1";
  nodes =
      node "start" "start" end
      ∷ node "choose" "if_else" (
          field "branches"
            (arr (cons (obj (field "condition" (str "go") (field "target" (str "ask") end))) nil))
            (field "else_target" (str "end2") end))
      ∷ node "ask" "interaction"
          (field "prompt" (str "Hi {{ name }}!") (field "state_target" (str "form.answer") end))
      ∷ node "end" "end" end
      ∷ node "end2" "end" end
      ∷ [];
  edges =
      edge "start" "choose" ∷ edge "choose" "ask" ∷ edge "ask" "end" ∷ edge "choose" "end2" ∷ [];
}

abbrev pub status_of : Outcome → Option RunStatus
status_of (blocked events s) = some s.run.status
status_of _ = none

abbrev pub kinds_of : Outcome → List String
kinds_of (blocked events s) = map (λ (e : Event). e.kind) events
kinds_of _ = []

abbrev pub going : Fields
going = field "go" (boolean true) (field "name" (str "Ada") end)

abbrev pub started : State
started = start_run plain_env choice_flow going none end 0
