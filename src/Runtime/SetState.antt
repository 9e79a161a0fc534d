-- ===== src/Runtime/SetState.antt =====
-- `_handle_start`, `_handle_set_state`, `_resolve_set_state_assignments` and `_handle_output`
pub mod Reads
use workcore.Prelude.{
  String, Bool, true, false, Option, none, some, List, [], ◌∷◌, ◌==◌, ◌||◌, if◌then◌else◌,
}
use workcore.Text.{strip, split_dots}
use workcore.Value.{Value, Items, nil, cons, Fields, null, str, arr, obj, end, field}
use workcore.Value.Object
use workcore.Value.Path.{set_parts}
use workcore.Runtime.Models.{Node, Run}
use workcore.Runtime.Env.{
  Result, ok, raise, Env, M, ◌>>=◌, ◌>>◌, fail, lift, pure, require, get_run, modify,
}
use workcore.Runtime.Config.{config, present}
use workcore.Runtime.Writes.{set_output, set_state, context}

-- `config.get("defaults", {})`, which `**` unpacks
unfoldable pub start_defaults : Option Value → Result Fields
start_defaults none = ok end
start_defaults (some (obj d)) = ok d
start_defaults (some _) = raise "object is not a mapping"

unfoldable pub handle_start : Node → M (Unit {0})
unfolding start_defaults
handle_start n = do
  defaults ← lift (start_defaults (config n "defaults"))
  modify (λ r. set_state (Object.update defaults r.inputs) r)
  modify (λ r. set_output n.id (obj r.state) r)

-- The text of a value without its outer spaces; empty where it is no text.
abbrev pub stripped : Option Value → String
stripped (some (str s)) = strip s
stripped _ = ""

unfoldable pub assignment : Fields → String → Result (String × String)
assignment d message =
    let target = stripped (Object.get "target" d) in
    let expression = stripped (Object.get "expression" d) in
    if target == "" || expression == "" then raise message else ok (target, expression)

unfoldable pub assignment_list : Items → Result (List (String × String))
unfolding assignment
assignment_list nil = ok []
assignment_list (cons (obj d) rest) =
    elim (assignment d "Set State assignments requires target and expression") [
      | raise e ↦ raise e
      | ok a ↦ elim (assignment_list rest) [ raise e ↦ raise e | ok more ↦ ok (a ∷ more) ]
    ]
assignment_list (cons _ rest) = raise "Set State assignments must be an object"

single_assignment : Node → Result (List (String × String))
unfolding assignment
single_assignment n =
    elim (assignment n.config "Set State requires target and expression or non-empty assignments") [
      | raise e ↦ raise e
      | ok a ↦ ok (a ∷ [])
    ]

from_list : Node → Option Value → Result (List (String × String))
unfolding single_assignment assignment_list
from_list n (some (arr (cons v vs))) = assignment_list (cons v vs)
from_list n _ = single_assignment n

-- `_resolve_set_state_assignments`
unfoldable pub resolve_assignments : Node → Result (List (String × String))
unfolding from_list
resolve_assignments n = from_list n (config n "assignments")

-- `_set_path(state, path, value)`; where it raises it has written nothing
unfoldable pub set_path : String → Value → Fields → Option Fields
set_path path v d = let (part, rest) = split_dots path in set_parts part rest v d

module _ (env : Env) where
  -- The loop over the assignments: each one is evaluated in the state that those before it left.
  -- It returns the last value and the patch.
  unfoldable pub assign_each : List (String × String) → Value → Fields → M (Value × Fields)
  assign_each [] last patch = pure (last, patch)
  assign_each ((target, expression) ∷ rest) last patch = do
    run ← get_run
    value ← lift (env.eval (str expression) (context run))
    state ← require (set_path target value run.state) "object does not support item assignment"
    modify (set_state state)
    patch' ← require (set_path target value patch) "object does not support item assignment"
    assign_each rest value patch'

  -- Of one assignment the output is the value, of several it is the patch.
  abbrev pub assigned : List (String × String) → Value → Fields → Value
  assigned (a ∷ []) last patch = last
  assigned _ last patch = obj patch

  unfoldable pub handle_set_state : Node → M (Unit {0})
  handle_set_state n = do
    assignments ← lift (resolve_assignments n)
    done ← assign_each assignments null end
    modify (set_output n.id (assigned assignments done.0 done.1))

  abbrev value_or_empty : Option Value → Value
  value_or_empty none = obj end
  value_or_empty (some v) = v

  abbrev computed : Node → Run → Option Value → Result Value
  computed n run none = ok (value_or_empty (config n "value"))
  computed n run (some e) = elim (env.eval e (context run)) [
    | raise m ↦ raise m
    | ok v ↦ ok (obj (field "result" v end))
  ]

  unfoldable pub handle_output : Node → M (Unit {0})
  handle_output n = do
    run ← get_run
    outputs ← lift (computed n run (present (config n "expression")))
    modify (λ r. set_output n.id outputs (record r { outputs = some outputs }))
