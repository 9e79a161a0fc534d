-- ===== src/Runtime/Branching.antt =====
-- `_handle_if_else`, `_handle_while` and `_reset_loop_body` of runtime/engine.py
pub mod Skips
use workcore.Prelude.{
  ℕ, ◌+◌, String, Bool, true, false, not, ◌||◌, ◌&&◌, Option, none, some, List, [], ◌∷◌, ◌++◌, ◌==◌,
  contains, select, if◌then◌else◌,
}
use workcore.Dict.{get_or, put}
use workcore.Value.{Value, Items, nil, cons, Fields, obj, truthy, as_text}
use workcore.Value.Object
use workcore.Runtime.Models.{Node, Workflow, Run}
use workcore.Runtime.Graph.{reachable_from, reverse_reachable_from}
use workcore.Runtime.Env.{
  Result, ok, raise, Context, Env, M, ◌>>=◌, ◌>>◌, fail, lift, require, get_run, modify,
}
use workcore.Runtime.Config.{config, text, present, given, reaches, iterate}
use workcore.Runtime.Writes.{pop_all, add, context}

-- `_eval_bool`
unfoldable pub eval_bool : Env → Value → Context → Result Bool
eval_bool env expression ctx = elim (env.eval expression ctx) [
  | raise e ↦ raise e
  | ok v ↦ ok (truthy v)
]

-- What the loop over the branches has so far: the selected target and the targets seen.
pub record Choice : Type 0 where
  pub selected : Option String
  pub targets : List String

abbrev seen_target : Option String → List String → List String
seen_target none ts = ts
seen_target (some t) ts = if t == "" then ts else ts ++ (t ∷ [])

-- The condition is evaluated while nothing is selected, where it and the target are there.
test_branch : Env → Context → Option Value → Option String → Option String → Result (Option String)
test_branch env ctx condition target (some s) = ok (some s)
test_branch env ctx none target none = ok none
test_branch env ctx (some c) none none = ok none
test_branch env ctx (some c) (some t) none = elim (eval_bool env c ctx) [
  | raise e ↦ raise e
  | ok true ↦ ok (some t)
  | ok false ↦ ok none
]

scan_branch : Env → Context → Fields → Choice → Result Choice
unfolding test_branch
scan_branch env ctx branch c =
    let target = as_text (Object.get "target" branch) in
    elim (test_branch env ctx (present (Object.get "condition" branch)) target c.selected) [
      | raise e ↦ raise e
      | ok selected ↦ ok (record { selected = selected; targets = seen_target target c.targets })
    ]

unfoldable pub scan_branches : Env → Context → Items → Choice → Result Choice
unfolding scan_branch
scan_branches env ctx nil c = ok c
scan_branches env ctx (cons (obj branch) rest) c = elim (scan_branch env ctx branch c) [
  | raise e ↦ raise e
  | ok c' ↦ scan_branches env ctx rest c'
]
scan_branches env ctx (cons _ rest) c = raise "object has no attribute 'get'"

abbrev or_text : Option String → Option String → Option String
or_text none other = other
or_text (some s) other = some s

abbrev other_else : String → Option String → List String
other_else selected none = []
other_else selected (some e) = if not (e == "") && not (e == selected) then e ∷ [] else []

-- `other_targets`
unfoldable pub others : String → List String → Option String → List String
others selected targets else_target =
    select (λ t. not (t == selected)) targets ++ other_else selected else_target

-- The nodes of `found` that the selected branch does not reach join the skipped ones.
abbrev pub skip_each : List String → List String → List String → List String
skip_each kept [] skipped = skipped
skip_each kept (n ∷ found) skipped =
    skip_each kept found (if contains n kept then skipped else add n skipped)

abbrev pub skip_targets : Workflow → List String → List String → List String → List String
skip_targets w kept [] skipped = skipped
skip_targets w kept (t ∷ ts) skipped =
    skip_targets w kept ts (skip_each kept (reachable_from w t) skipped)

-- `branch_selection` and `skipped_nodes` after the choice
unfoldable pub select_branch : Workflow → String → String → List String → Run → Run
select_branch w id selected other_targets r = record r {
  branch_selection = put id selected r.branch_selection;
  skipped_nodes = skip_targets w (reachable_from w selected) other_targets r.skipped_nodes;
}

-- `if not selected: raise`
unfoldable pub chosen : Option String → Result String
chosen none = raise "If/Else node has no selected target"
chosen (some s) = if s == "" then raise "If/Else node has no selected target" else ok s

module _ (env : Env) (w : Workflow) (n : Node) where
  unfoldable pub handle_if_else : M (Unit {0})
  unfolding chosen scan_branches
  handle_if_else = do
    items ← lift (iterate (config n "branches"))
    run ← get_run
    choice ← lift (scan_branches env (context run) items (record { selected = none; targets = [] }))
    let else_target = text n "else_target"
    selected ← lift (chosen (or_text choice.selected else_target))
    modify (select_branch w n.id selected (others selected choice.targets else_target))

  -- `_reset_loop_body`, with the while node itself excluded
  unfoldable pub loop_body : String → String → List String
  loop_body body_target loop_back =
      let backward = reverse_reachable_from w loop_back in
      select (λ k. contains k backward && not (k == n.id)) (reachable_from w body_target)

  unfoldable pub reset_loop_body : String → String → Run → Run
  reset_loop_body body_target loop_back r = record r {
    node_runs = pop_all (loop_body body_target loop_back) r.node_runs;
    node_outputs = pop_all (loop_body body_target loop_back) r.node_outputs;
  }

  -- The branch taken when the condition holds: one more iteration, and the body is run again.
  unfoldable pub enter_body : ℕ → String → String → Run → Run
  enter_body iterations body_target loop_back r = reset_loop_body body_target loop_back (record r {
    loop_state = put n.id (iterations + 1) r.loop_state;
    branch_selection = put n.id body_target r.branch_selection;
  })

  unfoldable pub leave_loop : String → Run → Run
  leave_loop exit_target r = record r { branch_selection = put n.id exit_target r.branch_selection }

  abbrev pub nonempty : Option String → Option String
  nonempty none = none
  nonempty (some s) = if s == "" then none else some s

  abbrev pub branch : Bool → ℕ → String → String → String → M (Unit {0})
  branch true iterations body_target exit_target loop_back =
      modify (enter_body iterations body_target loop_back)
  branch false iterations body_target exit_target loop_back = modify (leave_loop exit_target)

  unfoldable pub handle_while : M (Unit {0})
  handle_while = do
    condition ←
        require (present (config n "condition")) "While node requires condition and max_iterations"
    max_iterations ←
        require (present (config n "max_iterations"))
          "While node requires condition and max_iterations"
    body_target ←
        require (nonempty (text n "body_target"))
          "While node requires body_target, exit_target, and loop_back"
    exit_target ←
        require (nonempty (text n "exit_target"))
          "While node requires body_target, exit_target, and loop_back"
    loop_back ←
        require (nonempty (text n "loop_back"))
          "While node requires body_target, exit_target, and loop_back"
    run ← get_run
    let iterations = get_or n.id 0 run.loop_state
    spent ← lift (reaches iterations max_iterations)
    lift (if spent then raise "While node exceeded max_iterations" else ok tt)
    again ← lift (eval_bool env condition (context run))
    branch again iterations body_target exit_target loop_back
