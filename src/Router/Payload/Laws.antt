-- ===== src/Router/Payload/Laws.antt =====
-- What an accepted request says, and which errors a rejected one has.
use workcore.Prelude.{ℕ, String, ◌≡◌, ◌⊎◌, Bool, true, false, Option, none, some, List, ◌==◌}
use workcore.Prelude.Int.{Float}
use workcore.Value.{Value, Fields}
use workcore.Value.Object
use workcore.Router.{RoutingRequest}
use workcore.Router.Payload.{Checked, ok, rejected}

-- The errors of a request's body.
abbrev pub Refusal : String → ℕ → Type 0
Refusal code status =
    ((code ≡ "INVALID_ARGUMENT") × (status ≡ 400))
    ⊎ ((code ≡ "ERR_PROJECT_ID_REQUIRED") × (status ≡ 422))

abbrev pub Passes : {A : Type 0} → (A → Type 0) → Checked A → Type 0
Passes P (ok a) = P a
Passes P (rejected code message status) = Refusal code status

abbrev pub Filled : String → Type 0
Filled s = (s == "") ≡ false

abbrev pub FilledIfGiven : Option String → Type 0
FilledIfGiven none = Unit
FilledIfGiven (some s) = Filled s

-- Only a custom action has a type, which is the message's text.
abbrev pub ActionOf : Bool → String → Option String → Type 0
ActionOf true text action_type = action_type ≡ some text
ActionOf false text action_type = action_type ≡ none

pub record Accepted (r : RoutingRequest) : Type 0 where
  pub session : Filled r.session_id
  pub user : Filled r.user_id
  pub project : Filled r.project_id
  pub message : Filled r.message_id
  pub text : Filled r.message_text
  pub orchestrator : FilledIfGiven r.orchestrator_id
  pub workflow : FilledIfGiven r.workflow_id
  pub action : ActionOf (r.message_type == "threads.custom_action") r.message_text r.action_type

module _ (lower : String → String) (to_float : String → Float) (order : List String) where
  abbrev pub ActionFor : String → String → Option String × Fields → Type 0
  ActionFor kind text (action_type, d) = ActionOf (kind == "threads.custom_action") text action_type
