-- ===== src/Router/Payload.antt =====
-- `RoutingRequest.from_payload` of project_router/router.py. `str.lower` is a parameter, and the text of
-- a `ValueError` is fixed.
pub mod Laws
use workcore.Prelude.{
  ℕ, String, Bool, true, false, not, Option, none, some, List, [], ◌∷◌, ◌==◌, if◌then◌else◌,
}
use workcore.Prelude.Int.{Float}
use workcore.Text.{strip}
use workcore.Value.{Value, null, str, obj, Fields, end}
use workcore.Value.Object
use workcore.Router.{RoutingRequest}
use workcore.Router.CustomActions.{normalize_orchestrator_custom_action_payload}

-- A value, or a `ProjectRouterError` with its code, its message and its status.
pub data Checked (A : Type 0) : Type 0 where
  ok : A → Checked A
  rejected : String → String → ℕ → Checked A

infixl 5 ◌>>=◌
abbrev pub ◌>>=◌ : {A B : Type 0} → Checked A → (A → Checked B) → Checked B
ok a >>= f = f a
rejected code message status >>= f = rejected code message status

-- A text that is not blank, stripped; else the error.
abbrev pub needed : String → String → ℕ → Option Value → Checked String
needed code message status (some (str s)) =
    if strip s == "" then rejected code message status else ok (strip s)
needed code message status _ = rejected code message status

-- The same, or nothing where the key is missing or null.
abbrev pub optional : String → Option Value → Checked (Option String)
optional message none = ok none
optional message (some null) = ok none
optional message (some (str s)) =
    if strip s == "" then rejected "INVALID_ARGUMENT" message 400 else ok (some (strip s))
optional message (some _) = rejected "INVALID_ARGUMENT" message 400

-- A dict, or an empty one where the key is missing or null.
abbrev pub dict_or : String → Option Value → Checked Fields
dict_or message none = ok end
dict_or message (some null) = ok end
dict_or message (some (obj d)) = ok d
dict_or message (some _) = rejected "INVALID_ARGUMENT" message 400

abbrev pub needed_dict : String → Option Value → Checked Fields
needed_dict message (some (obj d)) = ok d
needed_dict message _ = rejected "INVALID_ARGUMENT" message 400

module _ (lower : String → String) where
  abbrev pub type_or : Option String → String
  type_or none = "threads.add_user_message"
  type_or (some t) = lower t

  abbrev pub normalized_or : Option Fields → Checked Fields
  normalized_or none = rejected "INVALID_ARGUMENT" "invalid projection paths" 400
  normalized_or (some d) = ok d

  module _ (to_float : String → Float) (order : List String) where
    abbrev pub action_payload_of : Fields → Checked Fields
    action_payload_of d =
        normalized_or (normalize_orchestrator_custom_action_payload to_float order d)

    -- The action's type and its payload; only a custom action has them.
    unfoldable pub action_of : String → String → Option Value → Checked (Option String × Fields)
    action_of message_type message_text payload =
        if message_type == "threads.custom_action"
        then (dict_or "message.payload must be an object for threads.custom_action" payload >>= λ d.
            action_payload_of d >>= λ normalized. ok (some message_text, normalized))
        else (dict_or "message.payload must be an object when provided" payload >>= λ d.
            ok (none, end))

    unfoldable pub from_fields : Fields → Checked RoutingRequest
    from_fields payload = do
      session_id ←
          needed "INVALID_ARGUMENT" "session_id is required" 400 (Object.get "session_id" payload)
      user_id ← needed "INVALID_ARGUMENT" "user_id is required" 400 (Object.get "user_id" payload)
      project_id ←
          needed "ERR_PROJECT_ID_REQUIRED" "project_id is required" 422
            (Object.get "project_id" payload)
      orchestrator_id ←
          optional "orchestrator_id must be a non-empty string or null"
            (Object.get "orchestrator_id" payload)
      workflow_id ←
          optional "workflow_id must be a non-empty string or null"
            (Object.get "workflow_id" payload)
      message ← needed_dict "message object is required" (Object.get "message" payload)
      message_id ← needed "INVALID_ARGUMENT" "message.id is required" 400 (Object.get "id" message)
      message_text ←
          needed "INVALID_ARGUMENT" "message.text is required" 400 (Object.get "text" message)
      metadata ← dict_or "metadata must be an object" (Object.get "metadata" payload)
      given_type ←
          optional "message.type must be a non-empty string when provided"
            (Object.get "type" message)
      action ← action_of (type_or given_type) message_text (Object.get "payload" message)
      ok (record {
        session_id = session_id;
        user_id = user_id;
        project_id = project_id;
        orchestrator_id = orchestrator_id;
        workflow_id = workflow_id;
        message_id = message_id;
        message_text = message_text;
        metadata = metadata;
        message_type = type_or given_type;
        action_type = action.0;
        action_payload = action.1;
      })

    unfoldable pub from_payload : Value → Checked RoutingRequest
    from_payload (obj payload) = from_fields payload
    from_payload _ = rejected "INVALID_ARGUMENT" "request body must be an object" 400
