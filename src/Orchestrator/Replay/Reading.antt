-- ===== src/Orchestrator/Replay/Reading.antt =====
-- How `evaluate_routing_replay` reads a case.
use workcore.Prelude.{ℕ, suc, String, Option, none, some, ◌==◌, ◌<>◌, if◌then◌else◌}
use workcore.Prelude.Int.{pos}
use workcore.Text.{strip}
use workcore.Value.{Value, null, int, str, obj, Fields, end}
use workcore.Value.Object
use workcore.Orchestrator.World.{runtime_error, Outcome, ok, raise, Services}

-- A case once it is read: the fields that the loop uses.
pub record ReadCase : Type 0 where
  pub case_id : String
  pub message_text : String
  pub metadata : Fields
  pub active_workflow_id : Option String
  pub expected_action : Option String
  pub expected_workflow_id : Option String

abbrev pub nonblank_text : Option Value → Option String
nonblank_text (some (str s)) = if strip s == "" then none else some (strip s)
nonblank_text _ = none

abbrev pub text_or_else : Option String → String → String
text_or_else none other = other
text_or_else (some s) other = s

module _ {E : Type 0} (services : Services E) where
  abbrev pub bad_case : {A : Type 0} → ℕ → String → Outcome A
  bad_case at what = raise (
      runtime_error "INVALID_ARGUMENT" ("cases[" <> services.text_of (int (pos at)) <> "]" <> what)
        400)

  abbrev pub read_active : ℕ → Option String → Option Value → Outcome (Option String)
  read_active at before none = ok before
  read_active at before (some null) = ok none
  read_active at before (some (str s)) =
      if strip s == ""
      then bad_case at ".active_workflow_id must be a non-empty string or null"
      else ok (some (strip s))
  read_active at before (some _) =
      bad_case at ".active_workflow_id must be a non-empty string or null"

  abbrev pub read_metadata : ℕ → Option Value → Outcome Fields
  read_metadata at none = ok end
  read_metadata at (some null) = ok end
  read_metadata at (some (obj d)) = ok d
  read_metadata at (some _) = bad_case at ".metadata must be an object"

  abbrev pub read_rest :
      ℕ → Fields → String → Outcome Fields → Outcome (Option String) → Outcome ReadCase
  read_rest at d text (raise e) active = raise e
  read_rest at d text (ok metadata) (raise e) = raise e
  read_rest at d text (ok metadata) (ok active) = ok (record {
    case_id =
        text_or_else (nonblank_text (Object.get "case_id" d))
          ("case_" <> services.text_of (int (pos (suc at))));
    message_text = text;
    metadata = metadata;
    active_workflow_id = active;
    expected_action = nonblank_text (Object.get "expected_action" d);
    expected_workflow_id = nonblank_text (Object.get "expected_workflow_id" d);
  })

  abbrev pub read_message : ℕ → Option String → Fields → Option String → Outcome ReadCase
  read_message at before d none = bad_case at ".message_text must be a non-empty string"
  read_message at before d (some text) =
      read_rest at d text (read_metadata at (Object.get "metadata" d))
        (read_active at before (Object.get "active_workflow_id" d))

  -- The case at a position, which may name the workflow that is active.
  unfoldable pub read_case : ℕ → Option String → Value → Outcome ReadCase
  read_case at before (obj d) =
      read_message at before d (nonblank_text (Object.get "message_text" d))
  read_case at before _ = bad_case at " must be an object"
