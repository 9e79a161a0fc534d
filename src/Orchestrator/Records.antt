-- ===== src/Orchestrator/Records.antt =====
-- The records of orchestrator_runtime/store.py. A `datetime` counts microseconds.
use workcore.Prelude.{ℕ, String, Bool, Option, List}
use workcore.Prelude.Int.{Float}
use workcore.Value.{Value, Fields}

pub record ProjectRecord : Type 0 where
  pub project_id : String
  pub project_name : String
  pub tenant_id : String
  pub default_orchestrator_id : Option String
  pub settings : Fields
  pub created_at : ℕ
  pub updated_at : ℕ

pub record OrchestratorConfigRecord : Type 0 where
  pub tenant_id : String
  pub project_id : String
  pub orchestrator_id : String
  pub name : String
  pub routing_policy : Fields
  pub fallback_workflow_id : Option String
  pub prompt_profile : Option String
  pub created_at : ℕ
  pub updated_at : ℕ

pub record WorkflowDefinitionRecord : Type 0 where
  pub tenant_id : String
  pub project_id : String
  pub workflow_id : String
  pub name : String
  pub description : String
  pub tags : List String
  pub examples : List String
  pub active : Bool
  pub is_fallback : Bool
  pub created_at : ℕ
  pub updated_at : ℕ

pub record SessionStateRecord : Type 0 where
  pub tenant_id : String
  pub project_id : String
  pub session_id : String
  pub orchestrator_id : Option String
  pub active_run_id : Option String
  pub pending_disambiguation : Bool
  pub pending_question : Option String
  pub pending_options : List String
  pub disambiguation_turns : ℕ
  pub last_user_message_id : Option String
  pub created_at : ℕ
  pub updated_at : ℕ

pub record OrchestratorContextRecord : Type 0 where
  pub tenant_id : String
  pub project_id : String
  pub scope_type : String
  pub scope_id : String
  pub key : String
  pub value : Value
  pub created_at : ℕ
  pub updated_at : ℕ

pub record WorkflowStackEntryRecord : Type 0 where
  pub id : String
  pub tenant_id : String
  pub project_id : String
  pub session_id : String
  pub run_id : String
  pub stack_index : ℕ
  pub transition_reason : String
  pub from_run_id : Option String
  pub created_at : ℕ

-- A candidate as a decision records it.
pub record ScoredCandidate : Type 0 where
  pub workflow_id : String
  pub score : Float
  pub reason_codes : List String

pub record OrchestrationDecisionRecord : Type 0 where
  pub decision_id : String
  pub tenant_id : String
  pub project_id : String
  pub orchestrator_id : Option String
  pub session_id : String
  pub message_id : String
  pub mode : String
  pub active_run_id : Option String
  pub context_ref : Fields
  pub candidates : List ScoredCandidate
  pub chosen_action : String
  pub chosen_workflow_id : Option String
  pub confidence : Float
  pub latency_ms : ℕ
  pub model_id : Option String
  pub error_code : Option String
  pub created_at : ℕ
