-- ===== src/Orchestrator/Store/Sessions.antt =====
-- Of `InMemoryOrchestrationStore`: workflow definitions, sessions, the stack of a session and its
-- decisions.
use workcore.Prelude.{
  ℕ, String, Bool, not, ◌&&◌, ◌||◌, Option, none, some, List, [], ◌∷◌, ◌++◌, ◌==◌, length, take,
  select,
}
use workcore.Sorting.{latest_by}
use workcore.Table.{find, insert, rows}
use workcore.Orchestrator.Records.{
  WorkflowDefinitionRecord, SessionStateRecord, WorkflowStackEntryRecord,
  OrchestrationDecisionRecord,
}
use workcore.Orchestrator.Store.{OrchestrationStore, list_or}

unfoldable pub get_workflow_definition :
    String → String → String → OrchestrationStore → Option WorkflowDefinitionRecord
get_workflow_definition project_id workflow_id tenant_id s =
    find (tenant_id ∷ project_id ∷ workflow_id ∷ []) s.workflow_definitions

unfoldable pub list_workflow_definitions :
    String → String → Bool → OrchestrationStore → List WorkflowDefinitionRecord
list_workflow_definitions project_id tenant_id active_only s =
    latest_by (λ r. r.updated_at)
      (select
        (λ r.
          r.project_id == project_id && r.tenant_id == tenant_id && (r.active || not active_only))
        (rows s.workflow_definitions))

abbrev pub new_definition :
    ℕ
    → String
    → String
    → String
    → String
    → String
    → List String
    → List String
    → Bool
    → Bool
    → WorkflowDefinitionRecord
new_definition now project_id workflow_id tenant_id name description tags examples active
      is_fallback =
    record {
      tenant_id = tenant_id;
      project_id = project_id;
      workflow_id = workflow_id;
      name = name;
      description = description;
      tags = tags;
      examples = examples;
      active = active;
      is_fallback = is_fallback;
      created_at = now;
      updated_at = now;
    }

abbrev pub updated_definition :
    ℕ
    → String
    → String
    → List String
    → List String
    → Bool
    → Bool
    → WorkflowDefinitionRecord
    → WorkflowDefinitionRecord
updated_definition now name description tags examples active is_fallback r = record r {
  name = name;
  description = description;
  tags = tags;
  examples = examples;
  active = active;
  is_fallback = is_fallback;
  updated_at = now;
}

unfoldable pub upsert_workflow_definition :
    ℕ
    → String
    → String
    → String
    → String
    → String
    → Option (List String)
    → Option (List String)
    → Bool
    → Bool
    → OrchestrationStore
    → WorkflowDefinitionRecord × OrchestrationStore
upsert_workflow_definition now project_id workflow_id tenant_id name description tags examples
      active is_fallback s =
    let key = tenant_id ∷ project_id ∷ workflow_id ∷ [] in
    let r : WorkflowDefinitionRecord = elim (find key s.workflow_definitions) [
      | some existing ↦
          updated_definition now name description (list_or tags) (list_or examples) active
            is_fallback existing
      | none ↦
          new_definition now project_id workflow_id tenant_id name description (list_or tags)
            (list_or examples) active is_fallback
    ] in
    (r, record s { workflow_definitions = insert key r s.workflow_definitions })

abbrev pub first? {ℓ} : {A : Type ℓ} → List A → Option A
first? [] = none
first? (x ∷ xs) = some x

unfoldable pub get_fallback_workflow_definition :
    String → String → OrchestrationStore → Option WorkflowDefinitionRecord
get_fallback_workflow_definition project_id tenant_id s = first? (
    latest_by (λ r. r.updated_at)
      (select
        (λ r. r.project_id == project_id && r.tenant_id == tenant_id && r.active && r.is_fallback)
        (rows s.workflow_definitions)))

unfoldable pub get_session_state :
    String → String → String → OrchestrationStore → Option SessionStateRecord
get_session_state project_id session_id tenant_id s =
    find (tenant_id ∷ project_id ∷ session_id ∷ []) s.session_states

-- The stored record with what is saved.
abbrev pub saved_onto : ℕ → SessionStateRecord → SessionStateRecord → SessionStateRecord
saved_onto now state existing = record existing {
  orchestrator_id = state.orchestrator_id;
  active_run_id = state.active_run_id;
  pending_disambiguation = state.pending_disambiguation;
  pending_question = state.pending_question;
  pending_options = state.pending_options;
  disambiguation_turns = state.disambiguation_turns;
  last_user_message_id = state.last_user_message_id;
  updated_at = now;
}

abbrev pub saved_new : ℕ → SessionStateRecord → SessionStateRecord
saved_new now state = record state { created_at = now; updated_at = now }

abbrev pub session_key : SessionStateRecord → List String
session_key state = state.tenant_id ∷ state.project_id ∷ state.session_id ∷ []

unfoldable pub save_session_state :
    ℕ → SessionStateRecord → OrchestrationStore → SessionStateRecord × OrchestrationStore
save_session_state now state s =
    let r : SessionStateRecord = elim (find (session_key state) s.session_states) [
      | some existing ↦ saved_onto now state existing
      | none ↦ saved_new now state
    ] in
    (r, record s { session_states = insert (session_key state) r s.session_states })

abbrev pub stack_of : List String → OrchestrationStore → List WorkflowStackEntryRecord
stack_of key s = list_or (find key s.stack_entries)

unfoldable pub append_stack_entry :
    ℕ
    → String
    → String
    → String
    → String
    → String
    → String
    → Option String
    → OrchestrationStore
    → WorkflowStackEntryRecord × OrchestrationStore
append_stack_entry now id project_id session_id tenant_id run_id transition_reason from_run_id s =
    let key = tenant_id ∷ project_id ∷ session_id ∷ [] in
    let entry : WorkflowStackEntryRecord = record {
      id = id;
      tenant_id = tenant_id;
      project_id = project_id;
      session_id = session_id;
      run_id = run_id;
      stack_index = length (stack_of key s);
      transition_reason = transition_reason;
      from_run_id = from_run_id;
      created_at = now;
    } in
    (
      entry,
      record s { stack_entries = insert key (stack_of key s ++ (entry ∷ [])) s.stack_entries },
    )

unfoldable pub list_stack :
    String → String → String → OrchestrationStore → List WorkflowStackEntryRecord
list_stack project_id session_id tenant_id s = stack_of (tenant_id ∷ project_id ∷ session_id ∷ []) s

abbrev pub decisions_of : List String → OrchestrationStore → List OrchestrationDecisionRecord
decisions_of key s = list_or (find key s.decisions)

unfoldable pub save_decision : OrchestrationDecisionRecord → OrchestrationStore → OrchestrationStore
save_decision d s =
    let key = d.tenant_id ∷ d.project_id ∷ d.session_id ∷ [] in
    record s { decisions = insert key (decisions_of key s ++ (d ∷ [])) s.decisions }

unfoldable pub list_recent_decisions :
    String → String → String → ℕ → OrchestrationStore → List OrchestrationDecisionRecord
list_recent_decisions project_id session_id tenant_id limit s =
    take limit
      (latest_by (λ d. d.created_at) (decisions_of (tenant_id ∷ project_id ∷ session_id ∷ []) s))
