-- ===== src/Orchestrator/Store.antt =====
-- `InMemoryOrchestrationStore` of orchestrator_runtime/store.py. An operation takes the time of its
-- `_now()` as an argument. A project's context is kept under its normalised id.
pub mod Sessions
pub mod Contexts
pub mod Laws
pub mod Invariants
use workcore.Prelude.{
  ℕ, ◌+◌, String, Bool, true, false, not, ◌&&◌, ◌||◌, Option, none, some, List, [], ◌∷◌, ◌++◌, ◌==◌,
  length, take, select, if◌then◌else◌,
}
use workcore.Sorting.{latest_by, sort_text}
use workcore.Table.{Table, find, insert, erase, filter_rows, rows}
use workcore.Text.{strip}
use workcore.Value.{Value, Fields, end, field}
use workcore.Value.Object
use workcore.Orchestrator.Records.{
  ProjectRecord, OrchestratorConfigRecord, WorkflowDefinitionRecord, SessionStateRecord,
  OrchestratorContextRecord, WorkflowStackEntryRecord, OrchestrationDecisionRecord,
}
use workcore.Orchestrator.ProjectName.{resolve_project_name}

pub record OrchestrationStore : Type 0 where
  pub projects : Table ProjectRecord
  pub orchestrator_configs : Table OrchestratorConfigRecord
  pub workflow_definitions : Table WorkflowDefinitionRecord
  pub session_states : Table SessionStateRecord
  pub context_entries : Table OrchestratorContextRecord
  pub stack_entries : Table (List WorkflowStackEntryRecord)
  pub decisions : Table (List OrchestrationDecisionRecord)

abbrev pub fields_or : Option Fields → Fields
fields_or none = end
fields_or (some d) = d

abbrev pub fields_else : Option Fields → Fields → Fields
fields_else none own = own
fields_else (some d) own = d

abbrev pub text_else : Option String → Option String → Option String
text_else none own = own
text_else (some t) own = if t == "" then own else some t

abbrev pub list_or {ℓ} : {A : Type ℓ} → Option (List A) → List A
list_or none = []
list_or (some l) = l

unfoldable pub get_project : String → String → OrchestrationStore → Option ProjectRecord
get_project project_id tenant_id s = find (tenant_id ∷ project_id ∷ []) s.projects

unfoldable pub list_projects : String → ℕ → OrchestrationStore → List ProjectRecord
list_projects tenant_id limit s = take limit (
    latest_by (λ r. r.updated_at)
      (sort_text (λ r. r.project_id) (select (λ r. r.tenant_id == tenant_id) (rows s.projects))))

module _ (title : String → String) where
  abbrev pub new_project :
      ℕ → String → String → Option String → Option String → Option Fields → ProjectRecord
  new_project now project_id tenant_id project_name default_orchestrator_id settings = record {
    project_id = project_id;
    project_name = resolve_project_name title project_id project_name;
    tenant_id = tenant_id;
    default_orchestrator_id = default_orchestrator_id;
    settings = fields_or settings;
    created_at = now;
    updated_at = now;
  }

  -- `none` is the `ProjectConflictError`
  unfoldable pub create_project :
      ℕ
      → String
      → String
      → Option String
      → Option String
      → Option Fields
      → OrchestrationStore
      → Option ProjectRecord × OrchestrationStore
  create_project now project_id tenant_id project_name default_orchestrator_id settings s =
      let r = new_project now project_id tenant_id project_name default_orchestrator_id settings in
      elim (find (tenant_id ∷ project_id ∷ []) s.projects) [
        | some existing ↦ (none, s)
        | none ↦ (some r, record s { projects = insert (tenant_id ∷ project_id ∷ []) r s.projects })
      ]

  abbrev pub put_project :
      String → String → ProjectRecord → OrchestrationStore → ProjectRecord × OrchestrationStore
  put_project project_id tenant_id r s =
      (r, record s { projects = insert (tenant_id ∷ project_id ∷ []) r s.projects })

  abbrev pub updated_project :
      ℕ → String → Option String → Option String → Option Fields → ProjectRecord → ProjectRecord
  updated_project now project_id project_name default_orchestrator_id settings r = record r {
    project_name =
        resolve_project_name title project_id (text_else project_name (some r.project_name));
    default_orchestrator_id = text_else default_orchestrator_id r.default_orchestrator_id;
    settings = fields_else settings r.settings;
    updated_at = now;
  }

  unfoldable pub upsert_project :
      ℕ
      → String
      → String
      → Option String
      → Option String
      → Option Fields
      → OrchestrationStore
      → ProjectRecord × OrchestrationStore
  upsert_project now project_id tenant_id project_name default_orchestrator_id settings s =
      elim (find (tenant_id ∷ project_id ∷ []) s.projects) [
        | some r ↦
            put_project project_id tenant_id
              (updated_project now project_id project_name default_orchestrator_id settings r) s
        | none ↦
            put_project project_id tenant_id
              (new_project now project_id tenant_id project_name default_orchestrator_id settings) s
      ]

  abbrev renamed : String → Option String → ProjectRecord → ProjectRecord
  renamed project_id none r = r
  renamed project_id (some n) r = record r {
    project_name = resolve_project_name title project_id (some n);
  }

  -- `merge_project_settings`
  abbrev resettled : Option Fields → ProjectRecord → ProjectRecord
  resettled none r = r
  resettled (some patch) r = record r { settings = Object.update r.settings patch }

  abbrev stamped : ℕ → ProjectRecord → ProjectRecord
  stamped now r = record r { updated_at = now }

  abbrev pub patched_project :
      ℕ → String → Option String → Option Fields → ProjectRecord → ProjectRecord
  patched_project now project_id project_name settings r =
      stamped now (resettled settings (renamed project_id project_name r))

  unfoldable pub update_project :
      ℕ
      → String
      → String
      → Option String
      → Option Fields
      → OrchestrationStore
      → Option ProjectRecord × OrchestrationStore
  update_project now project_id tenant_id project_name settings s =
      elim (find (tenant_id ∷ project_id ∷ []) s.projects) [
        | none ↦ (none, s)
        | some r ↦
            let r' = patched_project now project_id project_name settings r in
            (some r', record s { projects = insert (tenant_id ∷ project_id ∷ []) r' s.projects })
      ]

-- `item_key[0] == tenant_id and item_key[1] == project_id`
abbrev pub in_project : String → String → List String → Bool
in_project tenant_id project_id (t ∷ p ∷ rest) = t == tenant_id && p == project_id
in_project tenant_id project_id _ = false

abbrev pub outside {ℓ} : {V : Type ℓ} → String → String → Table V → Table V
outside tenant_id project_id = filter_rows (λ k v. not (in_project tenant_id project_id k))

abbrev pub without_project : String → String → OrchestrationStore → OrchestrationStore
without_project tenant_id project_id s = record {
  projects = erase (tenant_id ∷ project_id ∷ []) s.projects;
  orchestrator_configs = outside tenant_id project_id s.orchestrator_configs;
  workflow_definitions = outside tenant_id project_id s.workflow_definitions;
  session_states = outside tenant_id project_id s.session_states;
  context_entries =
      filter_rows (λ k v. not (v.tenant_id == tenant_id && v.project_id == project_id))
        s.context_entries;
  stack_entries = outside tenant_id project_id s.stack_entries;
  decisions = outside tenant_id project_id s.decisions;
}

unfoldable pub delete_project : String → String → OrchestrationStore → Bool × OrchestrationStore
delete_project project_id tenant_id s = elim (find (tenant_id ∷ project_id ∷ []) s.projects) [
  | none ↦ (false, s)
  | some deleted ↦ (true, without_project tenant_id project_id s)
]

unfoldable pub get_orchestrator_config :
    String → String → String → OrchestrationStore → Option OrchestratorConfigRecord
get_orchestrator_config project_id orchestrator_id tenant_id s =
    find (tenant_id ∷ project_id ∷ orchestrator_id ∷ []) s.orchestrator_configs

unfoldable pub list_orchestrator_configs :
    String → String → OrchestrationStore → List OrchestratorConfigRecord
list_orchestrator_configs project_id tenant_id s =
    latest_by (λ r. r.updated_at)
      (select (λ r. r.project_id == project_id && r.tenant_id == tenant_id)
        (rows s.orchestrator_configs))

abbrev pub new_config :
    ℕ
    → String
    → String
    → String
    → String
    → Option Fields
    → Option String
    → Option String
    → OrchestratorConfigRecord
new_config now project_id orchestrator_id name tenant_id routing_policy fallback prompt = record {
  tenant_id = tenant_id;
  project_id = project_id;
  orchestrator_id = orchestrator_id;
  name = name;
  routing_policy = fields_or routing_policy;
  fallback_workflow_id = fallback;
  prompt_profile = prompt;
  created_at = now;
  updated_at = now;
}

abbrev pub updated_config :
    ℕ
    → String
    → Option Fields
    → Option String
    → Option String
    → OrchestratorConfigRecord
    → OrchestratorConfigRecord
updated_config now name routing_policy fallback prompt r = record r {
  name = name;
  routing_policy = fields_else routing_policy r.routing_policy;
  fallback_workflow_id = fallback;
  prompt_profile = prompt;
  updated_at = now;
}

-- The project's default orchestrator, where the project is there.
abbrev pub set_default : ℕ → String → String → String → OrchestrationStore → OrchestrationStore
set_default now project_id orchestrator_id tenant_id s =
    elim (find (tenant_id ∷ project_id ∷ []) s.projects) [
      | none ↦ s
      | some p ↦ record s {
        projects =
            insert (tenant_id ∷ project_id ∷ [])
              (record p { default_orchestrator_id = some orchestrator_id; updated_at = now })
              s.projects;
      }
    ]

unfoldable pub upsert_orchestrator_config :
    ℕ
    → String
    → String
    → String
    → String
    → Option Fields
    → Option String
    → Option String
    → Bool
    → OrchestrationStore
    → OrchestratorConfigRecord × OrchestrationStore
upsert_orchestrator_config now project_id orchestrator_id name tenant_id routing_policy fallback
      prompt set_as_default s =
    let key = tenant_id ∷ project_id ∷ orchestrator_id ∷ [] in
    let r : OrchestratorConfigRecord = elim (find key s.orchestrator_configs) [
      | some existing ↦ updated_config now name routing_policy fallback prompt existing
      | none ↦
          new_config now project_id orchestrator_id name tenant_id routing_policy fallback prompt
    ] in
    let s' = record s { orchestrator_configs = insert key r s.orchestrator_configs } in
    (r, if set_as_default then set_default now project_id orchestrator_id tenant_id s' else s')
