-- ===== src/Router.antt =====
-- `ProjectRouter.resolve` of project_router/router.py, over the operations of an orchestration store
-- that it calls.
mod Examples
pub mod CustomActions
pub mod Payload
use workcore.Prelude.{
  String, ◌≡◌, refl, ◌⊎◌, inl, inr, Bool, true, false, Option, none, some, List, [], ◌∷◌, ◌==◌,
  arith, Option-cases, Bool-cases, if◌then◌else◌,
}
use workcore.Value.{Fields}
use workcore.Orchestrator.Records.{
  ProjectRecord, OrchestratorConfigRecord, WorkflowDefinitionRecord,
}

-- What the router reads of the store, for one tenant.
pub record OrchestrationStore : Type 0 where
  pub get_project : String → Option ProjectRecord
  pub get_workflow_definition : String → String → Option WorkflowDefinitionRecord
  pub list_orchestrator_configs : String → List OrchestratorConfigRecord
  pub get_orchestrator_config : String → String → Option OrchestratorConfigRecord

pub record RoutingRequest : Type 0 where
  pub session_id : String
  pub user_id : String
  pub project_id : String
  pub orchestrator_id : Option String
  pub workflow_id : Option String
  pub message_id : String
  pub message_text : String
  pub metadata : Fields
  pub message_type : String
  pub action_type : Option String
  pub action_payload : Fields

-- `ProjectRoute`, by its mode, and the error with its code
pub data Routed : Type 0 where
  direct : ProjectRecord → WorkflowDefinitionRecord → Routed
  orchestrated : ProjectRecord → OrchestratorConfigRecord → Routed
  refused : String → Routed

-- `a or b` of optional texts
abbrev pub text_or : Option String → Option String → Option String
text_or none other = other
text_or (some s) other = if s == "" then other else some s

abbrev pub first_id : List OrchestratorConfigRecord → Option String
first_id [] = none
first_id (c ∷ cs) = some c.orchestrator_id

module _ (store : OrchestrationStore) where
  abbrev pub route_workflow : ProjectRecord → Option WorkflowDefinitionRecord → Routed
  route_workflow project none = refused "ERR_WORKFLOW_NOT_IN_PROJECT"
  route_workflow project (some d) =
      if d.active then direct project d else refused "ERR_WORKFLOW_NOT_IN_PROJECT"

  abbrev pub route_config : ProjectRecord → Option OrchestratorConfigRecord → Routed
  route_config project none = refused "ERR_ORCHESTRATOR_NOT_IN_PROJECT"
  route_config project (some c) = orchestrated project c

  abbrev pub route_orchestrator : String → ProjectRecord → Option String → Routed
  route_orchestrator project_id project none = refused "ERR_ORCHESTRATOR_NOT_IN_PROJECT"
  route_orchestrator project_id project (some id) =
      if id == ""
      then refused "ERR_ORCHESTRATOR_NOT_IN_PROJECT"
      else route_config project (store.get_orchestrator_config project_id id)

  -- The orchestrator that is asked for, or the project's default one, or its first one.
  unfoldable pub chosen_orchestrator : RoutingRequest → ProjectRecord → Option String
  chosen_orchestrator request project =
      text_or (text_or request.orchestrator_id project.default_orchestrator_id)
        (first_id (store.list_orchestrator_configs request.project_id))

  abbrev pub route_in : RoutingRequest → Option ProjectRecord → Option String → Routed
  route_in request none workflow = refused "ERR_PROJECT_NOT_FOUND"
  route_in request (some project) none =
      route_orchestrator request.project_id project (chosen_orchestrator request project)
  route_in request (some project) (some id) =
      route_workflow project (store.get_workflow_definition request.project_id id)

  abbrev pub asked_workflow : Option String → Option String
  asked_workflow none = none
  asked_workflow (some id) = if id == "" then none else some id

  unfoldable pub resolve : RoutingRequest → Routed
  resolve request =
      route_in request (store.get_project request.project_id) (asked_workflow request.workflow_id)

  -- What a route says of the request.
  abbrev pub Follows : RoutingRequest → Routed → Type 0
  Follows request (direct project d) =
      (store.get_project request.project_id ≡ some project)
      × (d.active ≡ true)
      × ((id : String) × (asked_workflow request.workflow_id ≡ some id)
          × (store.get_workflow_definition request.project_id id ≡ some d))
  Follows request (orchestrated project c) =
      (store.get_project request.project_id ≡ some project)
      × (asked_workflow request.workflow_id ≡ none)
      × ((id : String) × (chosen_orchestrator request project ≡ some id)
          × (store.get_orchestrator_config request.project_id id ≡ some c))
  Follows request (refused code) =
      (code ≡ "ERR_PROJECT_NOT_FOUND")
      ⊎ ((code ≡ "ERR_WORKFLOW_NOT_IN_PROJECT") ⊎ (code ≡ "ERR_ORCHESTRATOR_NOT_IN_PROJECT"))

  follow_workflow :
      (request : RoutingRequest) (project : ProjectRecord) (id : String)
      (o : Option WorkflowDefinitionRecord)
      → store.get_project request.project_id ≡ some project
      → asked_workflow request.workflow_id ≡ some id
      → store.get_workflow_definition request.project_id id ≡ o
      → Follows request (route_workflow project o)
  follow_workflow request project id none p a e = inr (inl refl)
  follow_workflow request project id (some d) p a e = elim (Bool-cases d.active) [
    | inl on ↦ simp on (p, refl, (id, a, e))
    | inr off ↦ simp off (inr (inl refl))
  ]

  follow_config :
      (request : RoutingRequest) (project : ProjectRecord) (id : String)
      (o : Option OrchestratorConfigRecord)
      → store.get_project request.project_id ≡ some project
      → asked_workflow request.workflow_id ≡ none
      → chosen_orchestrator request project ≡ some id
      → store.get_orchestrator_config request.project_id id ≡ o
      → Follows request (route_config project o)
  follow_config request project id none p a c e = inr (inr refl)
  follow_config request project id (some d) p a c e = (p, a, (id, c, e))

  follow_orchestrator :
      (request : RoutingRequest) (project : ProjectRecord) (o : Option String)
      → store.get_project request.project_id ≡ some project
      → asked_workflow request.workflow_id ≡ none
      → chosen_orchestrator request project ≡ o
      → Follows request (route_orchestrator request.project_id project o)
  follow_orchestrator request project none p a c = inr (inr refl)
  follow_orchestrator request project (some id) p a c = elim (Bool-cases (id == "")) [
    | inl empty ↦ rw empty (inr (inr refl))
    | inr given ↦ rw given (follow_config request project id _ p a c refl)
  ]

  follow_in :
      (request : RoutingRequest) (o : Option ProjectRecord) (workflow : Option String)
      → store.get_project request.project_id ≡ o
      → asked_workflow request.workflow_id ≡ workflow
      → Follows request (route_in request o workflow)
  follow_in request none workflow p a = inl refl
  follow_in request (some project) none p a = follow_orchestrator request project _ p a refl
  follow_in request (some project) (some id) p a = follow_workflow request project id _ p a refl

  -- A route stays in the project of the request. A direct route has an active workflow that the
  -- project registers under the id asked for; an orchestrated one is taken only where no workflow
  -- is asked for, and has the project's orchestrator of the chosen id; an error has one of three
  -- codes.
  pub resolve-Follows : (request : RoutingRequest) → Follows request (resolve request)
  unfolding resolve
  resolve-Follows request = follow_in request _ _ refl refl
