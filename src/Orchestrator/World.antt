-- ===== src/Orchestrator/World.antt =====
-- What a message handler of orchestrator_runtime/runtime.py works on: the store, the workflow engine
-- behind its adapter, and the services from outside, with the errors that it raises. What was
-- written before an exception stays written.
pub mod Rules
pub mod Invariant
use workcore.Prelude.{ℕ, suc, String, Bool, Option, none, some, List}
use workcore.Prelude.Int.{Float}
use workcore.Value.{Value, Fields}
use workcore.Orchestrator.Store.{OrchestrationStore}
use workcore.Orchestrator.Policy.{Numbers}
use workcore.Orchestrator.Candidates.{Texts, Candidate, RoutingDecision}

-- An event as the adapter normalises it.
pub record EngineEvent : Type 0 where
  pub kind : String
  pub payload : Fields

pub record WorkflowEngineStateSnapshot : Type 0 where
  pub run_id : String
  pub workflow_id : String
  pub resolved_version : String
  pub status : String
  pub cancellable : Bool
  pub commit_point_reached : Option Bool
  pub state : Fields
  pub outputs : Option Fields

pub record WorkflowEngineResult : Type 0 where
  pub run_id : String
  pub events : List EngineEvent
  pub state_snapshot : WorkflowEngineStateSnapshot
  pub cancelled : Option Bool

-- `OrchestratorRuntimeError` with its status, and `WorkflowEngineAdapterError`
pub data Failure : Type 0 where
  runtime_error : String → String → ℕ → Failure
  engine_error : String → String → Bool → Option Fields → Failure

pub data Outcome (A : Type 0) : Type 0 where
  ok : A → Outcome A
  raise : Failure → Outcome A

-- What a call of `start` or `resume` says beside the run or the workflow.
pub record UserTurn : Type 0 where
  pub session_id : String
  pub user_input : String
  pub metadata : Fields
  pub tenant_id : String
  pub action_type : Option String
  pub action_payload : Fields

-- The adapter's operations on the engine's state. A run is shown by its workflow and its status.
pub record WorkflowEngineAdapter (E : Type 0) : Type 0 where
  pub start : String → String → UserTurn → E → Outcome WorkflowEngineResult × E
  pub resume : String → UserTurn → E → Outcome WorkflowEngineResult × E
  pub cancel : String → String → String → E → Outcome WorkflowEngineResult × E
  pub get_state : String → String → E → Option WorkflowEngineStateSnapshot
  pub get_run : String → String → E → Option (String × String)

-- The arguments of `ResponsesLLMRouter.route`
pub record RouteQuery : Type 0 where
  pub message_text : String
  pub candidates : List Candidate
  pub active_workflow_id : Option String
  pub confidence_threshold : Float
  pub switch_margin_threshold : Float
  pub context_summary : String
  pub locale : String
  pub pending_disambiguation : Bool

-- Where the router fails, the code and the message of its error.
pub data Routing : Type 0 where
  decided : RoutingDecision → Routing
  failed : String → String → Routing

-- A number tells the observations of the clock, of the router and of UUIDs apart.
pub record Services (E : Type 0) : Type 0 where
  pub adapter : WorkflowEngineAdapter E
  pub route : ℕ → RouteQuery → Routing
  pub texts : Texts
  pub numbers : Numbers
  pub clock : ℕ → ℕ
  pub milliseconds : ℕ → ℕ
  pub hex_ten : ℕ → String
  pub text_of : Value → String
  pub isoformat : ℕ → String

pub record World (E : Type 0) : Type 0 where
  pub store : OrchestrationStore
  pub engine : E
  pub tick : ℕ

module _ {E : Type 0} where
  abbrev pub continue :
      {A B : Type 0}
      → Outcome A × World E
      → (A → World E → Outcome B × World E)
      → Outcome B × World E
  continue (ok a, w) f = f a w
  continue (raise e, w) f = (raise e, w)

  unfoldable pub pure : {A : Type 0} → A → World E → Outcome A × World E
  pure a w = (ok a, w)

  unfoldable pub fail : {A : Type 0} → Failure → World E → Outcome A × World E
  fail e w = (raise e, w)

  -- What the store's operation gives and leaves.
  unfoldable pub stored :
      {A : Type 0} → (OrchestrationStore → A × OrchestrationStore) → World E → Outcome A × World E
  stored op w =
      (ok (op w.store).0, record { store = (op w.store).1; engine = w.engine; tick = w.tick })

  unfoldable pub reads : {A : Type 0} → (World E → A) → World E → Outcome A × World E
  reads f w = (ok (f w), w)

  -- A call of the engine.
  unfoldable pub engine : {A : Type 0} → (E → Outcome A × E) → World E → Outcome A × World E
  engine op w =
      ((op w.engine).0, record { store = w.store; engine = (op w.engine).1; tick = w.tick })

  -- The number of the next observation.
  unfoldable pub observe : World E → Outcome ℕ × World E
  observe w = (ok w.tick, record { store = w.store; engine = w.engine; tick = suc w.tick })

  infixl 5 ◌>>=◌ ◌>>◌
  -- opening this opens the actions above too
  unfoldable pub ◌>>=◌ :
      {A B : Type 0}
      → (World E → Outcome A × World E)
      → (A → World E → Outcome B × World E)
      → World E
      → Outcome B × World E
  unfolding pure fail stored reads engine observe
  ◌>>=◌ m f w = continue (m w) f

  abbrev pub ◌>>◌ :
      {A B : Type 0}
      → (World E → Outcome A × World E)
      → (World E → Outcome B × World E)
      → World E
      → Outcome B × World E
  m >> k = m >>= λ _. k
