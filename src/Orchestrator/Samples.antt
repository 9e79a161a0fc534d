-- ===== src/Orchestrator/Samples.antt =====
-- A shop with one workflow, and an engine that counts the runs it starts.
use workcore.Prelude.{ℕ, suc, String, true, false, none, some, [], ◌∷◌}
use workcore.Prelude.Int.{pos, Float, of_int}
use workcore.Value.{end}
use workcore.Router.{RoutingRequest}
use workcore.Orchestrator.Records.{
  ProjectRecord, OrchestratorConfigRecord, SessionStateRecord, OrchestrationDecisionRecord,
}
use workcore.Orchestrator.Store.{OrchestrationStore}
use workcore.Orchestrator.Store.Sessions.{upsert_workflow_definition}
use workcore.Orchestrator.Policy.{Numbers, RoutingPolicy}
use workcore.Orchestrator.Candidates.{Candidate, Texts, RoutingDecision}
use workcore.Orchestrator.World.{
  WorkflowEngineStateSnapshot, WorkflowEngineResult, WorkflowEngineAdapter, Outcome, ok, decided,
  Services, World,
}
use workcore.Orchestrator.Heuristic.{Arithmetic, Ask}
use workcore.Orchestrator.Turn.{Setting}

abbrev pub half : Float
half = record { num = pos 1; scale = 1 }

abbrev pub snapshot : String → String → WorkflowEngineStateSnapshot
snapshot run status = record {
  run_id = run;
  workflow_id = "orders";
  resolved_version = "v1";
  status = status;
  cancellable = true;
  commit_point_reached = some false;
  state = end;
  outputs = none;
}

abbrev pub result_of : String → String → Outcome WorkflowEngineResult
result_of run status =
    ok
      (record { run_id = run; events = []; state_snapshot = snapshot run status; cancelled = none })

-- An engine that counts the runs it has started.
abbrev pub adapter : WorkflowEngineAdapter ℕ
adapter = record {
  start = λ project workflow turn n. (result_of "run_a" "WAITING_FOR_INPUT", suc n);
  resume = λ run turn n. (result_of run "COMPLETED", n);
  cancel = λ run reason tenant n. (result_of run "CANCELLED", n);
  get_state = λ run tenant n. some (snapshot run "WAITING_FOR_INPUT");
  get_run = λ run tenant n. some ("orders", "WAITING_FOR_INPUT");
}

abbrev pub texts : Texts
texts = record { lower = λ s. s; add = λ x y. y; round_four = λ x. x }

abbrev pub numbers : Numbers
numbers = record {
  float_of_text = λ s. none;
  float_of_int = λ n. some (of_int n);
  int_of_text = λ s. none;
}

abbrev pub to_orders : RoutingDecision
to_orders = record {
  route_type = "START_WORKFLOW";
  workflow_id = some "orders";
  tags = [];
  confidence = of_int (pos 1);
  switch_margin = of_int (pos 1);
  reason_codes = [];
  clarifying_question = none;
  clarifying_options = [];
  model_id = none;
}

abbrev pub services : Services ℕ
services = record {
  adapter = adapter;
  route = λ at query. decided to_orders;
  texts = texts;
  numbers = numbers;
  clock = λ at. at;
  milliseconds = λ at. 0;
  hex_ten = λ at. "0123456789";
  text_of = λ v. "text";
  isoformat = λ at. "2026-01-01T00:00:00+00:00";
}

abbrev pub helper : OrchestratorConfigRecord
helper = record {
  tenant_id = "local";
  project_id = "shop";
  orchestrator_id = "o1";
  name = "Helper";
  routing_policy = end;
  fallback_workflow_id = none;
  prompt_profile = none;
  created_at = 0;
  updated_at = 0;
}

abbrev pub shop : ProjectRecord
shop = record {
  project_id = "shop";
  project_name = "Shop";
  tenant_id = "local";
  default_orchestrator_id = some "o1";
  settings = end;
  created_at = 0;
  updated_at = 0;
}

abbrev pub bare : OrchestrationStore
bare = record {
  projects = ("local" ∷ "shop" ∷ [], shop) ∷ [];
  orchestrator_configs = ("local" ∷ "shop" ∷ "o1" ∷ [], helper) ∷ [];
  workflow_definitions = [];
  session_states = [];
  context_entries = [];
  stack_entries = [];
  decisions = [];
}

abbrev pub shop_store : OrchestrationStore
shop_store =
    (upsert_workflow_definition 1 "shop" "orders" "local" "Orders" "" none none true false bare).1

abbrev pub world : World ℕ
world = record { store = shop_store; engine = 0; tick = 10 }

abbrev pub question : RoutingRequest
question = record {
  session_id = "s1";
  user_id = "u1";
  project_id = "shop";
  orchestrator_id = none;
  workflow_id = none;
  message_id = "m1";
  message_text = "where are my orders";
  metadata = end;
  message_type = "threads.add_user_message";
  action_type = none;
  action_payload = end;
}

abbrev pub session : SessionStateRecord
session = record {
  tenant_id = "local";
  project_id = "shop";
  session_id = "s1";
  orchestrator_id = some "o1";
  active_run_id = some "run_a";
  pending_disambiguation = false;
  pending_question = none;
  pending_options = [];
  disambiguation_turns = 0;
  last_user_message_id = none;
  created_at = 0;
  updated_at = 0;
}

abbrev pub policy : RoutingPolicy
policy = record {
  confidence_threshold = half;
  switch_margin = half;
  max_disambiguation_turns = 2;
  top_k_candidates = 20;
  sticky = false;
  allow_switch = true;
  explicit_switch_only = false;
  cooldown_seconds = 60;
  hysteresis_margin = half;
}

abbrev pub setting : Setting
setting = record {
  request = question;
  tenant_id = "local";
  orchestrator = helper;
  policy = policy;
  metadata = end;
  recent_decisions = [];
  candidates = [];
  decision = to_orders;
}

abbrev pub switched : OrchestrationDecisionRecord
switched = record {
  decision_id = "dec_0";
  tenant_id = "local";
  project_id = "shop";
  orchestrator_id = some "o1";
  session_id = "s1";
  message_id = "m0";
  mode = "orchestrated";
  active_run_id = none;
  context_ref = end;
  candidates = [];
  chosen_action = "SWITCH_WORKFLOW";
  chosen_workflow_id = some "orders";
  confidence = of_int (pos 1);
  latency_ms = 0;
  model_id = none;
  error_code = none;
  created_at = 5;
}

abbrev pub arithmetic : Arithmetic
arithmetic = record { subtract = λ x y. x; confidence_of = λ x. half }

abbrev pub ask : Ask
ask = record {
  active_workflow_id = some "orders";
  confidence_threshold = half;
  switch_margin_threshold = half;
}

abbrev pub returns : Candidate
returns = record {
  workflow_id = "returns";
  name = "returns";
  description = "";
  tags = [];
  examples = [];
  score = of_int (pos 1);
  reason_codes = [];
}

abbrev pub resumed : OrchestrationDecisionRecord
resumed = record switched { chosen_action = "RESUME_CURRENT" }
