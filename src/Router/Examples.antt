-- ===== src/Router/Examples.antt =====
-- A request for a project with one orchestrator.
use workcore.Prelude.{none, some, [], ◌∷◌}
use workcore.Value.{Fields, str, obj, end, field}
use workcore.Orchestrator.Records.{ProjectRecord, OrchestratorConfigRecord}
use workcore.Router.{OrchestrationStore, RoutingRequest, resolve, Follows, resolve-Follows}

abbrev shop : ProjectRecord
shop = record {
  project_id = "p1";
  project_name = "Shop";
  tenant_id = "local";
  default_orchestrator_id = none;
  settings = end;
  created_at = 0;
  updated_at = 0;
}

abbrev helper : OrchestratorConfigRecord
helper = record {
  tenant_id = "local";
  project_id = "p1";
  orchestrator_id = "o1";
  name = "Helper";
  routing_policy = end;
  fallback_workflow_id = none;
  prompt_profile = none;
  created_at = 0;
  updated_at = 0;
}

abbrev shop_store : OrchestrationStore
shop_store = record {
  get_project = λ id. some shop;
  get_workflow_definition = λ project id. none;
  list_orchestrator_configs = λ project. helper ∷ [];
  get_orchestrator_config = λ project id. some helper;
}

abbrev greeting : RoutingRequest
greeting = record {
  session_id = "s1";
  user_id = "u1";
  project_id = "p1";
  orchestrator_id = none;
  workflow_id = none;
  message_id = "m1";
  message_text = "hello";
  metadata = end;
  message_type = "threads.add_user_message";
  action_type = none;
  action_payload = end;
}

route_example : Follows shop_store greeting (resolve shop_store greeting)
route_example = resolve-Follows shop_store greeting

abbrev body : Fields
body = field "session_id" (str "s1") (
    field "user_id" (str "u1") (
      field "project_id" (str "p1") (
        field "message"
          (obj (
            field "id" (str "m1") (
              field "text" (str "refund") (
                field "type" (str "threads.custom_action")
                  (field "payload" (obj (field "amount" (str "12") end)) end)))))
          end)))
