-- ===== src/Workflows/Examples.antt =====
-- A rollback at one workflow.
use workcore.Prelude.{◌≡◌, refl, none, some, [], ◌∷◌, ◌<>◌}
use workcore.Dict.{get}
use workcore.Value.{str, end, field}
use workcore.Value.Object
use workcore.Workflows.{
  WorkflowRecord, WorkflowStore, Outside, done, publish, update_draft, rollback, get_workflow,
}
use workcore.Workflows.Rollback.{publish-rollback}

abbrev plain_outside : Outside
plain_outside = record { hex = λ n. "00"; now = λ n. n; hash_content = λ d. "" }

abbrev form : WorkflowRecord
form = record {
  workflow_id = "wf_1";
  tenant_id = "local";
  project_id = none;
  name = "Form";
  description = none;
  draft = field "nodes" (str "a") end;
  active_version_id = none;
  created_at = 0;
  updated_at = 0;
}

abbrev one_form : WorkflowStore
one_form = record {
  tenant_id = "local";
  workflows = ("wf_1", form) ∷ [];
  versions = [];
  workflow_versions = [];
}

rollback_example :
    let published = (publish plain_outside 1 "wf_1" none none one_form).1 in
    let changed = (update_draft plain_outside 3 "wf_1" end none none published).1 in
    (rollback plain_outside 4 "wf_1" none none changed).0
    ≡ done (record form {
      draft = Object.pop "_workcore" form.draft;
      active_version_id = some ("wfv_" <> "00");
      updated_at = 4;
    })
unfolding get_workflow get
rollback_example = publish-rollback plain_outside 1 3 4 "wf_1" end none none one_form form refl
