-- ===== src/Orchestrator/Store/Contexts.antt =====
-- The context values of `InMemoryOrchestrationStore`, which are kept under the project's normalised id.
use workcore.Prelude.{
  ℕ, String, Bool, true, not, ◌&&◌, ◌||◌, Option, none, some, List, [], ◌∷◌, ◌++◌, ◌==◌, select,
  contains, if◌then◌else◌,
}
use workcore.Table.{Table, find, insert, erase, rows}
use workcore.Text.{strip}
use workcore.Value.{Value, Fields, end, field}
use workcore.Value.Object
use workcore.Orchestrator.Records.{OrchestratorContextRecord}
use workcore.Orchestrator.Store.{OrchestrationStore}

abbrev pub project_or : Option String → String
project_or none = ""
project_or (some p) = strip p

-- The entries that a scope has, of the requested keys.
abbrev pub is_requested : Option (List String) → String → Bool
is_requested none key = true
is_requested (some keys) key = not (key == "") && contains key keys

abbrev pub in_scope :
    String → String → String → String → Option (List String) → OrchestratorContextRecord → Bool
in_scope tenant_id project scope scope_id keys r =
    r.tenant_id == tenant_id
    && r.scope_type == scope
    && r.scope_id == scope_id
    && project == strip r.project_id
    && is_requested keys r.key

abbrev pub collect_values : List OrchestratorContextRecord → Fields → Fields
collect_values [] found = found
collect_values (r ∷ rest) found = collect_values rest (Object.put r.key r.value found)

module _ (lower : String → String) where
  unfoldable pub get_context_values :
      String → String → String → Option String → Option (List String) → OrchestrationStore → Fields
  get_context_values scope_type scope_id tenant_id project_id keys s =
      let scope = lower (strip scope_type) in
      let id = strip scope_id in
      if scope == "" || id == ""
      then end
      else collect_values
          (select (in_scope tenant_id (project_or project_id) scope id keys)
            (rows s.context_entries))
          end

  abbrev pub set_value :
      ℕ
      → String
      → String
      → String
      → String
      → String
      → Value
      → Option OrchestratorContextRecord
      → OrchestratorContextRecord
  set_value now tenant_id project scope id key value none = record {
    tenant_id = tenant_id;
    project_id = project;
    scope_type = scope;
    scope_id = id;
    key = key;
    value = value;
    created_at = now;
    updated_at = now;
  }
  set_value now tenant_id project scope id key value (some r) = record r {
    project_id = project;
    value = value;
    updated_at = now;
  }

  unfoldable pub set_each :
      ℕ
      → String
      → String
      → String
      → String
      → Fields
      → Table OrchestratorContextRecord
      → Table OrchestratorContextRecord
  set_each now tenant_id project scope id end t = t
  set_each now tenant_id project scope id (field key value rest) t =
      let entry = tenant_id ∷ project ∷ scope ∷ id ∷ key ∷ [] in
      set_each now tenant_id project scope id rest (
        if key == ""
        then t
        else insert entry (set_value now tenant_id project scope id key value (find entry t)) t)

  unfoldable pub set_context_values :
      ℕ
      → String
      → String
      → Fields
      → String
      → Option String
      → OrchestrationStore
      → Fields × OrchestrationStore
  set_context_values now scope_type scope_id values tenant_id project_id s =
      let scope = lower (strip scope_type) in
      let id = strip scope_id in
      let s' = record s {
        context_entries =
            set_each now tenant_id (project_or project_id) scope id values s.context_entries;
      } in
      if scope == "" || id == ""
      then (end, s)
      else (get_context_values scope id tenant_id project_id none s', s')

  -- The entry is dropped where its project is the one that is asked for.
  abbrev drop_entry :
      String
      → String
      → List String
      → Option OrchestratorContextRecord
      → List String × Table OrchestratorContextRecord
      → List String × Table OrchestratorContextRecord
  drop_entry project key entry none (removed, t) = (removed, t)
  drop_entry project key entry (some r) (removed, t) =
      if project == strip r.project_id then (removed ++ (key ∷ []), erase entry t) else (removed, t)

  unfoldable pub unset_each :
      String
      → String
      → String
      → String
      → List String
      → List String × Table OrchestratorContextRecord
      → List String × Table OrchestratorContextRecord
  unset_each tenant_id project scope id [] found = found
  unset_each tenant_id project scope id (key ∷ keys) (removed, t) =
      let entry = tenant_id ∷ project ∷ scope ∷ id ∷ key ∷ [] in
      unset_each tenant_id project scope id keys (
        if key == ""
        then (removed, t)
        else drop_entry project key entry (find entry t) (removed, t))

  unfoldable pub unset_context_keys :
      String
      → String
      → List String
      → String
      → Option String
      → OrchestrationStore
      → List String × OrchestrationStore
  unset_context_keys scope_type scope_id keys tenant_id project_id s =
      let (removed, t) =
        unset_each tenant_id (project_or project_id) (lower (strip scope_type)) (strip scope_id)
          keys ([], s.context_entries) in
      (removed, record s { context_entries = t })
