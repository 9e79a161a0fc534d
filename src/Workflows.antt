-- ===== src/Workflows.antt =====
-- api/workflow_store.py: workflows with a draft, and their published versions, in memory.
pub mod Rollback
mod Examples
use mathlib.Core.List.{reverse}
use workcore.Prelude.{
  ℕ, suc, ◌+◌, String, Bool, true, false, not, ◌&&◌, ◌||◌, Option, none, some, List, [], ◌∷◌, ◌++◌,
  ◌==◌, ◌<>◌, leb, length, take, select, contains, if◌then◌else◌,
}
use workcore.Dict.{Dict, get, get_or, put, pop, values}
use workcore.Text.{strip}
use workcore.Value.{Value, str, arr, obj, Items, nil, cons, Fields, end, field}
use workcore.Value.Object
use workcore.Runtime.Writes.{pop_all}

pub record WorkflowRecord : Type 0 where
  pub workflow_id : String
  pub tenant_id : String
  pub project_id : Option String
  pub name : String
  pub description : Option String
  pub draft : Fields
  pub active_version_id : Option String
  pub created_at : ℕ
  pub updated_at : ℕ

pub record WorkflowVersionRecord : Type 0 where
  pub version_id : String
  pub workflow_id : String
  pub tenant_id : String
  pub version_number : ℕ
  pub content_hash : String
  pub content : Fields
  pub created_at : ℕ

-- `InMemoryWorkflowStore`
pub record WorkflowStore : Type 0 where
  pub tenant_id : String
  pub workflows : Dict WorkflowRecord
  pub versions : Dict WorkflowVersionRecord
  pub workflow_versions : Dict (List String)

-- What an operation comes to: a value, or one of the store's two errors.
pub data Answer {ℓ} (A : Type ℓ) : Type ℓ where
  done : A → Answer A
  not_found : String → Answer A
  conflict : String → Answer A

-- What the store takes from outside: uuid4, the clock and the hash, by the number of the
-- observation.
pub record Outside : Type 0 where
  pub hex : ℕ → String
  pub now : ℕ → ℕ
  pub hash_content : Fields → String

-- `_build_version_content`
abbrev internal_of : Option Value → Fields
internal_of (some (obj d)) = d
internal_of _ = end

abbrev state_exclude_defaults : Value
state_exclude_defaults =
    arr (cons (str "documents.pages.image_base64") (cons (str "documents.image_base64") nil))

abbrev projection_defaults : Value
projection_defaults = obj (
    field "state_exclude_paths" state_exclude_defaults (field "output_include_paths" (arr nil) end))

unfoldable pub build_version_content : Fields → Fields
build_version_content draft =
    Object.put "_workcore"
      (obj (
        Object.put "projection_defaults" projection_defaults (
          Object.put "document_mode" (str "no_inline_by_default")
            (internal_of (Object.get "_workcore" draft)))))
      draft

unfoldable pub strip_internal_workcore_content : Fields → Fields
strip_internal_workcore_content content = Object.pop "_workcore" content

-- `_normalize_paths`
unfoldable pub normalize_each : Items → List String → List String
normalize_each nil seen = seen
normalize_each (cons (str item) rest) seen =
    let candidate = strip item in
    normalize_each rest
      (if candidate == "" || contains candidate seen then seen else seen ++ (candidate ∷ []))
normalize_each (cons _ rest) seen = normalize_each rest seen

abbrev pub normalize_paths : Option Value → List String
normalize_paths (some (arr items)) = normalize_each items []
normalize_paths _ = []

abbrev pub add_paths : String → List String → Dict (List String) → Dict (List String)
add_paths key [] d = d
add_paths key (p ∷ ps) d = (key, p ∷ ps) ∷ d

abbrev pub defaults_in : Option Value → Dict (List String)
defaults_in (some (obj defaults)) =
    add_paths "state_exclude_paths" (normalize_paths (Object.get "state_exclude_paths" defaults)) (
      add_paths "output_include_paths"
        (normalize_paths (Object.get "output_include_paths" defaults)) [])
defaults_in _ = []

abbrev is_no_inline : Option Value → Bool
is_no_inline (some (str mode)) = mode == "no_inline_by_default"
is_no_inline _ = false

unfoldable pub no_inline_projection_defaults : Fields → Dict (List String)
no_inline_projection_defaults content =
    let internal = internal_of (Object.get "_workcore" content) in
    if is_no_inline (Object.get "document_mode" internal)
    then defaults_in (Object.get "projection_defaults" internal)
    else []

-- `tenant_id or self.tenant_id`, and the project that is asked for
abbrev pub tenant_or : Option String → String → String
tenant_or none own = own
tenant_or (some t) own = if t == "" then own else t

abbrev pub asked_project : Option String → Option String
asked_project none = none
asked_project (some p) = if strip p == "" then none else some (strip p)

abbrev pub same_project : Option String → Option String → Bool
same_project none own = true
same_project (some p) none = false
same_project (some p) (some own) = own == p

abbrev pub checked : Option WorkflowRecord → String → Option String → Answer WorkflowRecord
checked none tenant project = not_found "workflow not found"
checked (some r) tenant project =
    if r.tenant_id == tenant && same_project project r.project_id
    then done r
    else not_found "workflow not found"

unfoldable pub get_workflow :
    String → Option String → Option String → WorkflowStore → Answer WorkflowRecord
get_workflow workflow_id tenant_id project_id s =
    checked (get workflow_id s.workflows) (tenant_or tenant_id s.tenant_id)
      (asked_project project_id)

-- The record of a workflow, written back.
abbrev pub write : String → WorkflowRecord → WorkflowStore → WorkflowStore
write workflow_id r s = record s { workflows = put workflow_id r s.workflows }

abbrev pub edited :
    String
    → (WorkflowRecord → WorkflowRecord)
    → Answer WorkflowRecord
    → WorkflowStore
    → Answer WorkflowRecord × WorkflowStore
edited workflow_id f (done r) s = (done (f r), write workflow_id (f r) s)
edited workflow_id f (not_found e) s = (not_found e, s)
edited workflow_id f (conflict e) s = (conflict e, s)

abbrev pub name_or : Option String → String → String
name_or none own = own
name_or (some n) own = if n == "" then own else n

-- `list_workflows`: stable, the latest update first
unfoldable pub insert_latest : WorkflowRecord → List WorkflowRecord → List WorkflowRecord
insert_latest r [] = r ∷ []
insert_latest r (q ∷ rest) =
    if leb q.updated_at r.updated_at then r ∷ q ∷ rest else q ∷ insert_latest r rest

unfoldable pub latest_first : List WorkflowRecord → List WorkflowRecord
latest_first [] = []
latest_first (r ∷ rest) = insert_latest r (latest_first rest)

unfoldable pub list_workflows :
    ℕ → Option String → Option String → WorkflowStore → List WorkflowRecord
list_workflows limit tenant_id project_id s =
    let tenant = tenant_or tenant_id s.tenant_id in
    let project = asked_project project_id in
    take limit (
      latest_first (
        select (λ r. r.tenant_id == tenant && same_project project r.project_id)
          (values s.workflows)))

-- The versions of the ids; `none` is the `KeyError` of an unknown one.
unfoldable pub versions_of :
    Dict WorkflowVersionRecord → List String → Option (List WorkflowVersionRecord)
versions_of versions [] = some []
versions_of versions (id ∷ ids) = elim (get id versions) [
  | none ↦ none
  | some v ↦ elim (versions_of versions ids) [ none ↦ none | some vs ↦ some (v ∷ vs) ]
]

unfoldable pub list_versions :
    String
    → ℕ
    → Option String
    → Option String
    → WorkflowStore
    → Answer (Option (List WorkflowVersionRecord))
list_versions workflow_id limit tenant_id project_id s =
    let ids = reverse (get_or workflow_id [] s.workflow_versions) in
    let tenant = tenant_or tenant_id s.tenant_id in
    let listed : Option (List WorkflowVersionRecord) = elim (versions_of s.versions ids) [
      | none ↦ none
      | some vs ↦ some (take limit (select (λ v. v.tenant_id == tenant) vs))
    ] in
    elim (get_workflow workflow_id tenant_id project_id s) [
      | done r ↦ done listed
      | not_found e ↦ not_found e
      | conflict e ↦ conflict e
    ]

abbrev version_or : Option WorkflowVersionRecord → String → Answer WorkflowVersionRecord
version_or none tenant = not_found "workflow version not found"
version_or (some v) tenant =
    if v.tenant_id == tenant then done v else not_found "workflow version not found"

unfoldable pub get_version : String → Option String → WorkflowStore → Answer WorkflowVersionRecord
get_version version_id tenant_id s =
    version_or (get version_id s.versions) (tenant_or tenant_id s.tenant_id)

abbrev pub removed : String → WorkflowStore → WorkflowStore
removed workflow_id s = record {
  tenant_id = s.tenant_id;
  workflows = pop workflow_id s.workflows;
  versions = pop_all (get_or workflow_id [] s.workflow_versions) s.versions;
  workflow_versions = pop workflow_id s.workflow_versions;
}

unfoldable pub delete_workflow :
    String → Option String → Option String → WorkflowStore → Answer (Unit {0}) × WorkflowStore
delete_workflow workflow_id tenant_id project_id s =
    elim (get_workflow workflow_id tenant_id project_id s) [
      | done r ↦ (done tt, removed workflow_id s)
      | not_found e ↦ (not_found e, s)
      | conflict e ↦ (conflict e, s)
    ]

module _ (outside : Outside) where
  unfoldable pub create_workflow :
      ℕ
      → String
      → Option String
      → Fields
      → Option String
      → Option String
      → WorkflowStore
      → WorkflowRecord × WorkflowStore
  create_workflow tick name description draft tenant_id project_id s =
      let workflow_id = "wf_" <> outside.hex tick in
      let r : WorkflowRecord = record {
        workflow_id = workflow_id;
        tenant_id = tenant_or tenant_id s.tenant_id;
        project_id = asked_project project_id;
        name = name;
        description = description;
        draft = draft;
        active_version_id = none;
        created_at = outside.now tick;
        updated_at = outside.now tick;
      } in
      (
        r,
        record s {
          workflows = put workflow_id r s.workflows;
          workflow_versions = put workflow_id [] s.workflow_versions;
        },
      )

  abbrev pub with_meta :
      ℕ → Option String → Option String → Bool → Bool → WorkflowRecord → WorkflowRecord
  with_meta tick name description update_name update_description r = record r {
    name = if update_name then name_or name r.name else r.name;
    description = if update_description then description else r.description;
    updated_at = outside.now tick;
  }

  unfoldable pub update_meta :
      ℕ
      → String
      → Option String
      → Option String
      → Bool
      → Bool
      → Option String
      → Option String
      → WorkflowStore
      → Answer WorkflowRecord × WorkflowStore
  update_meta tick workflow_id name description update_name update_description tenant_id project_id
        s =
      edited workflow_id (with_meta tick name description update_name update_description)
        (get_workflow workflow_id tenant_id project_id s) s

  abbrev pub with_draft : ℕ → Fields → WorkflowRecord → WorkflowRecord
  with_draft tick draft r = record r { draft = draft; updated_at = outside.now tick }

  unfoldable pub update_draft :
      ℕ
      → String
      → Fields
      → Option String
      → Option String
      → WorkflowStore
      → Answer WorkflowRecord × WorkflowStore
  update_draft tick workflow_id draft tenant_id project_id s =
      edited workflow_id (with_draft tick draft) (get_workflow workflow_id tenant_id project_id s) s

  abbrev pub new_version : ℕ → String → WorkflowRecord → WorkflowStore → WorkflowVersionRecord
  new_version tick workflow_id r s = record {
    version_id = "wfv_" <> outside.hex tick;
    workflow_id = workflow_id;
    tenant_id = r.tenant_id;
    version_number = length (get_or workflow_id [] s.workflow_versions) + 1;
    content_hash = outside.hash_content (build_version_content r.draft);
    content = build_version_content r.draft;
    created_at = outside.now tick;
  }

  abbrev pub activated : ℕ → String → WorkflowRecord → WorkflowRecord
  activated tick version_id r = record r {
    active_version_id = some version_id;
    updated_at = outside.now (suc tick);
  }

  abbrev pub with_version :
      ℕ → String → WorkflowVersionRecord → WorkflowRecord → WorkflowStore → WorkflowStore
  with_version tick workflow_id v r s = record {
    tenant_id = s.tenant_id;
    workflows = put workflow_id (activated tick v.version_id r) s.workflows;
    versions = put v.version_id v s.versions;
    workflow_versions =
        put workflow_id (get_or workflow_id [] s.workflow_versions ++ (v.version_id ∷ []))
          s.workflow_versions;
  }

  unfoldable pub publish :
      ℕ
      → String
      → Option String
      → Option String
      → WorkflowStore
      → Answer WorkflowVersionRecord × WorkflowStore
  publish tick workflow_id tenant_id project_id s =
      elim (get_workflow workflow_id tenant_id project_id s) [
        | done r ↦ (
          done (new_version tick workflow_id r s),
          with_version tick workflow_id (new_version tick workflow_id r s) r s,
        )
        | not_found e ↦ (not_found e, s)
        | conflict e ↦ (conflict e, s)
      ]

  -- The draft that a rollback of a record restores.
  abbrev pub restored : Option WorkflowVersionRecord → ℕ → WorkflowRecord → Answer WorkflowRecord
  restored none tick r = conflict "active version not found"
  restored (some v) tick r = done (with_draft tick (strip_internal_workcore_content v.content) r)

  abbrev pub restored_active :
      Option String → ℕ → WorkflowRecord → WorkflowStore → Answer WorkflowRecord
  restored_active none tick r s = conflict "workflow has no active version"
  restored_active (some id) tick r s =
      if id == ""
      then conflict "workflow has no active version"
      else restored (get id s.versions) tick r

  unfoldable pub rollback :
      ℕ
      → String
      → Option String
      → Option String
      → WorkflowStore
      → Answer WorkflowRecord × WorkflowStore
  rollback tick workflow_id tenant_id project_id s =
      elim (get_workflow workflow_id tenant_id project_id s) [
        | done r ↦ edited workflow_id (λ q. q) (restored_active r.active_version_id tick r s) s
        | not_found e ↦ (not_found e, s)
        | conflict e ↦ (conflict e, s)
      ]
