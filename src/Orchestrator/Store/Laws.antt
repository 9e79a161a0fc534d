-- ===== src/Orchestrator/Store/Laws.antt =====
-- The deletion of a project, and the invariants of the tables.
use workcore.Prelude.{
  String, ◌≡◌, refl, Bool, true, false, not, ◌&&◌, none, some, List, [], ◌∷◌, arith, ◌==◌, any,
  Bool-cases, inl, inr, if◌then◌else◌,
}
use workcore.Table.{Table, same_key, find, filter_rows, rows}
use workcore.Table.Laws.{find-filter_rows, find-erase}
use workcore.Orchestrator.Records.{ProjectRecord, OrchestratorContextRecord}
use workcore.Orchestrator.Store.{
  OrchestrationStore, get_project, delete_project, in_project, outside,
}

module _ (project_id tenant_id : String) where
  -- Nothing of the project is left in the table, and the rest is there.
  abbrev pub Cleared {ℓ} : {V : Type ℓ} → Table V → Table V → Type ℓ
  Cleared before after =
      (k : List String)
      → find k after ≡ (if in_project tenant_id project_id k then none else find k before)

  outside-Cleared {ℓ} : {V : Type ℓ} (t : Table V) → Cleared t (outside tenant_id project_id t)
  outside-Cleared t k =
      ground (arith, find-filter_rows (λ j. not (in_project tenant_id project_id j)) k t)

  -- An entry of the project's context.
  abbrev pub owned : OrchestratorContextRecord → Bool
  owned v = v.tenant_id == tenant_id && v.project_id == project_id

  none_left :
      (t : Table OrchestratorContextRecord)
      → any owned (
          rows
            (filter_rows (λ k v. not (v.tenant_id == tenant_id && v.project_id == project_id)) t))
        ≡ false
  unfolding filter_rows rows
  none_left [] = refl
  none_left ((k, v) ∷ t) = elim (Bool-cases (owned v)) [
    | inl mine ↦ rw mine (none_left t)
    | inr other ↦ rw other (ground (arith, other, none_left t))
  ]

  kept-filter_rows :
      (k : List String) (v : OrchestratorContextRecord) (t : Table OrchestratorContextRecord)
      → find k t ≡ some v
      → owned v ≡ false
      → find k (filter_rows (λ _ v. not (v.tenant_id == tenant_id && v.project_id == project_id)) t)
        ≡ some v
  unfolding find filter_rows
  kept-filter_rows k v [] h other = absurd (ground (arith, h))
  kept-filter_rows k v ((i, u) ∷ t) h other = elim (Bool-cases (same_key i k)) [
    | inl same ↦ let first : some u ≡ some v = rw same at h in ground (arith, same, first, other)
    | inr differs ↦
        let ih = kept-filter_rows k v t (rw differs at h) other in
        elim (Bool-cases (owned u)) [
          | inl mine ↦ rw mine ih
          | inr not_mine ↦ rw (not_mine, differs) ih
        ]
  ]

  absent-filter_rows :
      (k : List String) (t : Table OrchestratorContextRecord)
      → find k t ≡ none
      → find k (filter_rows (λ _ v. not (v.tenant_id == tenant_id && v.project_id == project_id)) t)
        ≡ none
  unfolding find filter_rows
  absent-filter_rows k [] h = refl
  absent-filter_rows k ((i, u) ∷ t) h = ground (arith, h, absent-filter_rows k t)

  -- What is left of a store without the project.
  pub record Deleted (before after : OrchestrationStore) : Type 0 where
    pub projects :
        (k : List String)
        → find k after.projects
          ≡ (if same_key (tenant_id ∷ project_id ∷ []) k then none else find k before.projects)
    pub configs : Cleared before.orchestrator_configs after.orchestrator_configs
    pub definitions : Cleared before.workflow_definitions after.workflow_definitions
    pub sessions : Cleared before.session_states after.session_states
    pub stacks : Cleared before.stack_entries after.stack_entries
    pub decisions : Cleared before.decisions after.decisions
    pub contexts : any owned (rows after.context_entries) ≡ false
    pub contexts_kept :
        (k : List String) (v : OrchestratorContextRecord)
        → find k before.context_entries ≡ some v
        → owned v ≡ false
        → find k after.context_entries ≡ some v
    pub contexts_absent :
        (k : List String)
        → find k before.context_entries ≡ none
        → find k after.context_entries ≡ none

  -- The deletion of a project that is there takes its record and everything that is kept under its
  -- tenant and its id: configurations, workflow definitions, sessions, stacks, decisions and context
  -- entries. Under every other key the tables of all but the context entries have what they had. A context
  -- entry of another project or tenant is found under its key as before, and none is found where none
  -- was.
  pub delete_project-Deleted :
      (p : ProjectRecord) (s : OrchestrationStore)
      → get_project project_id tenant_id s ≡ some p
      → ((delete_project project_id tenant_id s).0 ≡ true)
        × Deleted s (delete_project project_id tenant_id s).1
  unfolding get_project delete_project
  delete_project-Deleted p s e =
      let found : find (tenant_id ∷ project_id ∷ []) s.projects ≡ some p = e in
      rw (found, delete_project)
        (
          refl,
          record {
            projects = λ k. ground (arith, find-erase k (tenant_id ∷ project_id ∷ []) s.projects);
            configs = outside-Cleared s.orchestrator_configs;
            definitions = outside-Cleared s.workflow_definitions;
            sessions = outside-Cleared s.session_states;
            stacks = outside-Cleared s.stack_entries;
            decisions = outside-Cleared s.decisions;
            contexts = none_left s.context_entries;
            contexts_kept = λ k v h other. kept-filter_rows k v s.context_entries h other;
            contexts_absent = λ k h. absent-filter_rows k s.context_entries h;
          },
        )
