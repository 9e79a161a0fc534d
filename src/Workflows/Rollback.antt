-- ===== src/Workflows/Rollback.antt =====
-- What `rollback` of api/workflow_store.py restores, and who sees a workflow.
use workcore.Prelude.{
  ℕ, String, ◌≡◌, ◌≢◌, refl, sym, ap, ◌∙◌, inl, inr, Bool, true, false, ◌&&◌, Option, none, some,
  ◌==◌, ◌<>◌, arith, eq_iff, eq_refl, Bool-cases,
}
use Prim.Native.String.append
use workcore.Dict.{get}
use workcore.Dict.Laws.{get-put_self}
use workcore.Value.{Value, Fields, end, field}
use workcore.Value.Object
use workcore.Workflows.{
  WorkflowRecord, WorkflowVersionRecord, WorkflowStore, done, Outside, checked, get_workflow,
  publish, update_draft, rollback, build_version_content, strip_internal_workcore_content,
  with_draft, activated, new_version, with_version, same_project, write,
}

pop-put : (k : String) (v : Value) (d : Fields) → Object.pop k (Object.put k v d) ≡ Object.pop k d
unfolding Object.pop Object.put
pop-put k v end = ground (arith, eq_refl k)
pop-put k v (field j w d) = ground (arith, pop-put k v d, eq_iff j k)

-- A version without its internal part is the draft without it.
strip-build :
    (draft : Fields)
    → strip_internal_workcore_content (build_version_content draft) ≡ Object.pop "_workcore" draft
unfolding strip_internal_workcore_content build_version_content
strip-build draft = pop-put "_workcore" _ draft

checked-again :
    (found : Option WorkflowRecord) (tenant : String) (project : Option String)
    (r q : WorkflowRecord)
    → checked found tenant project ≡ done r
    → q.tenant_id ≡ r.tenant_id
    → q.project_id ≡ r.project_id
    → checked (some q) tenant project ≡ done q
checked-again none tenant project r q h e e' = absurd (ground arith)
checked-again (some p) tenant project r q h e e' =
    elim (Bool-cases (p.tenant_id == tenant && same_project project p.project_id)) [
      | inl ok ↦ ground arith
      | inr bad ↦ absurd (ground arith)
    ]

-- A record that keeps its tenant and its project is found again where it is written back.
get_workflow-again :
    (id : String) (tenant project : Option String) (s u : WorkflowStore) (r q : WorkflowRecord)
    → get_workflow id tenant project s ≡ done r
    → u.tenant_id ≡ s.tenant_id
    → get id u.workflows ≡ some q
    → q.tenant_id ≡ r.tenant_id
    → q.project_id ≡ r.project_id
    → get_workflow id tenant project u ≡ done q
unfolding get_workflow
get_workflow-again id tenant project s u r q h own at_id e e' =
    rw (at_id, own) (checked-again (get id s.workflows) _ _ r q h e e')

Bool-differ : true ≢ false
Bool-differ e = ground arith

first : String → Bool
first Prim.Native.String.[] = false
first (Prim.Native.String.◌∷◌ c s) = true

version_id_nonempty : (x : String) → (("wfv_" <> x) == "") ≡ false
unfolding first
version_id_nonempty x = elim (Bool-cases (("wfv_" <> x) == "")) [
  | inr other ↦ other
  | inl empty ↦
      absurd
        (Bool-differ (ap first (sym (append.cons "w" "fv_" x) ∙ (eq_iff ("wfv_" <> x) "").0 empty)))
]

module _ (outside : Outside) where
  publish-done :
      (tick : ℕ) (id : String) (tenant project : Option String) (s : WorkflowStore)
      (r : WorkflowRecord)
      → get_workflow id tenant project s ≡ done r
      → (publish outside tick id tenant project s).1
        ≡ with_version outside tick id (new_version outside tick id r s) r s
  unfolding publish
  publish-done tick id tenant project s r h = ground arith

  update_draft-done :
      (tick : ℕ) (id : String) (draft : Fields) (tenant project : Option String) (s : WorkflowStore)
      (r : WorkflowRecord)
      → get_workflow id tenant project s ≡ done r
      → (update_draft outside tick id draft tenant project s).1
        ≡ write id (with_draft outside tick draft r) s
  unfolding update_draft
  update_draft-done tick id draft tenant project s r h = rw h refl

  rollback-done :
      (tick : ℕ) (id version_id : String) (tenant project : Option String) (s : WorkflowStore)
      (r : WorkflowRecord) (v : WorkflowVersionRecord)
      → get_workflow id tenant project s ≡ done r
      → r.active_version_id ≡ some version_id
      → (version_id == "") ≡ false
      → get version_id s.versions ≡ some v
      → (rollback outside tick id tenant project s).0
        ≡ done (with_draft outside tick (strip_internal_workcore_content v.content) r)
  unfolding rollback
  rollback-done tick id version_id tenant project s r v h active nonempty found = ground arith

  -- A rollback restores what was published. Where the workflow is there for the tenant and the
  -- project, is published, and then gets any other draft, a rollback returns its record with the
  -- published draft, less the internal key "_workcore", and with the published version active.
  pub publish-rollback :
      (t₀ t₁ t₂ : ℕ) (id : String) (draft : Fields) (tenant project : Option String)
      (s : WorkflowStore) (r : WorkflowRecord)
      → get_workflow id tenant project s ≡ done r
      → let published = (publish outside t₀ id tenant project s).1 in
        let changed = (update_draft outside t₁ id draft tenant project published).1 in
        (rollback outside t₂ id tenant project changed).0
        ≡ done (record r {
          draft = Object.pop "_workcore" r.draft;
          active_version_id = some ("wfv_" <> outside.hex t₀);
          updated_at = outside.now t₂;
        })
  publish-rollback t₀ t₁ t₂ id draft tenant project s r h =
      let v = new_version outside t₀ id r s in
      let p = with_version outside t₀ id v r s in
      let q = activated outside t₀ v.version_id r in
      let q' = with_draft outside t₁ draft q in
      let c : WorkflowStore = write id q' p in
      let in_p =
        get_workflow-again id tenant project s p r q h refl (get-put_self id q s.workflows) refl
          refl in
      let in_c =
        get_workflow-again id tenant project p c q q' in_p refl (get-put_self id q' p.workflows)
          refl refl in
      rw
        (
          publish-done t₀ id tenant project s r h,
          update_draft-done t₁ id draft tenant project p q in_p,
        )
        (rollback-done t₂ id v.version_id tenant project c q' v in_c refl
            (version_id_nonempty (outside.hex t₀)) (get-put_self v.version_id v s.versions)
          ∙ ap (λ d. done (with_draft outside t₂ d q')) (strip-build r.draft))
