-- ===== src/Orchestrator/Candidates/Laws.antt =====
-- The shortlist and the target of a message come from the active definitions of its project.
use workcore.Prelude.{
  ℕ, zero, suc, ◌≤◌, String, ◌≡◌, refl, sym, ◌∙◌, Bool, true, false, not, ◌&&◌, ◌||◌, Option, none,
  some, List, [], ◌∷◌, arith, ◌==◌, eq_iff, eq_refl, map, any, length, take, select, Bool-cases,
  Option-cases, inl, inr, if◌then◌else◌,
}
use workcore.Sorting.{sort_by}
use workcore.Sorting.Laws.{any-sort_by}
use workcore.Table.{Table, same_key, find, rows}
use workcore.Orchestrator.Records.{WorkflowDefinitionRecord}
use workcore.Orchestrator.Store.{OrchestrationStore}
use workcore.Orchestrator.Store.Sessions.{
  get_workflow_definition, list_workflow_definitions, get_fallback_workflow_definition, first?,
}
use workcore.Orchestrator.Store.Invariants.{Sound, definition_key}
use workcore.Orchestrator.Candidates.{
  Texts, Candidate, RoutingDecision, candidate_of, candidate_shortlist, cut_to, given, id_of,
  active_id, active_definition, fallback_target, first_candidate, resolve_target_workflow,
}

module _ {ℓ} {A : Type ℓ} where
  any_mono :
      (p q : A → Bool)
      → ((x : A) → p x ≡ true → q x ≡ true)
      → (l : List A) → any p l ≡ true
      → any q l ≡ true
  any_mono p q f [] h = absurd (ground (arith, h))
  any_mono p q f (x ∷ l) h = elim (Bool-cases (p x)) [
    | inl e ↦ rw (f x e) refl
    | inr e ↦ ground (arith, any_mono p q f l (ground (arith, e, h)))
  ]

  any-select : (p q : A → Bool) (l : List A) → any p (select q l) ≡ any (λ x. p x && q x) l
  any-select p q [] = refl
  any-select p q (x ∷ l) = ground (arith, any-select p q l)

  any-take : (p : A → Bool) (n : ℕ) (l : List A) → any p (take n l) ≡ true → any p l ≡ true
  any-take p zero l h = absurd (ground (arith, h))
  any-take p (suc n) [] h = absurd (ground (arith, h))
  any-take p (suc n) (x ∷ l) h = elim (Bool-cases (p x)) [
    | inl e ↦ rw e refl
    | inr e ↦ ground (arith, any-take p n l (ground (arith, e, h)))
  ]

  any-first : (p : A → Bool) (l : List A) (x : A) → first? l ≡ some x → p x ≡ true → any p l ≡ true
  any-first p [] x e h = absurd (ground (arith, e))
  any-first p (y ∷ l) x e h = ground (arith, e, h)

pub any-map {ℓ κ} :
    {A : Type ℓ} {B : Type κ} (f : A → B) (p : B → Bool) (l : List A)
    → any p (map f l) ≡ any (λ x. p (f x)) l
any-map f p [] = refl
any-map f p (x ∷ l) = ground (arith, any-map f p l)

any-find {ℓ} :
    {V : Type ℓ} (p : V → Bool) (k : List String) (t : Table V) (v : V)
    → find k t ≡ some v
    → p v ≡ true
    → any p (rows t) ≡ true
unfolding find rows
any-find p k [] v e h = absurd (ground (arith, e))
any-find p k ((j, w) ∷ t) v e h = elim (Bool-cases (same_key j k)) [
  | inl same ↦ ground (arith, e, same, h)
  | inr other ↦ ground (arith, any-find p k t v (ground (arith, e, other)) h)
]

module _ (project_id tenant_id : String) (store : OrchestrationStore) where
  -- An active definition with this id in the project of the tenant.
  abbrev pub offers : String → WorkflowDefinitionRecord → Bool
  offers id d =
      d.workflow_id == id && d.active && d.project_id == project_id && d.tenant_id == tenant_id

  abbrev pub Offered : String → Type 0
  Offered id = any (offers id) (rows store.workflow_definitions) ≡ true

  offers-of :
      (asked id : String) (d : WorkflowDefinitionRecord)
      → d.workflow_id ≡ id
      → d.active ≡ true
      → definition_key d ≡ tenant_id ∷ project_id ∷ asked ∷ []
      → offers id d ≡ true
  offers-of asked id d same on key =
      ground (
        arith,
        eq_iff d.workflow_id id,
        eq_iff d.project_id project_id,
        eq_iff d.tenant_id tenant_id,
      )

  found-Offered :
      (asked id : String) (o : Option WorkflowDefinitionRecord)
      → Sound store
      → find (tenant_id ∷ project_id ∷ asked ∷ []) store.workflow_definitions ≡ o
      → active_id o ≡ some id
      → Offered id
  found-Offered asked id none sound e h = absurd (ground (arith, h))
  found-Offered asked id (some d) sound e h = elim (Bool-cases d.active) [
    | inr off ↦ absurd (ground (arith, h, off))
    | inl on ↦
        any-find (offers id) (tenant_id ∷ project_id ∷ asked ∷ []) store.workflow_definitions d e (
          offers-of asked id d (ground (arith, h, on)) on
            (sound.definitions (tenant_id ∷ project_id ∷ asked ∷ []) d e))
  ]

  active-Offered :
      (o : Option String) (id : String)
      → Sound store
      → active_definition project_id tenant_id store o ≡ some id
      → Offered id
  unfolding get_workflow_definition
  active-Offered none id sound h = absurd (ground (arith, h))
  active-Offered (some asked) id sound h = found-Offered asked id _ sound refl h

  -- Some definition that passes the test of a listing, with this id, is offered.
  listed-Offered :
      (q : WorkflowDefinitionRecord → Bool) (id : String)
      → ((d : WorkflowDefinitionRecord)
          → q d ≡ true
          → (d.active && d.project_id == project_id && d.tenant_id == tenant_id) ≡ true)
      → any
          (λ d. d.workflow_id == id)
          (sort_by
            (λ x y. workcore.Prelude.leb y.updated_at x.updated_at)
            (select q (rows store.workflow_definitions)))
        ≡ true
      → Offered id
  listed-Offered q id means h =
      any_mono (λ d. d.workflow_id == id && q d) (offers id) (λ d e. ground (arith, e, means d))
        (rows store.workflow_definitions)
        (sym (any-select (λ d. d.workflow_id == id) q (rows store.workflow_definitions))
          ∙ sym (any-sort_by _ (λ d. d.workflow_id == id) _)
          ∙ h)

  fallback_row :
      (l : List WorkflowDefinitionRecord) (id : String)
      → id_of (first? l) ≡ some id
      → any (λ d. d.workflow_id == id) l ≡ true
  fallback_row [] id h = absurd (ground (arith, h))
  fallback_row (d ∷ l) id h = ground (arith, h, eq_iff d.workflow_id id)

  fallback-Offered :
      (configured : Option String) (id : String)
      → Sound store
      → fallback_target project_id tenant_id store configured ≡ some id
      → Offered id
  unfolding get_fallback_workflow_definition
  fallback-Offered configured id sound h =
      elim (Option-cases (active_definition project_id tenant_id store (given configured))) [
        | inr (a, e) ↦ active-Offered (given configured) id sound (ground (arith, e, h))
        | inl e ↦
            listed-Offered
              (λ r.
                r.project_id == project_id && r.tenant_id == tenant_id && r.active && r.is_fallback)
              id (λ d t. ground (arith, t)) (fallback_row _ id (ground (arith, e, h)))
      ]

  module _ (texts : Texts) (message_text : String) (top_k : ℕ) where
    any-cut_to :
        (p : Candidate → Bool) (n : ℕ) (l : List Candidate)
        → any p (cut_to texts n l) ≡ true
        → any p l ≡ true
    any-cut_to p zero l h = h
    any-cut_to p (suc n) l h = any-take p (suc n) l h

    shortlist-Offered :
        (id : String)
        → any
            (λ c. c.workflow_id == id)
            (candidate_shortlist texts project_id tenant_id message_text top_k store)
          ≡ true
        → Offered id
    unfolding candidate_shortlist list_workflow_definitions candidate_of
    shortlist-Offered id h =
        listed-Offered
          (λ r. r.project_id == project_id && r.tenant_id == tenant_id && (r.active || not true)) id
          (λ d t. ground (arith, t))
          (sym (any-map _ (λ c. c.workflow_id == id) _)
            ∙ sym (any-sort_by _ (λ c. c.workflow_id == id) _)
            ∙ any-cut_to (λ c. c.workflow_id == id) top_k _ h)

    first_row :
        (cs : List Candidate) (configured : Option String) (id : String)
        → first_candidate project_id tenant_id store cs configured ≡ some id
        → Sound store
        → (any (λ c. c.workflow_id == id) cs ≡ true → Offered id)
        → Offered id
    first_row [] configured id h sound offered = fallback-Offered configured id sound h
    first_row (c ∷ cs) configured id h sound offered =
        offered (ground (arith, h, eq_iff c.workflow_id id))

    -- The target of a message, if there is one, is the id of an active definition of the project in
    -- the tenant, whatever workflow the decision names. The candidates are the shortlist of the
    -- message, and the store is sound.
    pub resolve_target_workflow-Offered :
        (decision : RoutingDecision) (configured : Option String) (id : String)
        → Sound store
        → resolve_target_workflow project_id tenant_id store decision
            (candidate_shortlist texts project_id tenant_id message_text top_k store)
            configured
          ≡ some id
        → Offered id
    unfolding resolve_target_workflow
    resolve_target_workflow-Offered decision configured id sound h =
        elim (Option-cases
          (active_definition project_id tenant_id store (given decision.workflow_id))) [
            | inr (a, e) ↦
                active-Offered (given decision.workflow_id) id sound (ground (arith, e, h))
            | inl e ↦ elim (Bool-cases (decision.route_type == "FALLBACK")) [
              | inl f ↦ fallback-Offered configured id sound (ground (arith, e, f, h))
              | inr f ↦
                  first_row _ configured id (ground (arith, e, f, h)) sound (shortlist-Offered id)
            ]
          ]
