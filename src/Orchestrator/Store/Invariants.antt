-- ===== src/Orchestrator/Store/Invariants.antt =====
-- The invariants of the tables: what is stored under a key says so itself, and a stack is numbered.
use workcore.Prelude.{
  ℕ, suc, ◌+◌, String, ◌≡◌, refl, ◌∙◌, Bool, Option, none, some, List, [], ◌∷◌, ◌++◌, arith, length,
  Bool-cases, inl, inr,
}
use workcore.Table.{Table, same_key, find, insert}
use workcore.Table.Laws.{same_key_iff, find-insert}
use workcore.Orchestrator.Records.{
  WorkflowDefinitionRecord, SessionStateRecord, WorkflowStackEntryRecord,
}
use workcore.Orchestrator.Store.{OrchestrationStore}
use workcore.Orchestrator.Store.Sessions.{
  session_key, saved_onto, saved_new, save_session_state, append_stack_entry, stack_of,
  upsert_workflow_definition,
}

-- Every value is stored under the key that it names.
abbrev pub StoredBy {ℓ} : {V : Type ℓ} → (V → List String) → Table V → Type ℓ
StoredBy {V = V} key t = (k : List String) (v : V) → find k t ≡ some v → key v ≡ k

pub insert-StoredBy {ℓ} :
    {V : Type ℓ} (key : V → List String) (k : List String) (v : V) (t : Table V)
    → StoredBy key t
    → key v ≡ k
    → StoredBy key (insert k v t)
insert-StoredBy key k v t stored own j u h = elim (Bool-cases (same_key k j)) [
  | inl same ↦ ground (arith, find-insert j k v t, same_key_iff k j)
  | inr other ↦ stored j u (ground (arith, find-insert j k v t))
]

abbrev pub definition_key : WorkflowDefinitionRecord → List String
definition_key d = d.tenant_id ∷ d.project_id ∷ d.workflow_id ∷ []

-- The entries count up from n.
abbrev pub Numbered : ℕ → List WorkflowStackEntryRecord → Type 0
Numbered n [] = Unit
Numbered n (e ∷ es) = (e.stack_index ≡ n) × Numbered (suc n) es

Numbered-append :
    (n : ℕ) (es : List WorkflowStackEntryRecord) (e : WorkflowStackEntryRecord)
    → Numbered n es
    → e.stack_index ≡ n + length es
    → Numbered n (es ++ (e ∷ []))
Numbered-append n [] e ns h = (omega (arith, h), tt)
Numbered-append n (x ∷ xs) e (here, ns) h =
    (here, Numbered-append (suc n) xs e ns (omega (arith, h)))

-- The store's invariant: sessions and workflow definitions are stored under the keys that they name,
-- and every stack counts its entries from 0.
pub record Sound (s : OrchestrationStore) : Type 0 where
  pub sessions : StoredBy session_key s.session_states
  pub definitions : StoredBy definition_key s.workflow_definitions
  pub stacks : (k : List String) → Numbered 0 (stack_of k s)

saved-key_of :
    (at : ℕ) (state : SessionStateRecord) (o : Option SessionStateRecord)
    → ((old : SessionStateRecord) → o ≡ some old → session_key old ≡ session_key state)
    → session_key (elim o as (λ _. SessionStateRecord) [
      | some old ↦ saved_onto at state old
      | none ↦ saved_new at state
    ])
      ≡ session_key state
saved-key_of at state none own = refl
saved-key_of at state (some old) own = own old refl

save_session_state-StoredBy :
    (at : ℕ) (state : SessionStateRecord) (s : OrchestrationStore)
    → StoredBy session_key s.session_states
    → StoredBy session_key (save_session_state at state s).1.session_states
unfolding save_session_state
save_session_state-StoredBy at state s stored =
    insert-StoredBy session_key (session_key state) _ s.session_states stored (
      saved-key_of at state (find (session_key state) s.session_states)
        (λ old e. stored (session_key state) old e))

-- Saving a session keeps the invariant of the store, whatever the session says.
pub save_session_state-Sound :
    (at : ℕ) (state : SessionStateRecord) (s : OrchestrationStore)
    → Sound s
    → Sound (save_session_state at state s).1
save_session_state-Sound at state s sound = record {
  sessions = save_session_state-StoredBy at state s sound.sessions;
  definitions = unfold save_session_state in sound.definitions;
  stacks = unfold save_session_state in sound.stacks;
}

-- Appending to a stack keeps the invariant of the store: the new entry has the next index.
pub append_stack_entry-Sound :
    (at : ℕ) (id project_id session_id tenant_id run_id reason : String) (from : Option String)
    (s : OrchestrationStore)
    → Sound s
    → Sound (append_stack_entry at id project_id session_id tenant_id run_id reason from s).1
unfolding append_stack_entry
append_stack_entry-Sound at id project_id session_id tenant_id run_id reason from s sound = record {
  sessions = sound.sessions;
  definitions = sound.definitions;
  stacks = λ k. elim (Bool-cases (same_key (tenant_id ∷ project_id ∷ session_id ∷ []) k)) [
    | inl same ↦
        rw (find-insert, same)
          (Numbered-append 0 _ _ (sound.stacks (tenant_id ∷ project_id ∷ session_id ∷ []))
            (omega arith))
    | inr other ↦ rw (find-insert, other) (sound.stacks k)
  ];
}

updated-key :
    (o : Option WorkflowDefinitionRecord) (new : WorkflowDefinitionRecord)
    (change : WorkflowDefinitionRecord → WorkflowDefinitionRecord) (k : List String)
    → ((d : WorkflowDefinitionRecord) → definition_key (change d) ≡ definition_key d)
    → definition_key new ≡ k
    → ((d : WorkflowDefinitionRecord) → o ≡ some d → definition_key d ≡ k)
    → definition_key (elim o as (λ _. WorkflowDefinitionRecord) [ some d ↦ change d | none ↦ new ])
      ≡ k
updated-key none new change k kept is_new own = is_new
updated-key (some d) new change k kept is_new own = kept d ∙ own d refl

-- Registering a workflow, new or known, keeps the invariant of the store.
pub upsert_workflow_definition-Sound :
    (at : ℕ) (project_id workflow_id tenant_id name description : String)
    (tags examples : Option (List String)) (active is_fallback : Bool) (s : OrchestrationStore)
    → Sound s
    → Sound
        (upsert_workflow_definition at project_id workflow_id tenant_id name description tags
          examples active is_fallback s).1
unfolding upsert_workflow_definition
upsert_workflow_definition-Sound at project_id workflow_id tenant_id name description tags examples
      active is_fallback s sound =
    record {
      sessions = sound.sessions;
      definitions =
          insert-StoredBy definition_key (tenant_id ∷ project_id ∷ workflow_id ∷ []) _
            s.workflow_definitions sound.definitions
            (updated-key (find (tenant_id ∷ project_id ∷ workflow_id ∷ []) s.workflow_definitions) _
              _ _ (λ d. refl) refl
              (λ d e. sound.definitions (tenant_id ∷ project_id ∷ workflow_id ∷ []) d e));
      stacks = sound.stacks;
    }
