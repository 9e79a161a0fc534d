-- ===== src/Runtime/Frame/Loop.antt =====
-- What `_handle_while` does to the progress of the nodes: it raises and changes nothing, leaves its
-- loop, or enters the body once more.
use workcore.Prelude.{
  ◌+◌, String, ◌≡◌, ◌≢◌, refl, ap, ◌∙◌, ◌⊎◌, inl, inr, Bool, true, false, not, ◌&&◌, Option, none,
  some, List, [], ◌∷◌, arith, eq_iff, Bool-cases, ◌==◌, contains, select, if◌then◌else◌,
}
use workcore.Dict.{Dict, get, get_or, put, pop}
use workcore.Dict.Laws.{get-put, get-pop, get-put_self}
use workcore.Value.{Value}
use workcore.Runtime.Models.{Node, NodeRun, Run, Workflow}
use workcore.Runtime.Config.{config, text, present, same_text, reaches}
use workcore.Runtime.Env.{Result, ok, raise, Env, State, M, ◌>>=◌, lift, require, get_run, modify}
use workcore.Runtime.Writes.{pop_all}
use workcore.Runtime.Graph.{reachable_from, reverse_reachable_from}
use workcore.Runtime.Branching.{
  nonempty, branch, handle_while, enter_body, leave_loop, loop_body, reset_loop_body,
}
use workcore.Runtime.Frame.{Same, Same-refl, progress_at}

-- The body is entered: one iteration more, of which there was one left, and every node has either
-- kept its progress or lost its node run. The loop itself has kept its progress.
pub record Entered (n : Node) (r q : Run) : Type 0 where
  pub cap : Value
  pub capped : present (config n "max_iterations") ≡ some cap
  pub left : reaches (get_or n.id 0 r.loop_state) cap ≡ ok false
  pub counted : q.loop_state ≡ put n.id (get_or n.id 0 r.loop_state + 1) r.loop_state
  pub reset : (k : String) → (progress_at k q ≡ none) ⊎ (progress_at k q ≡ progress_at k r)
  pub own : progress_at n.id q ≡ progress_at n.id r
  pub branches : (k : String) → n.id ≢ k → get k q.branch_selection ≡ get k r.branch_selection

pub data Looped (n : Node) (r : Run) : Result (Unit {0}) → Run → Type 0 where
  stays : (e : String) → {q : Run} → Same n.id r q → Looped n r (raise e) q
  leaves :
      {q : Run}
      → Same n.id r q
      → same_text (get n.id q.branch_selection) (text n "exit_target") ≡ true
      → Looped n r (ok tt) q
  enters : {q : Run} → Entered n r q → Looped n r (ok tt) q

get-pop_all :
    (k : String) (ids : List String) (d : Dict NodeRun)
    → get k (pop_all ids d) ≡ (if contains k ids then none else get k d)
get-pop_all k [] d = refl
get-pop_all k (i ∷ ids) d = ground (arith, get-pop_all k ids (pop i d), get-pop k i d)

contains-select :
    (k : String) (p : String → Bool) (ids : List String)
    → contains k (select p ids) ≡ true
    → p k ≡ true
contains-select k p [] h = cc
contains-select k p (i ∷ ids) h = ground (arith, contains-select k p ids, eq_iff i k)

module _ (env : Env) (w : Workflow) (n : Node) where
  abbrev W : State → Result (Unit {0}) × State → Type 0
  W s x = Looped n s.run x.0 x.1.run

  after_require {ℓ} :
      {A : Type ℓ} (s : State) (o : Option A) (e : String) (f : A → M (Unit {0}))
      → ((a : A) → o ≡ some a → W s (f a s))
      → W s ((require o e >>= f) s)
  unfolding ◌>>=◌
  after_require s none e f h = stays e (Same-refl n.id s.run)
  after_require s (some a) e f h = h a refl

  after_lift {ℓ} :
      {A : Type ℓ} (s : State) (r : Result A) (f : A → M (Unit {0}))
      → ((a : A) → r ≡ ok a → W s (f a s))
      → W s ((lift r >>= f) s)
  unfolding ◌>>=◌
  after_lift s (raise e) f h = stays e (Same-refl n.id s.run)
  after_lift s (ok a) f h = h a refl

  after_get_run : (s : State) (f : Run → M (Unit {0})) → W s (f s.run s) → W s ((get_run >>= f) s)
  unfolding ◌>>=◌
  after_get_run s f h = h

  after_leave :
      (s : State) (exit : String)
      → text n "exit_target" ≡ some exit
      → W s (modify (leave_loop env w n exit) s)
  unfolding modify leave_loop
  after_leave s exit e =
      leaves
        (record {
          progressed = λ k. refl;
          loops = refl;
          branches =
              λ k ne. ground (arith, get-put k n.id exit s.run.branch_selection, eq_iff n.id k);
        })
        (rw e (ground (arith, get-put_self n.id exit s.run.branch_selection, eq_iff exit exit)))

  not_in_body : (b l : String) → contains n.id (loop_body env w n b l) ≡ false
  unfolding loop_body
  not_in_body b l = elim (Bool-cases (contains n.id (loop_body env w n b l))) [
    | inl m ↦
        let backward = reverse_reachable_from w l in
        let p =
          contains-select n.id (λ k. contains k backward && not (k == n.id)) (reachable_from w b)
            m in
        ground (arith, eq_iff n.id n.id)
    | inr m ↦ m
  ]

  after_enter :
      (s : State) (cap : Value) (b l : String)
      → present (config n "max_iterations") ≡ some cap
      → reaches (get_or n.id 0 s.run.loop_state) cap ≡ ok false
      → W s (modify (enter_body env w n (get_or n.id 0 s.run.loop_state) b l) s)
  unfolding modify enter_body reset_loop_body
  after_enter s cap b l e left = enters (record {
    cap = cap;
    capped = e;
    left = left;
    counted = refl;
    reset = λ k. ground (arith, get-pop_all k (loop_body env w n b l) s.run.node_runs);
    own = ground (arith, get-pop_all n.id (loop_body env w n b l) s.run.node_runs, not_in_body b l);
    branches = λ k ne. ground (arith, get-put k n.id b s.run.branch_selection, eq_iff n.id k);
  })

  text_of_nonempty : (o : Option String) (x : String) → nonempty env w n o ≡ some x → o ≡ some x
  text_of_nonempty none x h = cc
  text_of_nonempty (some y) x h = ground arith

  branch-Looped :
      (s : State) (cap : Value) (again : Bool) (b x l : String)
      → present (config n "max_iterations") ≡ some cap
      → reaches (get_or n.id 0 s.run.loop_state) cap ≡ ok false
      → text n "exit_target" ≡ some x
      → W s (branch env w n again (get_or n.id 0 s.run.loop_state) b x l s)
  branch-Looped s cap true b x l e left ex = after_enter s cap b l e left
  branch-Looped s cap false b x l e left ex = after_leave s x ex

  unspent :
      (spent : Bool) (m : String) (u : Unit {0})
      → (if spent then raise m else ok tt) ≡ ok u
      → spent ≡ false
  unspent true m u h = cc
  unspent false m u h = refl

  -- Whatever the run, the handler of a while node does one of the three.
  pub handle_while-Looped : (s : State) → W s (handle_while env w n s)
  unfolding handle_while
  handle_while-Looped s = after_require s _ _ _ λ condition _. after_require s _ _ _ λ cap capped.
      after_require s _ _ _ λ b _. after_require s _ _ _ λ x ex. after_require s _ _ _ λ l _.
        after_get_run s _ (
          after_lift s _ _ λ spent h. after_lift s _ _ λ u k. after_lift s _ _ λ again _.
            branch-Looped s cap again b x l capped (h ∙ ap ok (unspent spent _ u k))
              (text_of_nonempty _ x ex))
