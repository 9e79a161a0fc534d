-- ===== src/Runtime/Work/Attempt.antt =====
-- What one attempt at a node does to the progress of the nodes.
use workcore.Prelude.{suc, ◌≡◌, refl, inl, inr, true, eq_iff, ◌==◌, Bool-cases}
use workcore.Dict.{get}
use workcore.Runtime.Models.{Node, Run, Workflow}
use workcore.Runtime.Config.{config, present, text, same_text}
use workcore.Runtime.Env.{Result, ok, raise, Env, State, M, ◌>>=◌, lift}
use workcore.Runtime.Execute.{handle, attempt, timed}
use workcore.Runtime.Branching.{handle_while}
use workcore.Runtime.Frame.{Same}
use workcore.Runtime.Frame.Handlers.{handle-Frames}
use workcore.Runtime.Frame.Loop.{Entered, Looped, stays, leaves, enters, handle_while-Looped}

-- Either nothing that the scheduler sees has changed but the node's own branch, which after a
-- while node that returned is its exit, or a loop has entered its body.
pub data Tried (n : Node) (r : Run) : Result (Unit {0}) → Run → Type 0 where
  same :
      {res : Result (Unit {0})} {q : Run}
      → Same n.id r q
      → ((n.kind == "while") ≡ true
          → res ≡ ok tt
          → same_text (get n.id q.branch_selection) (text n "exit_target") ≡ true)
      → Tried n r res q
  more :
      {res : Result (Unit {0})} {q : Run}
      → (n.kind == "while") ≡ true
      → Entered n r q
      → Tried n r res q

get_state : (State → Result (Unit {0})) → M (Unit {0})
get_state f s = (f s, record { run = s.run; tick = suc s.tick; emitted = s.emitted })

module _ (env : Env) (w : Workflow) (n : Node) where
  handle-eq-handle_while :
      (s : State) → (n.kind == "while") ≡ true → handle env w n s ≡ handle_while env w n s
  unfolding handle
  handle-eq-handle_while s loop = let e = (eq_iff n.kind "while").0 loop in simp e

  Tried-Looped :
      {r q : Run} (loop : (n.kind == "while") ≡ true) {res : Result (Unit {0})}
      → Looped n r res q
      → Tried n r res q
  Tried-Looped loop (stays e f) = same f (λ l k. cc)
  Tried-Looped loop (leaves f x) = same f (λ l k. x)
  Tried-Looped loop (enters e) = more loop e

  handle-Tried : (s : State) → Tried n s.run (handle env w n s).0 (handle env w n s).1.run
  handle-Tried s = elim (Bool-cases (n.kind == "while")) [
    | inl loop ↦
        rw (handle-eq-handle_while s loop) (Tried-Looped loop (handle_while-Looped env w n s))
    | inr other ↦ same ((handle-Frames env w n other).at s) (λ l k. cc)
  ]

  Tried-after :
      {r q : Run} {res : Result (Unit {0})} (res' : Result (Unit {0}))
      → (res' ≡ ok tt → res ≡ ok tt)
      → Tried n r res q
      → Tried n r res' q
  Tried-after res' h (same f x) = same f (λ l k. x l (h k))
  Tried-after res' h (more l e) = more l e

  after_time :
      {r : Run} (f : State → Result (Unit {0})) (res : Result (Unit {0})) (s : State)
      → Tried n r res s.run
      → let y = (lift res >>= λ u. get_state f) s in Tried n r y.0 y.1.run
  unfolding ◌>>=◌ get_state
  after_time f (ok u) s t = Tried-after (f s) (λ k. refl) t
  after_time f (raise e) s t = t

  -- So does the whole attempt, the check of the time included.
  pub attempt-Tried : (s : State) → Tried n s.run (attempt env w n s).0 (attempt env w n s).1.run
  unfolding attempt ◌>>=◌ get_state
  attempt-Tried s =
      after_time (λ s'. timed env w n (present (config n "timeout_s")) s'.tick) (handle env w n s).0
        (handle env w n s).1 (handle-Tried s)
