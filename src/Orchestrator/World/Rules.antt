-- ===== src/Orchestrator/World/Rules.antt =====
-- The rules by which an action is seen to leave a part of the store as it is.
use workcore.Prelude.{◌≡◌, refl, ◌∙◌, Bool, true, false, if◌then◌else◌}
use workcore.Orchestrator.Store.{OrchestrationStore}
use workcore.Orchestrator.World.{
  Failure, Outcome, ok, raise, World, ◌>>=◌, pure, fail, stored, reads, engine, observe,
}

module _ {F E : Type 0} (part : OrchestrationStore → F) where
  -- Whether the action returns or raises, the part is what it was.
  pub record Keeps {A : Type 0} (m : World E → Outcome A × World E) : Type 0 where
    pub at : (w : World E) → part (m w).1.store ≡ part w.store

  module _ {A : Type 0} where
    pub Keeps-pure : (a : A) → Keeps (pure a)
    unfolding pure
    Keeps-pure a = record { at = λ w. refl }

    pub Keeps-fail : (e : Failure) → Keeps (fail {A = A} e)
    unfolding fail
    Keeps-fail e = record { at = λ w. refl }

    pub Keeps-reads : (f : World E → A) → Keeps (reads f)
    unfolding reads
    Keeps-reads f = record { at = λ w. refl }

    pub Keeps-engine : (op : E → Outcome A × E) → Keeps (engine op)
    unfolding engine
    Keeps-engine op = record { at = λ w. refl }

    pub Keeps-stored :
        (op : OrchestrationStore → A × OrchestrationStore)
        → ((s : OrchestrationStore) → part (op s).1 ≡ part s)
        → Keeps (stored op)
    unfolding stored
    Keeps-stored op same = record { at = λ w. same w.store }

    pub Keeps-if :
        (b : Bool) (m n : World E → Outcome A × World E)
        → Keeps m
        → Keeps n
        → Keeps (if b then m else n)
    Keeps-if true m n km kn = km
    Keeps-if false m n km kn = kn

  pub Keeps-observe : Keeps observe
  unfolding observe
  Keeps-observe = record { at = λ w. refl }

  module _ {A B : Type 0} where
    continued :
        (s : F) (r : Outcome A × World E) (f : A → World E → Outcome B × World E)
        → part r.1.store ≡ s
        → ((a : A) → Keeps (f a))
        → part (workcore.Orchestrator.World.continue r f).1.store ≡ s
    continued s (ok a, w) f e kf = (kf a).at w ∙ e
    continued s (raise x, w) f e kf = e

    pub Keeps->>= :
        (m : World E → Outcome A × World E) (f : A → World E → Outcome B × World E)
        → Keeps m
        → ((a : A) → Keeps (f a))
        → Keeps (m >>= f)
    unfolding ◌>>=◌
    Keeps->>= m f km kf = record { at = λ w. continued (part w.store) (m w) f (km.at w) kf }

pub ruleset keep_rules =
    (Keeps-pure, Keeps-fail, Keeps-reads, Keeps-engine, Keeps-if, Keeps-observe, Keeps->>=)
