-- ===== src/Orchestrator/World/Invariant.antt =====
-- The rules by which an action is seen to keep an invariant of the store.
use workcore.Prelude.{Bool, true, false, if◌then◌else◌}
use workcore.Orchestrator.Store.{OrchestrationStore}
use workcore.Orchestrator.World.{
  Failure, Outcome, ok, raise, World, ◌>>=◌, pure, fail, stored, reads, engine, observe,
}

module _ {E : Type 0} (P : OrchestrationStore → Type 0) where
  -- Whether the action returns or raises, what held of the store holds.
  pub record Preserves {A : Type 0} (m : World E → Outcome A × World E) : Type 0 where
    pub at : (w : World E) → P w.store → P (m w).1.store

  module _ {A : Type 0} where
    pub Preserves-pure : (a : A) → Preserves (pure a)
    unfolding pure
    Preserves-pure a = record { at = λ w h. h }

    pub Preserves-fail : (e : Failure) → Preserves (fail {A = A} e)
    unfolding fail
    Preserves-fail e = record { at = λ w h. h }

    pub Preserves-reads : (f : World E → A) → Preserves (reads f)
    unfolding reads
    Preserves-reads f = record { at = λ w h. h }

    pub Preserves-engine : (op : E → Outcome A × E) → Preserves (engine op)
    unfolding engine
    Preserves-engine op = record { at = λ w h. h }

    pub Preserves-stored :
        (op : OrchestrationStore → A × OrchestrationStore)
        → ((s : OrchestrationStore) → P s → P (op s).1)
        → Preserves (stored op)
    unfolding stored
    Preserves-stored op same = record { at = λ w. same w.store }

    pub Preserves-if :
        (b : Bool) (m n : World E → Outcome A × World E)
        → Preserves m
        → Preserves n
        → Preserves (if b then m else n)
    Preserves-if true m n km kn = km
    Preserves-if false m n km kn = kn

  pub Preserves-observe : Preserves observe
  unfolding observe
  Preserves-observe = record { at = λ w h. h }

  module _ {A B : Type 0} where
    continued :
        (r : Outcome A × World E) (f : A → World E → Outcome B × World E)
        → P r.1.store
        → ((a : A) → Preserves (f a))
        → P (workcore.Orchestrator.World.continue r f).1.store
    continued (ok a, w) f h kf = (kf a).at w h
    continued (raise x, w) f h kf = h

    pub Preserves->>= :
        (m : World E → Outcome A × World E) (f : A → World E → Outcome B × World E)
        → Preserves m
        → ((a : A) → Preserves (f a))
        → Preserves (m >>= f)
    unfolding ◌>>=◌
    Preserves->>= m f km kf = record { at = λ w h. continued (m w) f (km.at w h) kf }

pub ruleset preserve_rules = (
  Preserves-pure, Preserves-fail, Preserves-reads, Preserves-engine, Preserves-if,
  Preserves-observe, Preserves->>=,
)
