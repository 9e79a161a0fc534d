-- ===== src/Runtime/Frame/Rules.antt =====
-- The rules by which a handler is seen to leave the progress of the nodes alone.
use workcore.Prelude.{String, ◌≡◌, refl, Bool, true, false, Option, none, some, List, if◌then◌else◌}
use workcore.Value.{Fields}
use workcore.Runtime.Models.{Run}
use workcore.Runtime.Env.{
  Result, ok, raise, State, M, ◌>>=◌, pure, fail, lift, require, get_run, modify, observe, emit_all,
}
use workcore.Runtime.Frame.{Same, Same-refl, Same-trans}

-- The action leaves the progress of every node alone, whether it returns or raises.
pub record Frames (id : String) {A : Type 0} (m : M A) : Type 0 where
  pub at : (s : State) → Same id s.run (m s).1.run

module _ (id : String) where
  module _ {A : Type 0} where
    pub Frames-pure : (a : A) → Frames id (pure a)
    unfolding pure
    Frames-pure a = record { at = λ s. Same-refl id s.run }

    pub Frames-fail : (e : String) → Frames id (fail {A = A} e)
    unfolding fail
    Frames-fail e = record { at = λ s. Same-refl id s.run }

    pub Frames-lift : (r : Result A) → Frames id (lift r)
    unfolding lift
    Frames-lift r = record { at = λ s. Same-refl id s.run }

    pub Frames-require : (o : Option A) (e : String) → Frames id (require o e)
    unfolding require
    Frames-require none e = record { at = λ s. Same-refl id s.run }
    Frames-require (some a) e = record { at = λ s. Same-refl id s.run }

    pub Frames-if :
        (b : Bool) (m n : M A)
        → (b ≡ true → Frames id m)
        → (b ≡ false → Frames id n)
        → Frames id (if b then m else n)
    Frames-if true m n fm fn = fm refl
    Frames-if false m n fm fn = fn refl

  pub Frames-get_run : Frames id get_run
  unfolding get_run
  Frames-get_run = record { at = λ s. Same-refl id s.run }

  pub Frames-observe : Frames id observe
  unfolding observe
  Frames-observe = record { at = λ s. Same-refl id s.run }

  pub Frames-emit_all :
      (n : String) (events : List (String × Option Fields)) → Frames id (emit_all n events)
  unfolding emit_all
  Frames-emit_all n events = record { at = λ s. Same-refl id s.run }

  pub Frames-modify : (f : Run → Run) → ((r : Run) → Same id r (f r)) → Frames id (modify f)
  unfolding modify
  Frames-modify f h = record { at = λ s. h s.run }

  module _ {A B : Type 0} where
    Frames-next :
        (r : Result A) (f : A → M B) → ((a : A) → Frames id (f a)) → Frames id (lift r >>= f)
    unfolding ◌>>=◌
    Frames-next (ok a) f kf = record { at = (kf a).at }
    Frames-next (raise e) f kf = record { at = λ s. Same-refl id s.run }

    pub Frames->>= :
        (m : M A) (f : A → M B) → Frames id m → ((a : A) → Frames id (f a)) → Frames id (m >>= f)
    unfolding ◌>>=◌
    Frames->>= m f km kf = record {
      at = λ s. let (r, s') = m s in Same-trans (km.at s) ((Frames-next r f kf).at s');
    }

pub ruleset frame_rules = (
  Frames-pure, Frames-fail, Frames-lift, Frames-require, Frames-if, Frames-get_run, Frames-observe,
  Frames-emit_all, Frames-modify, Frames->>=,
)
