-- ===== src/Orchestrator/Policy/Laws.antt =====
-- The bounds of a policy, and that a cooldown ends when the client is told it does.
use Prim.Native.Nat.{◌≤◌}
use workcore.Prelude.{
  ℕ, ◌+◌, String, ◌≡◌, ◌≢◌, refl, Bool, true, false, not, Option, none, some, List, arith, ◌=ℕ◌,
  if◌then◌else◌, Bool-cases, inl, inr, eq_iff,
}
use workcore.Prelude.Int.{pos, Float, of_int, ltb_float}
use workcore.Value.{Fields}
use workcore.Orchestrator.Records.{OrchestrationDecisionRecord}
use workcore.Orchestrator.Policy.{
  Numbers, RoutingPolicy, unit_interval, from_dict, latest_switch, is_cooling,
  switch_policy_error_code, ceil_seconds, remaining_after, switch_retry_after_seconds, microseconds,
}

-- 0 ≤ x ≤ 1
abbrev pub IsUnit : Float → Type 0
IsUnit x = (ltb_float x (of_int (pos 0)) ≡ false) × (ltb_float (of_int (pos 1)) x ≡ false)

unit_interval-IsUnit : (x : Float) → IsUnit (unit_interval x)
unfolding unit_interval
unit_interval-IsUnit x = elim (Bool-cases (ltb_float (of_int (pos 1)) x)) [
  | inl above ↦ rw above (ground arith)
  | inr below ↦ rw below (elim (Bool-cases (ltb_float (of_int (pos 0)) x)) [
    | inl positive ↦ rw positive (ground (arith, positive, below), ground (arith, below))
    | inr other ↦ rw other (refl, refl)
  ])
]

abbrev pub Bounded : RoutingPolicy → Type 0
Bounded p =
    IsUnit p.confidence_threshold
    × IsUnit p.switch_margin
    × IsUnit p.hysteresis_margin
    × (1 ≤ p.top_k_candidates)
    × (p.top_k_candidates ≤ 100)

-- Whatever JSON object a policy is read from, its threshold and its two margins lie between 0 and 1,
-- and its shortlist has between 1 and 100 places.
pub from_dict-Bounded : (numbers : Numbers) (value : Fields) → Bounded (from_dict numbers value)
unfolding from_dict
from_dict-Bounded numbers value = (
  unit_interval-IsUnit _,
  unit_interval-IsUnit _,
  unit_interval-IsUnit _,
  ground arith,
  ground arith,
)

ceil_seconds-none : (n : ℕ) → ceil_seconds n ≡ none → n ≡ 0
unfolding ceil_seconds
ceil_seconds-none n h = ground arith

ceil_seconds-some : (n r : ℕ) → ceil_seconds n ≡ some r → n ≤ microseconds r
unfolding ceil_seconds
ceil_seconds-some n r h = ground arith

code_of :
    (allow cool explicit sticky : Bool)
    → Path
        (Option String)
        (if not allow
          then some "ERR_SWITCH_DISABLED"
          else if cool
          then some "ERR_SWITCH_COOLDOWN_ACTIVE"
          else if explicit
          then some "ERR_SWITCH_EXPLICIT_REQUIRED"
          else if sticky
          then some "ERR_STICKY_POLICY_ACTIVE"
          else none)
        (some "ERR_SWITCH_COOLDOWN_ACTIVE")
    → cool ≡ true
code_of false cool explicit sticky h =
    absurd (ground (arith, eq_iff "ERR_SWITCH_DISABLED" "ERR_SWITCH_COOLDOWN_ACTIVE"))
code_of true true explicit sticky h = refl
code_of true false true sticky h =
    absurd (ground (arith, eq_iff "ERR_SWITCH_EXPLICIT_REQUIRED" "ERR_SWITCH_COOLDOWN_ACTIVE"))
code_of true false false true h =
    absurd (ground (arith, eq_iff "ERR_STICKY_POLICY_ACTIVE" "ERR_SWITCH_COOLDOWN_ACTIVE"))
code_of true false false false h = absurd (ground arith)

module _ (policy : RoutingPolicy) (recent : List OrchestrationDecisionRecord) where
  -- The cooldown is what refuses.
  abbrev pub IsCooling : ℕ → Type 0
  IsCooling now = is_cooling now policy.cooldown_seconds (latest_switch recent) ≡ true

  cooling :
      (now : ℕ) (explicit : Bool)
      → switch_policy_error_code now policy recent explicit ≡ some "ERR_SWITCH_COOLDOWN_ACTIVE"
      → IsCooling now
  unfolding switch_policy_error_code
  cooling now explicit h = code_of _ _ _ _ h

  waited :
      (at later : ℕ) (o : Option OrchestrationDecisionRecord) (r : ℕ)
      → ((d : OrchestrationDecisionRecord) → o ≡ some d → d.created_at ≤ at)
      → remaining_after at policy.cooldown_seconds o ≡ some r
      → at + microseconds r ≤ later
      → is_cooling later policy.cooldown_seconds o ≡ false
  waited at later none r past e l = refl
  waited at later (some d) r past e l = ground (arith, ceil_seconds-some _ r e, past d refl)

  over :
      (at later : ℕ) (o : Option OrchestrationDecisionRecord)
      → ((d : OrchestrationDecisionRecord) → o ≡ some d → d.created_at ≤ at)
      → remaining_after at policy.cooldown_seconds o ≡ none
      → at ≤ later
      → is_cooling later policy.cooldown_seconds o ≡ false
  over at later none past e l = refl
  over at later (some d) past e l = ground (arith, ceil_seconds-none _ e, past d refl)

  abbrev pub or_now : Option ℕ → ℕ
  or_now none = 0
  or_now (some r) = r

  told :
      (at later : ℕ) (o : Option OrchestrationDecisionRecord) (r : Option ℕ)
      → ((d : OrchestrationDecisionRecord) → o ≡ some d → d.created_at ≤ at)
      → remaining_after at policy.cooldown_seconds o ≡ r
      → at + microseconds (or_now r) ≤ later
      → is_cooling later policy.cooldown_seconds o ≡ false
  told at later o none past e l = over at later o past e (omega (arith, l))
  told at later o (some r) past e l = waited at later o r past e l

  no_cooldown :
      (later : ℕ) (o : Option OrchestrationDecisionRecord)
      → (policy.cooldown_seconds =ℕ 0) ≡ true
      → is_cooling later policy.cooldown_seconds o ≡ false
  no_cooldown later none e = refl
  no_cooldown later (some d) e = ground arith

  not_cooling :
      (at later : ℕ)
      → ((d : OrchestrationDecisionRecord) → latest_switch recent ≡ some d → d.created_at ≤ at)
      → at
          + microseconds
              (or_now (switch_retry_after_seconds at "ERR_SWITCH_COOLDOWN_ACTIVE" policy recent))
        ≤ later
      → is_cooling later policy.cooldown_seconds (latest_switch recent) ≡ false
  unfolding switch_retry_after_seconds
  not_cooling at later past l = elim (Bool-cases (policy.cooldown_seconds =ℕ 0)) [
    | inl e ↦ no_cooldown later _ e
    | inr e ↦ told at later _ _ past refl (rw e at l)
  ]

  remaining_bound :
      (at : ℕ) (o : Option OrchestrationDecisionRecord) (r : ℕ)
      → remaining_after at policy.cooldown_seconds o ≡ some r
      → (1 ≤ r) × (r ≤ policy.cooldown_seconds)
  unfolding ceil_seconds
  remaining_bound at none r e = absurd (ground (arith, e))
  remaining_bound at (some d) r e = (ground (arith, e), ground (arith, e))

  abbrev pub Told : ℕ → Option ℕ → Type 0
  Told at none = Unit
  Told at (some r) = (1 ≤ r) × (r ≤ policy.cooldown_seconds)

  wait_bound :
      (at : ℕ) (o : Option OrchestrationDecisionRecord) (r : Option ℕ)
      → remaining_after at policy.cooldown_seconds o ≡ r
      → Told at r
  wait_bound at o none e = tt
  wait_bound at o (some r) e = remaining_bound at o r e

  retry-Told :
      (at : ℕ) → Told at (switch_retry_after_seconds at "ERR_SWITCH_COOLDOWN_ACTIVE" policy recent)
  unfolding switch_retry_after_seconds
  retry-Told at = elim (Bool-cases (policy.cooldown_seconds =ℕ 0)) [
    | inl e ↦ rw e tt
    | inr e ↦ rw e (wait_bound at (latest_switch recent) _ refl)
  ]

  -- A cooldown ends when the client is told that it does: the wait computed at the time `at` is
  -- between one second and the whole cooldown, and once it has passed, or at once where no wait is
  -- computed, no message is refused for the cooldown of these decisions. The latest switch among
  -- them was not made after `at`.
  pub cooldown_ends :
      (at later : ℕ) (explicit : Bool)
      → ((d : OrchestrationDecisionRecord) → latest_switch recent ≡ some d → d.created_at ≤ at)
      → at
          + microseconds
              (or_now (switch_retry_after_seconds at "ERR_SWITCH_COOLDOWN_ACTIVE" policy recent))
        ≤ later
      → Told at (switch_retry_after_seconds at "ERR_SWITCH_COOLDOWN_ACTIVE" policy recent)
        × (switch_policy_error_code later policy recent explicit
            ≢ some "ERR_SWITCH_COOLDOWN_ACTIVE")
  cooldown_ends at later explicit past l = (
    retry-Told at,
    λ h. absurd (ground (arith, cooling later explicit h, not_cooling at later past l)),
  )
