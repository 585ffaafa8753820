-- ===== src/Budget/Policy/Floors.antt =====
-- What ApplyFloors (budget/v1alpha1/nodebudgetpolicy.go) does to a policy.
use apis.Prelude.{ℤ, ◌≡◌, refl, false, Option, none, some, [], ◌++◌, String, arith, ltb_ℤ, ◌≤ℤ◌}
use apis.Budget.Policy.{
  NodeBudgetPolicySpec, validate_policy, at_least, delivery_cap, min_tier1_deliveries_per_hour,
  raise, raised, lower, lowered, apply_floors, min_tier1_grace_seconds, min_tier1_held_seconds,
  max_tier1_deliveries_per_hour, min_tier1_cooloff_seconds,
}

-- A value, if set, is at least low.
abbrev pub AtLeast : ℤ → Option ℤ → Type 0
AtLeast low none = Unit {0}
AtLeast low (some v) = low ≤ℤ v

abbrev pub AtMost : ℤ → Option ℤ → Type 0
AtMost high none = Unit {0}
AtMost high (some v) = v ≤ℤ high

-- Every tier-1 timer that is set keeps its floor, and the hourly cap its bound.
pub record KeepsFloors (s : NodeBudgetPolicySpec) : Type 0 where
  pub grace : AtLeast min_tier1_grace_seconds s.tier1_grace_seconds
  pub held : AtLeast min_tier1_held_seconds s.tier1_held_seconds
  pub deliveries : AtMost max_tier1_deliveries_per_hour s.tier1_max_deliveries_per_hour
  pub cooloff : AtLeast min_tier1_cooloff_seconds s.tier1_cooloff_seconds

raise-AtLeast : (o : Option ℤ) (low : ℤ) → AtLeast low (raise o low)
unfolding raise
raise-AtLeast none low = tt
raise-AtLeast (some v) low = ground arith

lower-AtMost : (o : Option ℤ) (high : ℤ) → AtMost high (lower o high)
unfolding lower
lower-AtMost none high = tt
lower-AtMost (some v) high = ground arith

raised-nil :
    (name : String) (o : Option ℤ) (low : ℤ)
    → AtLeast low o
    → (raise o low ≡ o) × (raised name o low ≡ [])
unfolding raise raised
raised-nil name none low h = (refl, refl)
raised-nil name (some v) low h =
    let same : ltb_ℤ v low ≡ false = ground arith in rw same (refl, refl)

lowered-nil :
    (name : String) (o : Option ℤ) (high : ℤ)
    → AtMost high o
    → (lower o high ≡ o) × (lowered name o high ≡ [])
unfolding lower lowered
lowered-nil name none high h = (refl, refl)
lowered-nil name (some v) high h =
    let same : ltb_ℤ high v ≡ false = ground arith in rw same (refl, refl)

-- Whatever the policy, after ApplyFloors every timer that is set keeps its floor and the hourly cap
-- its bound.
pub apply_floors-KeepsFloors : (s : NodeBudgetPolicySpec) → KeepsFloors (apply_floors s).0
unfolding apply_floors
apply_floors-KeepsFloors s = record {
  grace = raise-AtLeast s.tier1_grace_seconds min_tier1_grace_seconds;
  held = raise-AtLeast s.tier1_held_seconds min_tier1_held_seconds;
  deliveries = lower-AtMost s.tier1_max_deliveries_per_hour max_tier1_deliveries_per_hour;
  cooloff = raise-AtLeast s.tier1_cooloff_seconds min_tier1_cooloff_seconds;
}

-- A policy that keeps the floors is left as it is, and no field is reported as clamped.
pub apply_floors-same : (s : NodeBudgetPolicySpec) → KeepsFloors s → apply_floors s ≡ (s, [])
unfolding apply_floors
apply_floors-same s k =
    let (g, g') =
      raised-nil "tier1GraceSeconds" s.tier1_grace_seconds min_tier1_grace_seconds k.grace in
    let (h, h') =
      raised-nil "tier1HeldSeconds" s.tier1_held_seconds min_tier1_held_seconds k.held in
    let (d, d') =
      lowered-nil "tier1MaxDeliveriesPerHour" s.tier1_max_deliveries_per_hour
        max_tier1_deliveries_per_hour k.deliveries in
    let (c, c') =
      raised-nil "tier1CooloffSeconds" s.tier1_cooloff_seconds min_tier1_cooloff_seconds
        k.cooloff in
    λ i. (
      record s {
        tier1_grace_seconds = g i;
        tier1_held_seconds = h i;
        tier1_max_deliveries_per_hour = d i;
        tier1_cooloff_seconds = c i;
      },
      g' i ++ (h' i ++ (d' i ++ c' i)),
    )

-- A second ApplyFloors changes nothing and reports nothing.
pub apply_floors-apply_floors :
    (s : NodeBudgetPolicySpec) → apply_floors (apply_floors s).0 ≡ ((apply_floors s).0, [])
apply_floors-apply_floors s = apply_floors-same (apply_floors s).0 (apply_floors-KeepsFloors s)

lower-at_least :
    (o : Option ℤ)
    → at_least delivery_cap min_tier1_deliveries_per_hour (lower o max_tier1_deliveries_per_hour)
      ≡ at_least delivery_cap min_tier1_deliveries_per_hour o
unfolding lower at_least
lower-at_least none = refl
lower-at_least (some v) = ground arith

-- Validate answers the same before and after ApplyFloors: lowering the hourly cap never takes it below
-- its least value.
pub validate_policy-apply_floors :
    (s : NodeBudgetPolicySpec) → validate_policy (apply_floors s).0 ≡ validate_policy s
unfolding validate_policy apply_floors
validate_policy-apply_floors s = rw (lower-at_least s.tier1_max_deliveries_per_hour) refl
