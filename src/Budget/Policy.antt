-- ===== src/Budget/Policy.antt =====
-- NodeBudgetPolicySpec of budget/v1alpha1/nodebudgetpolicy.go: Validate and ApplyFloors, with the floors
-- of floors.go. An error is its kind and place; the texts are left out.
pub mod Floors
pub mod Valid
use apis.Prelude.{
  ℕ, suc, ℤ, pos, ◌≡◌, refl, Bool, true, false, not, ◌&&◌, ◌||◌, Option, none, some, List, [], ◌∷◌,
  ◌++◌, String, if◌then◌else◌, ltb, ltb_ℤ, length, any, str_eq,
}
use apis.Prelude.Outcomes.{Outcome, ok, err, ◌>>=◌, ◌>>◌}
use apis.Budget.Vocab.{SignalId, signal_valid, kill_mode_valid}
use apis.Budget.Ladder.{LadderFault, non_negative, check_ladder}

pub record SignalThresholds : Type 0 where
  pub signal : SignalId
  pub warn_threshold : Option ℤ
  pub admit_stop_threshold : Option ℤ
  pub critical_threshold : Option ℤ
  pub evict_soft_threshold : Option ℤ
  pub evict_hard_threshold : Option ℤ
  pub warn_release : Option ℤ
  pub admit_stop_release : Option ℤ
  pub critical_release : Option ℤ
  pub evict_soft_release : Option ℤ
  pub evict_hard_release : Option ℤ
  pub grace_seconds : Option ℤ
  pub min_reclaim_bytes : Option ℤ
  pub dwell_seconds : Option ℤ
  pub window_seconds : Option ℤ

pub record BudgetReserves : Type 0 where
  pub cpu_system_reserve_milli : Option ℤ
  pub mem_system_reserve_bytes : Option ℤ
  pub mem_eviction_reserve_bytes : Option ℤ

pub record BudgetHistory : Type 0 where
  pub memory_half_life_seconds : Option ℤ
  pub cpu_half_life_seconds : Option ℤ
  pub margin_permille : Option ℤ

-- The node selector is the list of its entries.
pub record NodeBudgetPolicySpec : Type 0 where
  pub node_selector : List (String × String)
  pub priority : ℤ
  pub thresholds : List SignalThresholds
  pub reserves : Option BudgetReserves
  pub history : Option BudgetHistory
  pub mode : String
  pub tier1_grace_seconds : Option ℤ
  pub tier1_held_seconds : Option ℤ
  pub tier1_max_deliveries_per_hour : Option ℤ
  pub tier1_cooloff_seconds : Option ℤ
  pub psi_held_permille : Option ℤ

abbrev pub max_policy_thresholds : ℕ
max_policy_thresholds = 8

abbrev pub max_policy_node_selector_labels : ℕ
max_policy_node_selector_labels = 32

abbrev pub min_tier1_grace_seconds : ℤ
min_tier1_grace_seconds = pos 10

abbrev pub min_tier1_held_seconds : ℤ
min_tier1_held_seconds = pos 10

abbrev pub max_tier1_deliveries_per_hour : ℤ
max_tier1_deliveries_per_hour = pos 6

abbrev pub min_tier1_deliveries_per_hour : ℤ
min_tier1_deliveries_per_hour = pos 1

abbrev pub min_tier1_cooloff_seconds : ℤ
min_tier1_cooloff_seconds = pos 300

abbrev pub threshold_rungs : SignalThresholds → List (Option ℤ)
threshold_rungs t =
    t.warn_threshold ∷ t.admit_stop_threshold ∷ t.critical_threshold ∷ t.evict_soft_threshold
    ∷ t.evict_hard_threshold ∷ []

abbrev pub threshold_releases : SignalThresholds → List (Option ℤ)
threshold_releases t =
    t.warn_release ∷ t.admit_stop_release ∷ t.critical_release ∷ t.evict_soft_release
    ∷ t.evict_hard_release ∷ []

pub data PolicyFault : Type 0 where
  too_many_labels too_many_thresholds : PolicyFault
  unknown_signal repeated_signal negative_threshold : (i : ℕ) → PolicyFault
  bad_ladder : (i : ℕ) → LadderFault → PolicyFault
  negative_reserve half_life not_permille unknown_mode delivery_cap : PolicyFault

-- fmt.Errorf around the error of checkLadder.
unfoldable pub at_entry : ℕ → Outcome LadderFault (Unit {0}) → Outcome PolicyFault (Unit {0})
at_entry i (ok _) = ok tt
at_entry i (err e) = err (bad_ladder i e)

abbrev pub refuse : Bool → PolicyFault → Outcome PolicyFault (Unit {0})
refuse b e = if b then err e else ok tt

-- permille
unfoldable pub permille : Option ℤ → Outcome PolicyFault (Unit {0})
permille none = ok tt
permille (some v) = refuse (ltb_ℤ v (pos 0) || ltb_ℤ (pos 1000) v) not_permille

-- One round of the loop over the thresholds; `seen` are the signals of the rounds before.
unfoldable pub check_entry : ℕ → List SignalId → SignalThresholds → Outcome PolicyFault (Unit {0})
check_entry i seen t = do
  refuse (not (signal_valid t.signal)) (unknown_signal i)
  refuse (any (λ s. str_eq s t.signal) seen) (repeated_signal i)
  at_entry i (check_ladder t.signal (threshold_rungs t) (threshold_releases t))
  non_negative (negative_threshold i) t.grace_seconds
  non_negative (negative_threshold i) t.dwell_seconds
  non_negative (negative_threshold i) t.window_seconds
  non_negative (negative_threshold i) t.min_reclaim_bytes

unfoldable pub check_entries :
    ℕ → List SignalId → List SignalThresholds → Outcome PolicyFault (Unit {0})
check_entries i seen [] = ok tt
check_entries i seen (t ∷ rest) =
    check_entry i seen t >> check_entries (suc i) (t.signal ∷ seen) rest

unfoldable pub check_reserves : Option BudgetReserves → Outcome PolicyFault (Unit {0})
check_reserves none = ok tt
check_reserves (some r) = do
  non_negative negative_reserve r.cpu_system_reserve_milli
  non_negative negative_reserve r.mem_system_reserve_bytes
  non_negative negative_reserve r.mem_eviction_reserve_bytes

-- Refuses a set value below a bound.
unfoldable pub at_least : PolicyFault → ℤ → Option ℤ → Outcome PolicyFault (Unit {0})
at_least e low none = ok tt
at_least e low (some v) = refuse (ltb_ℤ v low) e

unfoldable pub check_history : Option BudgetHistory → Outcome PolicyFault (Unit {0})
check_history none = ok tt
check_history (some h) = do
  at_least half_life (pos 1) h.memory_half_life_seconds
  at_least half_life (pos 1) h.cpu_half_life_seconds
  permille h.margin_permille

-- NodeBudgetPolicySpec.validate
unfoldable pub validate_policy : NodeBudgetPolicySpec → Outcome PolicyFault (Unit {0})
validate_policy s = do
  refuse (ltb max_policy_node_selector_labels (length s.node_selector)) too_many_labels
  refuse (ltb max_policy_thresholds (length s.thresholds)) too_many_thresholds
  check_entries 0 [] s.thresholds
  check_reserves s.reserves
  check_history s.history
  refuse (not (str_eq s.mode "") && not (kill_mode_valid s.mode)) unknown_mode
  at_least delivery_cap min_tier1_deliveries_per_hour s.tier1_max_deliveries_per_hour
  permille s.psi_held_permille

-- The closure `raise` of ApplyFloors: the value after it.
unfoldable pub raise : Option ℤ → ℤ → Option ℤ
raise none floor = none
raise (some v) floor = some (if ltb_ℤ v floor then floor else v)

-- Whether `raise` changed the value, and appends the field's name.
unfoldable pub raised : String → Option ℤ → ℤ → List String
raised name none floor = []
raised name (some v) floor = if ltb_ℤ v floor then name ∷ [] else []

-- The same of the hourly cap, which is lowered.
unfoldable pub lower : Option ℤ → ℤ → Option ℤ
lower none cap = none
lower (some v) cap = some (if ltb_ℤ cap v then cap else v)

unfoldable pub lowered : String → Option ℤ → ℤ → List String
lowered name none cap = []
lowered name (some v) cap = if ltb_ℤ cap v then name ∷ [] else []

-- ApplyFloors
unfoldable pub apply_floors : NodeBudgetPolicySpec → NodeBudgetPolicySpec × List String
apply_floors s = (
  record s {
    tier1_grace_seconds = raise s.tier1_grace_seconds min_tier1_grace_seconds;
    tier1_held_seconds = raise s.tier1_held_seconds min_tier1_held_seconds;
    tier1_max_deliveries_per_hour =
        lower s.tier1_max_deliveries_per_hour max_tier1_deliveries_per_hour;
    tier1_cooloff_seconds = raise s.tier1_cooloff_seconds min_tier1_cooloff_seconds;
  },
  raised "tier1GraceSeconds" s.tier1_grace_seconds min_tier1_grace_seconds
      ++ (raised "tier1HeldSeconds" s.tier1_held_seconds min_tier1_held_seconds
          ++ (lowered "tier1MaxDeliveriesPerHour" s.tier1_max_deliveries_per_hour
                max_tier1_deliveries_per_hour
              ++ raised "tier1CooloffSeconds" s.tier1_cooloff_seconds min_tier1_cooloff_seconds)),
)
