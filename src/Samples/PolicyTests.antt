-- ===== src/Samples/PolicyTests.antt =====
-- The theorems on the vocabulary and the policies of budget/v1alpha1 at concrete values.
use apis.Prelude.{pos, ◌≡◌, ◌≢◌, ◌↔◌, refl, true, none, some, [], ◌∷◌, codes, zip, arith, String}
use apis.Prelude.Outcomes.{ok}
use apis.Budget.Vocab.{
  page_code, level_codes, signal_page_code, signal_for_page_code, signal_valid, is_descending,
  kill_mode_valid,
}
use apis.Budget.Vocab.Codes.{page_code_injective, signal_for_page_code-signal_page_code}
use apis.Budget.Ladder.{
  check_ladder, IsLadder, check_ladder_iff, check_signs, check_rungs, check_releases,
}
use apis.Budget.Policy.{
  SignalThresholds, NodeBudgetPolicySpec, validate_policy, apply_floors, threshold_rungs,
  threshold_releases, check_entries, check_entry, check_reserves, check_history, permille, at_least,
  at_entry,
}
use apis.Budget.Policy.Floors.{KeepsFloors, apply_floors-KeepsFloors, validate_policy-apply_floors}
use apis.Budget.Policy.Valid.{validate_policy-IsLadder, validate_policy-distinct}
use apis.Budget.Select.{NodeBudgetPolicy, Labels}

signal_for_page_code-signal_page_code_example :
    signal_for_page_code (signal_page_code "memory.swap") ≡ some "memory.swap"
unfolding signal_valid
signal_for_page_code-signal_page_code_example =
    signal_for_page_code-signal_page_code "memory.swap" refl

page_code_injective_example : ◌≡◌ {A = String} "warn" "warn"
unfolding page_code
page_code_injective_example =
    page_code_injective level_codes "warn" "warn" "" 2 refl refl (λ e. omega arith)

abbrev memory_thresholds : SignalThresholds
memory_thresholds = record {
  signal = "memory.available";
  warn_threshold = some (pos 800);
  admit_stop_threshold = none;
  critical_threshold = some (pos 400);
  evict_soft_threshold = none;
  evict_hard_threshold = some (pos 100);
  warn_release = some (pos 900);
  admit_stop_release = none;
  critical_release = some (pos 500);
  evict_soft_release = none;
  evict_hard_release = none;
  grace_seconds = none;
  min_reclaim_bytes = none;
  dwell_seconds = some (pos 5);
  window_seconds = none;
}

abbrev pid_thresholds : SignalThresholds
pid_thresholds = record memory_thresholds { signal = "pid.available" }

abbrev spec : NodeBudgetPolicySpec
spec = record {
  node_selector = ("class", "mac") ∷ [];
  priority = pos 2;
  thresholds = memory_thresholds ∷ pid_thresholds ∷ [];
  reserves = none;
  history = none;
  mode = "auto";
  tier1_grace_seconds = some (pos 5);
  tier1_held_seconds = none;
  tier1_max_deliveries_per_hour = some (pos 9);
  tier1_cooloff_seconds = some (pos 600);
  psi_held_permille = none;
}

spec-ok : validate_policy spec ≡ ok tt
unfolding validate_policy check_entries check_entry signal_valid at_entry check_ladder check_signs
    check_rungs is_descending check_releases check_reserves check_history kill_mode_valid at_least
    permille
spec-ok = refl

check_ladder_iff_example :
    (check_ladder "memory.available"
        (threshold_rungs memory_thresholds)
        (threshold_releases memory_thresholds)
      ≡ ok tt)
    ↔ IsLadder "memory.available"
        (zip (threshold_rungs memory_thresholds) (threshold_releases memory_thresholds))
check_ladder_iff_example =
    check_ladder_iff "memory.available" (threshold_rungs memory_thresholds)
      (threshold_releases memory_thresholds)

validate_policy-IsLadder_example :
    (signal_valid "pid.available" ≡ true)
    × IsLadder "pid.available"
        (zip (threshold_rungs pid_thresholds) (threshold_releases pid_thresholds))
validate_policy-IsLadder_example = validate_policy-IsLadder spec 1 spec-ok refl

validate_policy-distinct_example : memory_thresholds.signal ≢ pid_thresholds.signal
validate_policy-distinct_example = validate_policy-distinct spec 0 1 spec-ok (omega arith) refl refl

apply_floors-KeepsFloors_example : KeepsFloors (apply_floors spec).0
apply_floors-KeepsFloors_example = apply_floors-KeepsFloors spec

abbrev firm : NodeBudgetPolicySpec
firm = record spec { tier1_grace_seconds = some (pos 30); tier1_max_deliveries_per_hour = none }

firm-KeepsFloors : KeepsFloors firm
firm-KeepsFloors = record { grace = omega arith; held = tt; deliveries = tt; cooloff = omega arith }

validate_policy-apply_floors_example : validate_policy (apply_floors spec).0 ≡ validate_policy spec
validate_policy-apply_floors_example = validate_policy-apply_floors spec

abbrev mac : Labels
mac k = some "mac"

abbrev first : NodeBudgetPolicy
first = record { name = codes "b"; spec = spec }

abbrev second : NodeBudgetPolicy
second = record { name = codes "a"; spec = spec }

abbrev third : NodeBudgetPolicy
third = record { name = codes "c"; spec = record spec { priority = pos 7 } }

abbrev bare : Labels
bare k = none
