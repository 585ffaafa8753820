-- ===== src/Budget/Validate.antt =====
-- The validation of budget/v1alpha1/nodebudget.go: NodeBudgetObservation.Validate, the checks of its
-- parts, and NodeBudgetStatus.Validate. An error is its kind and place; the texts are left out.
mod Platform
pub mod Facts
pub mod Status
use apis.Prelude.{
  ℕ, suc, ℤ, pos, Bool, true, false, not, ◌&&◌, ◌||◌, Option, none, some, List, [], ◌∷◌, ◌++◌,
  String, if◌then◌else◌, ltb, leb, ltb_ℤ, eqb_ℤ, ◌==◌, length, any, all, str_eq, codes, is_some,
  bool_eq,
}
use apis.Prelude.Outcomes.{Outcome, ok, err, ◌>>=◌, ◌>>◌}
use apis.Budget.Vocab.{
  SignalId, one_of, signal_valid, signal_unit, trend_valid, limiting_resource_valid,
  kill_mode_valid, kill_mode_reason_valid, platform_valid, level_valid, band_valid,
  would_kill_reason_valid, policy_outcome_valid, policy_field_valid, counter_window_valid,
  counter_reason_valid, writer_shape_valid, condition_reasons, condition_types, band_codes,
}
use apis.Budget.Types.{
  Time, BudgetCapacity, BudgetSignal, rungs, releases, KillMode, DarwinSignals, LinuxSignals,
}
use apis.Budget.Observation.{
  WouldKill, WindowCount, BandCounters, PolicyRef, AppliedPolicy, NodeBudgetObservation,
}
use apis.Budget.Ladder.{LadderFault, check_ladder}
unfoldable pub use Platform.*

abbrev pub max_budget_signals : ℕ
max_budget_signals = 8

abbrev pub max_clamped_fields : ℕ
max_clamped_fields = 8

abbrev pub max_policy_resource_version_bytes : ℕ
max_policy_resource_version_bytes = 64

abbrev pub max_window_counts : ℕ
max_window_counts = 12

-- fmt.Errorf around an error of checkLadder.
abbrev pub in_ladder : Outcome LadderFault (Unit {0}) → Outcome BudgetFault (Unit {0})
in_ladder (ok _) = ok tt
in_ladder (err e) = err (ladder e)

abbrev gpu_disagrees_with : Option Bool → Option ℤ → Bool
gpu_disagrees_with (some present) (some n) = not (bool_eq present (ltb_ℤ (pos 0) n))
gpu_disagrees_with (some present) none = false
gpu_disagrees_with none n = false

abbrev pub capacity_checks : BudgetCapacity → List (Outcome BudgetFault (Unit {0}))
capacity_checks c =
    check_counts (
      c.cpu_capacity_milli ∷ c.cpu_system_reserve_milli ∷ c.mem_capacity_bytes
      ∷ c.mem_system_reserve_bytes ∷ c.mem_eviction_reserve_bytes ∷ c.mem_allocatable_bytes
      ∷ c.swap_total_bytes ∷ c.swap_used_bytes ∷ c.cpu_performance_cores ∷ c.cpu_efficiency_cores
      ∷ c.gpu_count ∷ [])
    ∷ refuse (gpu_disagrees_with c.gpu_present c.gpu_count) gpu_count_disagrees
    ∷ []

-- BudgetCapacity.validate
unfoldable pub validate_capacity : BudgetCapacity → Outcome BudgetFault (Unit {0})
validate_capacity c = first_error (capacity_checks c)

-- A value that may be empty, and otherwise must be known.
abbrev pub unknown_unless_empty : (String → Bool) → String → Bool
unknown_unless_empty valid v = not (str_eq v "") && not (valid v)

abbrev pub signal_checks : BudgetSignal → List (Outcome BudgetFault (Unit {0}))
signal_checks s =
    refuse (not (signal_valid s.id)) unknown_value
    ∷ refuse (not (str_eq s.unit (signal_unit s.id))) wrong_unit
    ∷ check_counts (
        s.value ∷ s.grace_seconds ∷ s.min_reclaim_bytes ∷ s.window_seconds
        ∷ s.eta_to_next_rung_seconds ∷ [])
    ∷ in_ladder (check_ladder s.id (rungs s) (releases s))
    ∷ refuse (unknown_unless_empty trend_valid s.trend) unknown_value
    ∷ refuse (unknown_unless_empty limiting_resource_valid s.limiting_resource) unknown_value
    ∷ refuse
        (not (str_eq s.shared_with "")
          && (not (signal_valid s.shared_with) || str_eq s.shared_with s.id))
        unknown_value
    ∷ []

-- BudgetSignal.validate
unfoldable pub validate_signal : BudgetSignal → Outcome BudgetFault (Unit {0})
validate_signal s = first_error (signal_checks s)

-- `*k == (KillMode{})`
abbrev pub is_zero_kill_mode : KillMode → Bool
is_zero_kill_mode k =
    str_eq k.mode "" && (not k.armed && (eqb_ℤ k.arming_episodes (pos 0) && str_eq k.reason ""))

abbrev pub kill_mode_checks : KillMode → List (Outcome BudgetFault (Unit {0}))
kill_mode_checks k =
    refuse (not (kill_mode_valid k.mode)) unknown_value
    ∷ refuse (ltb_ℤ k.arming_episodes (pos 0)) negative_value
    ∷ refuse (unknown_unless_empty kill_mode_reason_valid k.reason) unknown_value
    ∷ []

-- KillMode.validate
unfoldable pub validate_kill_mode : KillMode → Outcome BudgetFault (Unit {0})
validate_kill_mode k = if is_zero_kill_mode k then ok tt else first_error (kill_mode_checks k)

-- One windowed count; `seen` are the windows and reasons of the counts before.
abbrev pub window_checks :
    List (String × String) → WindowCount → List (Outcome BudgetFault (Unit {0}))
window_checks seen w =
    refuse (not (counter_window_valid w.window) || not (counter_reason_valid w.reason))
      unknown_value
    ∷ refuse (ltb_ℤ w.count (pos 0)) negative_value
    ∷ refuse (any (λ p. str_eq p.0 w.window && str_eq p.1 w.reason) seen) repeated
    ∷ []

-- The loop over the windowed counts.
unfoldable pub check_windows :
    List (String × String) → List WindowCount → Outcome BudgetFault (Unit {0})
check_windows seen [] = ok tt
check_windows seen (w ∷ rest) =
    first_error (window_checks seen w) >> check_windows ((w.window, w.reason) ∷ seen) rest

abbrev pub counters_checks : BandCounters → List (Outcome BudgetFault (Unit {0}))
counters_checks c =
    refuse (not (band_valid c.band)) unknown_value
    ∷ check_totals (
        c.evictions_total ∷ c.oom_kills_total ∷ c.kernel_kills_total ∷ c.restarts_total
        ∷ c.mem_high_events_total ∷ c.tier1_refused_total ∷ [])
    ∷ refuse (ltb max_window_counts (length c.windows)) too_many
    ∷ check_windows [] c.windows
    ∷ []

-- BandCounters.validate
unfoldable pub validate_counters : BandCounters → Outcome BudgetFault (Unit {0})
validate_counters c = first_error (counters_checks c)

unfoldable pub check_clamped : List String → List String → Outcome BudgetFault (Unit {0})
check_clamped seen [] = ok tt
check_clamped seen (f ∷ rest) =
    first_error
      (refuse (not (policy_field_valid f)) unknown_value ∷ refuse (one_of f seen) repeated ∷ [])
    >> check_clamped (f ∷ seen) rest

-- The resourceVersion of a policy: empty, or printable.
abbrev bad_resource_version : String → Bool
bad_resource_version v =
    not (str_eq v "") && not (is_printable_ascii (codes v) max_policy_resource_version_bytes)

-- AppliedPolicy.validate
unfoldable pub validate_applied : AppliedPolicy → Outcome BudgetFault (Unit {0})
validate_applied p = first_error (
    refuse (not (is_object_name (codes p.policy_ref.name))) not_a_name
    ∷ refuse (bad_resource_version p.policy_ref.resource_version) not_printable
    ∷ refuse (not (policy_outcome_valid p.outcome)) unknown_value
    ∷ refuse (ltb max_clamped_fields (length p.clamped_fields)) too_many
    ∷ check_clamped [] p.clamped_fields
    ∷ [])

unfoldable pub check_signals :
    ℕ → List SignalId → List BudgetSignal → Outcome BudgetFault (Unit {0})
check_signals i seen [] = ok tt
check_signals i seen (s ∷ rest) =
    first_error (at_place i (validate_signal s) ∷ refuse (one_of s.id seen) (at i repeated) ∷ [])
    >> check_signals (suc i) (s.id ∷ seen) rest

unfoldable pub check_counters : ℕ → List String → List BandCounters → Outcome BudgetFault (Unit {0})
check_counters i seen [] = ok tt
check_counters i seen (c ∷ rest) =
    first_error
      (at_place i (validate_counters c) ∷ refuse (one_of c.band seen) (at i repeated) ∷ [])
    >> check_counters (suc i) (c.band ∷ seen) rest

-- A check of a part that may be nil.
abbrev pub if_set {ℓ} :
    {A : Type ℓ} → Option A → (A → Outcome BudgetFault (Unit {0})) → Outcome BudgetFault (Unit {0})
if_set none check = ok tt
if_set (some a) check = check a

abbrev check_would_kill : WouldKill → Outcome BudgetFault (Unit {0})
check_would_kill w = first_error (
    refuse (not (band_valid w.band)) unknown_value
    ∷ refuse (not (would_kill_reason_valid w.reason)) unknown_value
    ∷ refuse w.at.is_zero time_not_set
    ∷ [])

abbrev check_in_force : PolicyRef → Outcome BudgetFault (Unit {0})
check_in_force r = first_error (
    refuse (not (is_object_name (codes r.name))) not_a_name
    ∷ refuse (bad_resource_version r.resource_version) not_printable
    ∷ [])

-- Whether a policy that was not rejected is not the one in force.
abbrev not_in_force : AppliedPolicy → Option PolicyRef → Bool
not_in_force p none = not (str_eq p.outcome "rejected")
not_in_force p (some r) =
    not (str_eq p.outcome "rejected")
    && (not (str_eq r.name p.policy_ref.name)
        || not (str_eq r.resource_version p.policy_ref.resource_version))

abbrev pub zero_deadline : Option Time → Bool
zero_deadline none = false
zero_deadline (some t) = t.is_zero

abbrev pub observation_checks : NodeBudgetObservation → List (Outcome BudgetFault (Unit {0}))
observation_checks o =
    refuse o.observed_at.is_zero time_not_set
    ∷ refuse (ltb_ℤ o.producer_generation (pos 0)) negative_value
    ∷ refuse (not (platform_valid o.platform)) unknown_value
    ∷ refuse (bool_eq (is_some o.darwin) (is_some o.linux)) platform_blocks
    ∷ refuse (not (bool_eq (str_eq o.platform "darwin") (is_some o.darwin))) platform_blocks
    ∷ refuse (not (level_valid o.level)) unknown_value
    ∷ refuse (unknown_unless_empty signal_valid o.admit_reason_signal) unknown_value
    ∷ refuse (not (str_eq o.admit_reason_signal "") && o.admit) admit_with_reason
    ∷ refuse (zero_deadline o.evict_deadline) time_not_set
    ∷ validate_capacity o.capacity
    ∷ refuse (ltb max_budget_signals (length o.signals)) too_many
    ∷ check_signals 0 [] o.signals
    ∷ check_counts (o.recommendation.safe_additional_bytes ∷ [])
    ∷ refuse (unknown_unless_empty signal_valid o.recommendation.basis) unknown_value
    ∷ validate_kill_mode o.kill_mode
    ∷ if_set o.would_kill check_would_kill
    ∷ refuse (ltb (length band_codes) (length o.counters)) too_many
    ∷ check_counters 0 [] o.counters
    ∷ if_set o.policy validate_applied
    ∷ if_set o.in_force check_in_force
    ∷ if_set o.policy (λ p. refuse (not_in_force p o.in_force) policy_not_in_force)
    ∷ if_set o.darwin validate_darwin
    ∷ if_set o.linux validate_linux
    ∷ []

-- NodeBudgetObservation.validate: its checks in order, the first error ends them.
unfoldable pub validate_observation : NodeBudgetObservation → Outcome BudgetFault (Unit {0})
validate_observation o = first_error (observation_checks o)
