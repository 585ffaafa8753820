-- ===== src/Samples/ObservationTests.antt =====
-- The theorems on the validation of budget/v1alpha1/nodebudget.go at one observation of a linux node.
use apis.Prelude.{◌≡◌, refl, true, false, none, some, pos, [], ◌∷◌, codes, arith}
use apis.Prelude.Outcomes.{ok}
use apis.Budget.Vocab.{
  position, signal_page_code, signal_valid, counter_window_valid, counter_reason_valid, signal_unit,
  trend_valid, limiting_resource_valid, kill_mode_valid, kill_mode_reason_valid, platform_valid,
  level_valid, band_valid, is_descending,
}
use apis.Budget.Observation.{BandCounters, NodeBudgetObservation}
use apis.Budget.Ladder.{
  non_negative, check_signs, check_against, check_rungs, check_release, check_releases,
  has_evict_soft, check_ladder,
}
use apis.Budget.Validate.{
  check_counts, check_totals, validate_capacity, validate_signal, validate_kill_mode, check_windows,
  validate_counters, check_signals, check_counters, validate_linux, validate_observation,
}
use apis.Budget.Validate.Facts.{IsObservation, validate_observation-IsObservation}
use apis.Page.Mirror.{new_page_snapshot}
use apis.Page.Encode.{encode_page}
use apis.Page.Success.{is_ok}
use apis.Page.Carried.Valid.{validate_observation-encode_page}
use apis.Samples.{capacity, memory_signal, no_linux, room}

abbrev pub batch : BandCounters
batch = record {
  band = "batch";
  evictions_total = pos 2;
  oom_kills_total = pos 0;
  kernel_kills_total = pos 0;
  restarts_total = pos 1;
  mem_high_events_total = pos 7;
  tier1_refused_total = pos 0;
  windows = record { window = "1h"; reason = "eviction"; count = pos 2 } ∷ [];
}

abbrev pub observation : NodeBudgetObservation
observation = record {
  observed_at = record { unix = pos 1000; is_zero = false };
  producer_generation = pos 3;
  platform = "linux";
  level = "warn";
  admit = true;
  admit_reason_signal = "";
  evict_deadline = none;
  capacity = capacity;
  signals = memory_signal ∷ [];
  recommendation = record { safe_additional_bytes = some (pos 500); basis = "memory.available" };
  kill_mode = record {
    mode = "auto";
    armed = false;
    arming_episodes = pos 0;
    reason = "observing";
  };
  would_kill = none;
  counters = batch ∷ [];
  policy = none;
  in_force = none;
  darwin = none;
  linux = some no_linux;
}

pub observation-valid : validate_observation observation ≡ ok tt
unfolding validate_observation platform_valid level_valid validate_capacity check_counts
    non_negative check_signals validate_signal signal_valid signal_page_code position signal_unit
    check_ladder is_descending check_signs check_rungs check_against check_releases check_release
    has_evict_soft trend_valid limiting_resource_valid validate_kill_mode kill_mode_valid
    kill_mode_reason_valid check_counters validate_counters band_valid counter_window_valid
    counter_reason_valid check_totals check_windows validate_linux
observation-valid = refl

validate_observation-IsObservation_example : IsObservation observation
validate_observation-IsObservation_example =
    validate_observation-IsObservation observation observation-valid

validate_observation-encode_page_example :
    is_ok (encode_page room (new_page_snapshot (codes "node-7") (pos 10) observation)) ≡ true
validate_observation-encode_page_example =
    validate_observation-encode_page room (codes "node-7") (pos 10) observation observation-valid
      (omega arith) (omega arith) (omega arith) (omega arith)
