-- ===== src/Samples.antt =====
-- Snapshots and pages for the tests, and the tests of the page of budget/v1alpha1/page.go.
pub mod PageTests
pub mod WriterTests
pub mod ResultTests
pub mod ObservationTests
pub mod AnnotationTests
pub mod PolicyTests
pub mod PathTests
pub mod HandlerTests
use apis.Prelude.{
  ℕ, ◌^◌, ◌*◌, ◌+◌, ◌≡◌, refl, true, false, none, some, [], ◌∷◌, codes, pos, if◌then◌else◌, ◌==◌,
}
use apis.Budget.Types.{BudgetSignal, BudgetCapacity, LinuxSignals}
use apis.Page.Bytes.{zeroed}
use apis.Page.Snapshot.{PageSnapshot, page_size}
use apis.Page.Layout.{page_layout}
use apis.Page.Encode.{ok, err, Buffer, encode_page, check_page_snapshot, put_fields, copy_page}
use apis.Page.Writer.{Words}

abbrev pub capacity : BudgetCapacity
capacity = record {
  cpu_capacity_milli = some (pos 8000);
  cpu_system_reserve_milli = none;
  mem_capacity_bytes = some (pos (2 ^ 34));
  mem_system_reserve_bytes = none;
  mem_eviction_reserve_bytes = none;
  mem_allocatable_bytes = some (pos (2 ^ 33));
  swap_total_bytes = none;
  swap_used_bytes = none;
  cpu_performance_cores = none;
  cpu_efficiency_cores = none;
  gpu_present = some false;
  gpu_count = none;
}

abbrev pub memory_signal : BudgetSignal
memory_signal = record {
  id = "memory.available";
  unit = "bytes";
  value = some (pos 900);
  warn_threshold = some (pos 800);
  admit_stop_threshold = some (pos 600);
  critical_threshold = some (pos 400);
  evict_soft_threshold = none;
  evict_hard_threshold = some (pos 100);
  warn_release = some (pos 850);
  admit_stop_release = some (pos 650);
  critical_release = some (pos 450);
  evict_soft_release = none;
  evict_hard_release = none;
  grace_seconds = none;
  min_reclaim_bytes = none;
  window_seconds = none;
  eta_to_next_rung_seconds = none;
  trend = "steady";
  limiting_resource = "memory";
  shared_with = "";
}

abbrev pub no_linux : LinuxSignals
no_linux = record { psi = none; memory_events = none }

abbrev pub snapshot : PageSnapshot
snapshot = record {
  generation = pos 3;
  writer_period_seconds = pos 10;
  node_name = codes "node-7";
  observed_at = record { unix = pos 1000; is_zero = false };
  platform = "linux";
  capacity = capacity;
  level = "warn";
  darwin = none;
  linux = some no_linux;
  signals = memory_signal ∷ [];
  admit = true;
  admit_reason_signal = "";
  evict_deadline = none;
  kill_mode = record {
    mode = "auto";
    armed = false;
    arming_episodes = pos 0;
    reason = "observing";
  };
  recommendation = record { safe_additional_bytes = some (pos 500); basis = "memory.available" };
  counters = [];
}

abbrev pub room : Buffer
room = record { len = page_size + 8; at = zeroed }

pub page_buffer_of : Buffer
unfolding encode_page check_page_snapshot put_fields page_layout copy_page
page_buffer_of = elim (encode_page room snapshot) [ ok page ↦ page | err _ ↦ room ]

pub page_of-ok : encode_page room snapshot ≡ ok page_buffer_of
unfolding page_buffer_of
page_of-ok = refl

-- The header words of a page that minor 2, with a body of 3000 bytes, left.
abbrev pub newer_minor : Words
newer_minor i =
    if i == 0
    then 6072897674088231755
    else if i == 8
    then 1 + 2 * 2 ^ 16 + 192 * 2 ^ 32
    else if i == 16
    then 3000
    else 0
