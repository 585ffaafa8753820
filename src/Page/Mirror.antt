-- ===== src/Page/Mirror.antt =====
-- NewPageSnapshot of budget/v1alpha1/page.go: what the page mirrors of an observation.
use apis.Prelude.{ℤ, map, Bytes}
use apis.Budget.Observation.{BandCounters, NodeBudgetObservation}
use apis.Page.Snapshot.{PageBandCounters, PageSnapshot}

-- The loop's body: the running totals of a band, without its windows.
abbrev pub page_band_counters : BandCounters → PageBandCounters
page_band_counters c = record {
  band = c.band;
  evictions_total = c.evictions_total;
  oom_kills_total = c.oom_kills_total;
  kernel_kills_total = c.kernel_kills_total;
  restarts_total = c.restarts_total;
  mem_high_events_total = c.mem_high_events_total;
  tier1_refused_total = c.tier1_refused_total;
}

-- NewPageSnapshot
unfoldable pub new_page_snapshot : Bytes → ℤ → NodeBudgetObservation → PageSnapshot
new_page_snapshot node_name writer_period_seconds o = record {
  generation = o.producer_generation;
  writer_period_seconds = writer_period_seconds;
  node_name = node_name;
  observed_at = o.observed_at;
  platform = o.platform;
  capacity = o.capacity;
  level = o.level;
  darwin = o.darwin;
  linux = o.linux;
  signals = o.signals;
  admit = o.admit;
  admit_reason_signal = o.admit_reason_signal;
  evict_deadline = o.evict_deadline;
  kill_mode = o.kill_mode;
  recommendation = o.recommendation;
  counters = map page_band_counters o.counters;
}
