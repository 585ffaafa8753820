-- ===== src/Page/Snapshot.antt =====
-- PageSnapshot and PageBandCounters of budget/v1alpha1/page.go. A node name is its bytes.
use apis.Prelude.{ℕ, ℤ, negsuc, ◌-◌, ◌^◌, String, Bool, Option, List, Bytes}
use apis.Budget.Vocab.{SignalId}
use apis.Budget.Types.{
  Time, BudgetCapacity, BudgetSignal, BudgetRecommendation, KillMode, DarwinSignals, LinuxSignals,
}

pub record PageBandCounters : Type 0 where
  pub band : String
  pub evictions_total : ℤ
  pub oom_kills_total : ℤ
  pub kernel_kills_total : ℤ
  pub restarts_total : ℤ
  pub mem_high_events_total : ℤ
  pub tier1_refused_total : ℤ

pub record PageSnapshot : Type 0 where
  pub generation : ℤ
  pub writer_period_seconds : ℤ
  pub node_name : Bytes
  pub observed_at : Time
  pub platform : String
  pub capacity : BudgetCapacity
  pub level : String
  pub darwin : Option DarwinSignals
  pub linux : Option LinuxSignals
  pub signals : List BudgetSignal
  pub admit : Bool
  pub admit_reason_signal : SignalId
  pub evict_deadline : Option Time
  pub kill_mode : KillMode
  pub recommendation : BudgetRecommendation
  pub counters : List PageBandCounters

-- The constants of the page ABI.
abbrev pub page_abi_major : ℕ
page_abi_major = 1

abbrev pub page_abi_minor : ℕ
page_abi_minor = 1

abbrev pub page_size : ℕ
page_size = 4096

abbrev pub page_body_limit : ℕ
page_body_limit = 3072

abbrev pub page_magic : String
page_magic = "K3SMBDGT"

abbrev pub page_seq_offset : ℕ
page_seq_offset = 64

abbrev pub page_notify_epoch_offset : ℕ
page_notify_epoch_offset = 128

abbrev pub page_header_size : ℕ
page_header_size = 192

-- math.MinInt64
abbrev pub page_absent : ℤ
page_absent = negsuc (2 ^ 63 - 1)

abbrev pub page_absent_word : ℕ
page_absent_word = 2 ^ 63

abbrev pub max_page_signals : ℕ
max_page_signals = 8

abbrev pub max_page_counters : ℕ
max_page_counters = 3

abbrev pub max_page_node_name_bytes : ℕ
max_page_node_name_bytes = 253

abbrev pub page_node_name_bytes : ℕ
page_node_name_bytes = 256
