-- ===== src/Budget/Observation.antt =====
-- NodeBudgetObservation of budget/v1alpha1/nodebudget.go and the records it alone holds.
use apis.Prelude.{ℤ, String, Bool, Option, List}
use apis.Budget.Vocab.{SignalId}
use apis.Budget.Types.{
  Time, BudgetCapacity, BudgetSignal, BudgetRecommendation, KillMode, DarwinSignals, LinuxSignals,
}

pub record WouldKill : Type 0 where
  pub band : String
  pub reason : String
  pub at : Time

pub record WindowCount : Type 0 where
  pub window : String
  pub reason : String
  pub count : ℤ

pub record BandCounters : Type 0 where
  pub band : String
  pub evictions_total : ℤ
  pub oom_kills_total : ℤ
  pub kernel_kills_total : ℤ
  pub restarts_total : ℤ
  pub mem_high_events_total : ℤ
  pub tier1_refused_total : ℤ
  pub windows : List WindowCount

pub record PolicyRef : Type 0 where
  pub name : String
  pub resource_version : String

pub record AppliedPolicy : Type 0 where
  pub policy_ref : PolicyRef
  pub outcome : String
  pub clamped_fields : List String

pub record NodeBudgetObservation : Type 0 where
  pub observed_at : Time
  pub producer_generation : ℤ
  pub platform : String
  pub level : String
  pub admit : Bool
  pub admit_reason_signal : SignalId
  pub evict_deadline : Option Time
  pub capacity : BudgetCapacity
  pub signals : List BudgetSignal
  pub recommendation : BudgetRecommendation
  pub kill_mode : KillMode
  pub would_kill : Option WouldKill
  pub counters : List BandCounters
  pub policy : Option AppliedPolicy
  pub in_force : Option PolicyRef
  pub darwin : Option DarwinSignals
  pub linux : Option LinuxSignals
