-- ===== src/Budget/Types.antt =====
-- The records of budget/v1alpha1/nodebudget.go that the page and the validation read. A *int64 is an
-- Option; a metav1.Time is read through Unix and IsZero only, and is the pair of their answers.
use apis.Prelude.{ℤ, String, Bool, Option, List, [], ◌∷◌}
use apis.Budget.Vocab.{SignalId}

pub record Time : Type 0 where
  pub unix : ℤ
  pub is_zero : Bool

pub record BudgetCapacity : Type 0 where
  pub cpu_capacity_milli : Option ℤ
  pub cpu_system_reserve_milli : Option ℤ
  pub mem_capacity_bytes : Option ℤ
  pub mem_system_reserve_bytes : Option ℤ
  pub mem_eviction_reserve_bytes : Option ℤ
  pub mem_allocatable_bytes : Option ℤ
  pub swap_total_bytes : Option ℤ
  pub swap_used_bytes : Option ℤ
  pub cpu_performance_cores : Option ℤ
  pub cpu_efficiency_cores : Option ℤ
  pub gpu_present : Option Bool
  pub gpu_count : Option ℤ

pub record BudgetSignal : Type 0 where
  pub id : SignalId
  pub unit : String
  pub value : Option ℤ
  pub warn_threshold : Option ℤ
  pub admit_stop_threshold : Option ℤ
  pub critical_threshold : Option ℤ
  pub evict_soft_threshold : Option ℤ
  pub evict_hard_threshold : Option ℤ
  pub warn_release : Option ℤ
  pub admit_stop_release : Option ℤ
  pub critical_release : Option ℤ
  pub evict_soft_release : Option ℤ
  pub evict_hard_release : Option ℤ
  pub grace_seconds : Option ℤ
  pub min_reclaim_bytes : Option ℤ
  pub window_seconds : Option ℤ
  pub eta_to_next_rung_seconds : Option ℤ
  pub trend : String
  pub limiting_resource : String
  pub shared_with : SignalId

abbrev pub rungs : BudgetSignal → List (Option ℤ)
rungs s =
    s.warn_threshold ∷ s.admit_stop_threshold ∷ s.critical_threshold ∷ s.evict_soft_threshold
    ∷ s.evict_hard_threshold ∷ []

abbrev pub releases : BudgetSignal → List (Option ℤ)
releases s =
    s.warn_release ∷ s.admit_stop_release ∷ s.critical_release ∷ s.evict_soft_release
    ∷ s.evict_hard_release ∷ []

pub record BudgetRecommendation : Type 0 where
  pub safe_additional_bytes : Option ℤ
  pub basis : SignalId

pub record KillMode : Type 0 where
  pub mode : String
  pub armed : Bool
  pub arming_episodes : ℤ
  pub reason : String

pub record DarwinCompressor : Type 0 where
  pub bytes_used : Option ℤ
  pub bytes_stored : Option ℤ
  pub segment_limit_bytes : Option ℤ

pub record DarwinSignals : Type 0 where
  pub vm_pressure_level : Option ℤ
  pub memorystatus_level_permille : Option ℤ
  pub compressor : Option DarwinCompressor
  pub swapins_total : Option ℤ
  pub swapouts_total : Option ℤ

pub record PsiLine : Type 0 where
  pub avg10_permille : Option ℤ
  pub avg60_permille : Option ℤ
  pub total_us : Option ℤ

pub record PsiResource : Type 0 where
  pub some_line : Option PsiLine
  pub full_line : Option PsiLine

pub record LinuxPsi : Type 0 where
  pub cpu : Option PsiResource
  pub memory : Option PsiResource
  pub io : Option PsiResource

pub record LinuxMemoryEvents : Type 0 where
  pub high : Option ℤ
  pub max : Option ℤ
  pub oom : Option ℤ
  pub oom_kill : Option ℤ

pub record LinuxSignals : Type 0 where
  pub psi : Option LinuxPsi
  pub memory_events : Option LinuxMemoryEvents
