-- ===== src/Page/Fields/Groups.antt =====
-- The rows of pageFieldSpecs (budget/v1alpha1/page.go) outside the platform blocks and the slots.
use Prim.Native.String
use apis.Prelude.{
  ℕ, ℤ, pos, String, Bool, true, false, Option, none, some, List, [], ◌∷◌, if◌then◌else◌, ◌==◌,
  uint64, leb_ℤ, length, codes, str_eq, ◌||◌, not,
}
use apis.Budget.Vocab.{
  SignalId, signal_page_code, page_code, platform_codes, level_codes, kill_mode_codes,
  kill_mode_reason_codes,
}
use apis.Budget.Types.{Time, BudgetCapacity}
use apis.Page.Snapshot.{
  page_magic, page_abi_major, page_abi_minor, page_header_size, page_node_name_bytes,
  page_absent_word,
}
use apis.Page.Field.{PageField, Kind, const_get, bool_word, row, add, i64, opt, enum_code}

abbrev sized : ℕ → PageField → PageField
sized n f = record f { size = n }

abbrev aligned : ℕ → PageField → PageField
aligned n f = record f { align = n }

unfoldable pub header_fields : List PageField
unfolding add
header_fields =
    add (sized (length (codes page_magic)) (row "magic" Kind.kind_bytes "" none))
    ∷ add (sized 2 (row "abiMajor" Kind.kind_u16 "" (some (const_get page_abi_major))))
    ∷ add (sized 2 (row "abiMinor" Kind.kind_u16 "" (some (const_get page_abi_minor))))
    ∷ add (sized 4 (row "headerSize" Kind.kind_u32 "" (some (const_get page_header_size))))
    ∷ add (sized 4 (row "bodySize" Kind.kind_u32 "" none))
    ∷ add (aligned 64 (row "seq" Kind.kind_u64 "" (some (const_get 0))))
    ∷ add (aligned 64 (row "notifyEpoch" Kind.kind_u64 "" (some (const_get 0))))
    ∷ []

-- A time in whole Unix seconds; the zero time cannot be carried.
abbrev pub time_word : Time → Option ℕ
time_word t = if t.is_zero then none else some (uint64 t.unix)

unfoldable pub identity_fields : List PageField
unfolding add i64 enum_code page_code
identity_fields =
    add (
      aligned 64 (
        row "generation" Kind.kind_i64 "status.producerGeneration"
          (some (λ s. some (uint64 s.generation)))))
    ∷ i64 "writerPeriodSeconds" "" false (λ s. some (uint64 s.writer_period_seconds))
    ∷ i64 "observedAt" "status.observedAt" false (λ s. time_word s.observed_at)
    ∷ enum_code "platform" "status.platform" "platform"
        (λ s. page_code platform_codes s.platform "")
    ∷ add (row "nodeNameLen" Kind.kind_u64 "metadata.name" (some (λ s. some (length s.node_name))))
    ∷ add (sized page_node_name_bytes (row "nodeName" Kind.kind_bytes "metadata.name" none))
    ∷ []

abbrev capacity_opt : String → (BudgetCapacity → Option ℤ) → PageField
capacity_opt name get =
    opt (String.◌++◌ "capacity." name) (String.◌++◌ "status.capacity." name) (λ s. get s.capacity)

unfoldable pub capacity_fields : List PageField
unfolding opt
capacity_fields =
    capacity_opt "cpuCapacityMilli" (λ c. c.cpu_capacity_milli)
    ∷ capacity_opt "cpuSystemReserveMilli" (λ c. c.cpu_system_reserve_milli)
    ∷ capacity_opt "memCapacityBytes" (λ c. c.mem_capacity_bytes)
    ∷ capacity_opt "memSystemReserveBytes" (λ c. c.mem_system_reserve_bytes)
    ∷ capacity_opt "memEvictionReserveBytes" (λ c. c.mem_eviction_reserve_bytes)
    ∷ capacity_opt "memAllocatableBytes" (λ c. c.mem_allocatable_bytes)
    ∷ capacity_opt "swapTotalBytes" (λ c. c.swap_total_bytes)
    ∷ capacity_opt "swapUsedBytes" (λ c. c.swap_used_bytes)
    ∷ []

unfoldable pub level_field : List PageField
unfolding enum_code page_code
level_field = enum_code "level" "status.level" "level" (λ s. page_code level_codes s.level "") ∷ []

-- A signal named in a field that may be empty.
unfoldable pub optional_signal : SignalId → Option ℕ
unfolding signal_page_code
optional_signal s =
    let c = signal_page_code s in if str_eq s "" || not (c == 0) then some c else none

unfoldable pub evict_deadline_word : Option Time → Option ℕ
evict_deadline_word none = some page_absent_word
evict_deadline_word (some t) = time_word t

-- A count that may not be negative.
abbrev pub counted : ℤ → Option ℕ
counted v = if leb_ℤ (pos 0) v then some (uint64 v) else none

unfoldable pub action_fields : List PageField
unfolding add i64 opt enum_code page_code optional_signal bool_word evict_deadline_word
action_fields =
    record (add (row "admit" Kind.kind_u64 "status.admit" (some (λ s. bool_word s.admit)))) {
      enum = "bool";
    }
    ∷ enum_code "admitReasonSignal" "status.admitReasonSignal" "signal"
        (λ s. optional_signal s.admit_reason_signal)
    ∷ i64 "evictDeadline" "status.evictDeadline" true (λ s. evict_deadline_word s.evict_deadline)
    ∷ enum_code "killMode.mode" "status.killMode.mode" "killMode"
        (λ s. page_code kill_mode_codes s.kill_mode.mode "")
    ∷ record (add (
        row "killMode.armed" Kind.kind_u64 "status.killMode.armed"
          (some (λ s. bool_word s.kill_mode.armed)))) { enum = "bool" }
    ∷ i64 "killMode.armingEpisodes" "status.killMode.armingEpisodes" false
        (λ s. counted s.kill_mode.arming_episodes)
    ∷ enum_code "killMode.reason" "status.killMode.reason" "killModeReason"
        (λ s. page_code kill_mode_reason_codes s.kill_mode.reason "unknown")
    ∷ opt "recommendation.safeAdditionalBytes" "status.recommendation.safeAdditionalBytes"
        (λ s. s.recommendation.safe_additional_bytes)
    ∷ enum_code "recommendation.basis" "status.recommendation.basis" "signal"
        (λ s. optional_signal s.recommendation.basis)
    ∷ []

unfoldable pub gpu_present_word : Option Bool → Option ℕ
unfolding bool_word
gpu_present_word none = some page_absent_word
gpu_present_word (some b) = bool_word b

unfoldable pub minor1_fields : List PageField
unfolding add opt gpu_present_word
minor1_fields =
    capacity_opt "cpuPerformanceCores" (λ c. c.cpu_performance_cores)
    ∷ capacity_opt "cpuEfficiencyCores" (λ c. c.cpu_efficiency_cores)
    ∷ record (add (
        row "capacity.gpuPresent" Kind.kind_i64 "status.capacity.gpuPresent"
          (some (λ s. gpu_present_word s.capacity.gpu_present)))) { enum = "bool"; absent = true }
    ∷ capacity_opt "gpuCount" (λ c. c.gpu_count)
    ∷ []
