-- ===== src/Page/Fields/Slots.antt =====
-- The rows of pageFieldSpecs (budget/v1alpha1/page.go) for the signal slots and the counter slots.
-- A row of a slot that the snapshot does not fill is the word 0.
use Prim.Native.String
use apis.Prelude.{
  ℕ, ℤ, String, true, false, Option, none, some, List, [], ◌∷◌, flat_map, range, if◌then◌else◌,
  ◌==◌, ◌&&◌, not, str_eq, get_elem?, get_or, ◌>>=◌,
}
use apis.Budget.Vocab.{
  signal_page_code, signal_unit, page_code, unit_codes, trend_codes, limiting_resource_codes,
  band_codes,
}
use apis.Budget.Types.{BudgetSignal}
use apis.Page.Snapshot.{PageSnapshot, PageBandCounters, max_page_signals, max_page_counters}
use apis.Page.Field.{PageField, PageGetter, i64_word, i64, enum_code}
use apis.Page.Fields.Groups.{optional_signal, counted}

-- strconv.Itoa of a slot number, which is one digit.
abbrev itoa : ℕ → String
itoa i = get_or ("0" ∷ "1" ∷ "2" ∷ "3" ∷ "4" ∷ "5" ∷ "6" ∷ "7" ∷ "8" ∷ "9" ∷ []) i ""

-- A getter of slot i: the word 0 where the slot is not filled.
unfoldable pub slot {ℓ} : {A : Type ℓ} → (PageSnapshot → List A) → ℕ → (A → Option ℕ) → PageGetter
slot items i get s = elim (get_elem? (items s) i) [ none ↦ some 0 | some g ↦ get g ]

slot_code : ℕ → String → String → (BudgetSignal → Option ℕ) → PageField
unfolding slot enum_code
slot_code i name enum get =
    enum_code (String.◌++◌ "signals[" (String.◌++◌ (itoa i) (String.◌++◌ "]." name)))
      (String.◌++◌ "status.signals[]." name) enum (slot (λ s. s.signals) i get)

slot_i64 : ℕ → String → (BudgetSignal → Option ℤ) → PageField
unfolding slot i64 i64_word
slot_i64 i name get =
    i64 (String.◌++◌ "signals[" (String.◌++◌ (itoa i) (String.◌++◌ "]." name)))
      (String.◌++◌ "status.signals[]." name) true (slot (λ s. s.signals) i (λ g. i64_word (get g)))

unfoldable pub signal_id_word : BudgetSignal → Option ℕ
unfolding signal_page_code
signal_id_word g = let c = signal_page_code g.id in if c == 0 then none else some c

unfoldable pub signal_unit_word : BudgetSignal → Option ℕ
unfolding page_code signal_unit
signal_unit_word g = page_code unit_codes g.unit "" >>= λ c.
    if not (c == 0) && str_eq g.unit (signal_unit g.id) then some c else none

unfoldable pub signal_slot : ℕ → List PageField
unfolding slot_code slot_i64 signal_id_word signal_unit_word page_code optional_signal
signal_slot i =
    slot_code i "id" "signal" signal_id_word
    ∷ slot_code i "unit" "unit" signal_unit_word
    ∷ slot_i64 i "value" (λ g. g.value)
    ∷ slot_i64 i "warnThreshold" (λ g. g.warn_threshold)
    ∷ slot_i64 i "admitStopThreshold" (λ g. g.admit_stop_threshold)
    ∷ slot_i64 i "criticalThreshold" (λ g. g.critical_threshold)
    ∷ slot_i64 i "evictSoftThreshold" (λ g. g.evict_soft_threshold)
    ∷ slot_i64 i "evictHardThreshold" (λ g. g.evict_hard_threshold)
    ∷ slot_i64 i "warnRelease" (λ g. g.warn_release)
    ∷ slot_i64 i "admitStopRelease" (λ g. g.admit_stop_release)
    ∷ slot_i64 i "criticalRelease" (λ g. g.critical_release)
    ∷ slot_i64 i "evictSoftRelease" (λ g. g.evict_soft_release)
    ∷ slot_i64 i "evictHardRelease" (λ g. g.evict_hard_release)
    ∷ slot_i64 i "graceSeconds" (λ g. g.grace_seconds)
    ∷ slot_i64 i "minReclaimBytes" (λ g. g.min_reclaim_bytes)
    ∷ slot_i64 i "windowSeconds" (λ g. g.window_seconds)
    ∷ slot_i64 i "etaToNextRungSeconds" (λ g. g.eta_to_next_rung_seconds)
    ∷ slot_code i "trend" "trend" (λ g. page_code trend_codes g.trend "unknown")
    ∷ slot_code i "limitingResource" "limitingResource"
        (λ g. page_code limiting_resource_codes g.limiting_resource "unknown")
    ∷ slot_code i "sharedWith" "signal" (λ g. optional_signal g.shared_with)
    ∷ []

unfoldable pub signal_fields : List PageField
unfolding signal_slot
signal_fields = flat_map signal_slot (range max_page_signals)

unfoldable pub band_word : PageBandCounters → Option ℕ
unfolding page_code
band_word c = page_code band_codes c.band "" >>= λ w. if w == 0 then none else some w

counter_i64 : ℕ → String → (PageBandCounters → ℤ) → PageField
unfolding slot i64
counter_i64 i name get =
    i64 (String.◌++◌ "counters[" (String.◌++◌ (itoa i) (String.◌++◌ "]." name)))
      (String.◌++◌ "status.counters[]." name) false
      (slot (λ s. s.counters) i (λ c. counted (get c)))

unfoldable pub counter_slot : ℕ → List PageField
unfolding slot enum_code band_word counter_i64
counter_slot i =
    enum_code (String.◌++◌ "counters[" (String.◌++◌ (itoa i) "].band")) "status.counters[].band"
      "band" (slot (λ s. s.counters) i band_word)
    ∷ counter_i64 i "evictionsTotal" (λ c. c.evictions_total)
    ∷ counter_i64 i "oomKillsTotal" (λ c. c.oom_kills_total)
    ∷ counter_i64 i "kernelKillsTotal" (λ c. c.kernel_kills_total)
    ∷ counter_i64 i "restartsTotal" (λ c. c.restarts_total)
    ∷ counter_i64 i "memHighEventsTotal" (λ c. c.mem_high_events_total)
    ∷ counter_i64 i "tier1RefusedTotal" (λ c. c.tier1_refused_total)
    ∷ []

unfoldable pub counter_fields : List PageField
unfolding counter_slot
counter_fields = flat_map counter_slot (range max_page_counters)
