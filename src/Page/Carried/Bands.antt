-- ===== src/Page/Carried/Bands.antt =====
-- The rows of the band slots (budget/v1alpha1/page.go) of a snapshot of an accepted observation.
use apis.Prelude.{
  ℕ, ℤ, pos, ◌≡◌, refl, sym, subst, Bool, true, false, not, none, some, List, [], ◌∷◌, String, All,
  is_some, arith, range, map, ◌≤ℤ◌, ◌==◌, if◌then◌else◌, ◌>>=◌,
}
use apis.Prelude.Outcomes.{ok}
use apis.Budget.Vocab.{page_code, band_codes, band_valid}
use apis.Budget.Observation.{BandCounters}
use apis.Budget.Validate.{validate_counters, counters_checks, unknown_value}
use apis.Budget.Validate.Facts.{refuse-eq-ok, first_error-All, check_totals-All, All-map, not-false}
use apis.Page.Snapshot.{PageSnapshot, PageBandCounters, max_page_counters}
use apis.Page.Field.{i64}
use apis.Page.Mirror.{page_band_counters}
use apis.Page.Fields.Groups.{counted}
use apis.Page.Fields.Slots.{slot, counter_slot, counter_fields, band_word}
use apis.Page.Carried.Words.{Carries, by_table, slot-is_some, All-flat_map}
use apis.Page.Carried.Getters.{enum_code-Carries, i64-Carries}

-- What the rows of a band's slot need of it.
abbrev CounterWords : PageBandCounters → Type 0
CounterWords c =
    (is_some (band_word c) ≡ true)
    × All (λ v. pos 0 ≤ℤ v)
        (c.evictions_total ∷ c.oom_kills_total ∷ c.kernel_kills_total ∷ c.restarts_total
          ∷ c.mem_high_events_total ∷ c.tier1_refused_total ∷ [])

abbrev band_answers : String → Bool
band_answers b = is_some (page_code band_codes b "" >>= λ w. if w == 0 then none else some w)

counter-words :
    (c : BandCounters) → validate_counters c ≡ ok tt → CounterWords (page_band_counters c)
unfolding validate_counters band_word band_valid page_code
counter-words c h =
    let (band, (totals, more)) = first_error-All (counters_checks c) h in
    (
      by_table band_answers c.band band_codes refl (
          not-false (band_valid c.band)
            (refuse-eq-ok (not (band_valid c.band)) unknown_value band)),
      check_totals-All _ totals,
    )

counted-is_some : (v : ℤ) → pos 0 ≤ℤ v → is_some (counted v) ≡ true
counted-is_some v h = ground arith

module _ (s : PageSnapshot) (words : All CounterWords s.counters) where
  total-Carries :
      (i : ℕ) (name status : String) (get : PageBandCounters → ℤ)
      → ((c : PageBandCounters) → CounterWords c → pos 0 ≤ℤ get c)
      → Carries s (i64 name status false (slot (λ t. t.counters) i (λ c. counted (get c))))
  total-Carries i name status get h =
      i64-Carries s name status false (slot (λ t. t.counters) i (λ c. counted (get c))) (
        slot-is_some (λ t. t.counters) i (λ c. counted (get c)) s
          (All-map CounterWords (λ c. is_some (counted (get c)) ≡ true)
            (λ c w. counted-is_some (get c) (h c w)) s.counters words))

  counter_slot-Carries : (i : ℕ) → All (Carries s) (counter_slot i)
  unfolding counter_slot
  counter_slot-Carries i = (
    enum_code-Carries s _ _ _ (slot (λ t. t.counters) i band_word) (
        slot-is_some (λ t. t.counters) i band_word s
          (All-map CounterWords (λ c. is_some (band_word c) ≡ true) (λ c w. w.0) s.counters words)),
    (
      total-Carries i _ _ (λ c. c.evictions_total) (λ c w. w.1.0),
      (
        total-Carries i _ _ (λ c. c.oom_kills_total) (λ c w. w.1.1.0),
        (
          total-Carries i _ _ (λ c. c.kernel_kills_total) (λ c w. w.1.1.1.0),
          (
            total-Carries i _ _ (λ c. c.restarts_total) (λ c w. w.1.1.1.1.0),
            (
              total-Carries i _ _ (λ c. c.mem_high_events_total) (λ c w. w.1.1.1.1.1.0),
              (total-Carries i _ _ (λ c. c.tier1_refused_total) (λ c w. w.1.1.1.1.1.1.0), tt),
            ),
          ),
        ),
      ),
    ),
  )

  counters-Carries : All (Carries s) counter_fields
  unfolding counter_fields
  counters-Carries =
      All-flat_map (Carries s) counter_slot (range max_page_counters) counter_slot-Carries

mirrored :
    (cs : List BandCounters)
    → All (λ c. validate_counters c ≡ ok tt) cs
    → All CounterWords (map page_band_counters cs)
mirrored [] h = tt
mirrored (c ∷ cs) h = (counter-words c h.0, mirrored cs h.1)

-- Valid counters have these words in the snapshot.
pub counter_fields-Carries :
    (s : PageSnapshot) (cs : List BandCounters)
    → s.counters ≡ map page_band_counters cs
    → All (λ c. validate_counters c ≡ ok tt) cs
    → All (Carries s) counter_fields
counter_fields-Carries s cs e h =
    counters-Carries s (subst (All CounterWords) (sym e) (mirrored cs h))
