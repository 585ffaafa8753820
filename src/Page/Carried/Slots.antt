-- ===== src/Page/Carried/Slots.antt =====
-- The rows of the signal slots (budget/v1alpha1/page.go) of a snapshot of an accepted observation.
use apis.Prelude.{ℕ, ℤ, ◌≡◌, true, Option, String, All, is_some, range}
use apis.Prelude.Outcomes.{ok}
use apis.Budget.Vocab.{page_code, trend_codes, limiting_resource_codes}
use apis.Budget.Types.{BudgetSignal}
use apis.Budget.Ladder.{IsNonNegative}
use apis.Budget.Validate.{validate_signal}
use apis.Budget.Validate.Facts.{All-map}
use apis.Page.Snapshot.{PageSnapshot, max_page_signals}
use apis.Page.Field.{i64_word, i64}
use apis.Page.Fields.Groups.{optional_signal}
use apis.Page.Fields.Slots.{slot, signal_slot, signal_fields, signal_id_word, signal_unit_word}
use apis.Page.Carried.Words.{Carries, i64_word-is_some, slot-is_some, All-flat_map}
use apis.Page.Carried.Getters.{enum_code-Carries, i64-Carries}
use apis.Page.Carried.SignalWords.{SignalWords, signal-words}

-- The rows of slot i: each reads the item there, if there is one.
module _ (s : PageSnapshot) (words : All SignalWords s.signals) where
  signal_slot-is_some :
      (i : ℕ) (get : BudgetSignal → Option ℕ)
      → ((g : BudgetSignal) → SignalWords g → is_some (get g) ≡ true)
      → is_some (slot (λ t. t.signals) i get s) ≡ true
  signal_slot-is_some i get h =
      slot-is_some (λ t. t.signals) i get s
        (All-map SignalWords (λ g. is_some (get g) ≡ true) h s.signals words)

  number-Carries :
      (i : ℕ) (name status : String) (get : BudgetSignal → Option ℤ)
      → ((g : BudgetSignal) → SignalWords g → IsNonNegative (get g))
      → Carries s (i64 name status true (slot (λ t. t.signals) i (λ g. i64_word (get g))))
  number-Carries i name status get h =
      i64-Carries s name status true (slot (λ t. t.signals) i (λ g. i64_word (get g)))
        (signal_slot-is_some i (λ g. i64_word (get g)) (λ g w. i64_word-is_some (get g) (h g w)))

  slot-Carries : (i : ℕ) → All (Carries s) (signal_slot i)
  unfolding signal_slot
  slot-Carries i = (
    enum_code-Carries s _ _ _ (slot (λ t. t.signals) i signal_id_word)
        (signal_slot-is_some i signal_id_word (λ g w. w.id)),
    (
      enum_code-Carries s _ _ _ (slot (λ t. t.signals) i signal_unit_word)
          (signal_slot-is_some i signal_unit_word (λ g w. w.unit)),
      (
        number-Carries i _ _ (λ g. g.value) (λ g w. w.counts.0),
        (
          number-Carries i _ _ (λ g. g.warn_threshold) (λ g w. w.ladder.signs.0.0),
          (
            number-Carries i _ _ (λ g. g.admit_stop_threshold) (λ g w. w.ladder.signs.1.0.0),
            (
              number-Carries i _ _ (λ g. g.critical_threshold) (λ g w. w.ladder.signs.1.1.0.0),
              (
                number-Carries i _ _ (λ g. g.evict_soft_threshold)
                    (λ g w. w.ladder.signs.1.1.1.0.0),
                (
                  number-Carries i _ _ (λ g. g.evict_hard_threshold)
                      (λ g w. w.ladder.signs.1.1.1.1.0.0),
                  (
                    number-Carries i _ _ (λ g. g.warn_release) (λ g w. w.ladder.signs.0.1),
                    (
                      number-Carries i _ _ (λ g. g.admit_stop_release)
                          (λ g w. w.ladder.signs.1.0.1),
                      (
                        number-Carries i _ _ (λ g. g.critical_release)
                            (λ g w. w.ladder.signs.1.1.0.1),
                        (
                          number-Carries i _ _ (λ g. g.evict_soft_release)
                              (λ g w. w.ladder.signs.1.1.1.0.1),
                          (
                            number-Carries i _ _ (λ g. g.evict_hard_release)
                                (λ g w. w.ladder.signs.1.1.1.1.0.1),
                            (
                              number-Carries i _ _ (λ g. g.grace_seconds) (λ g w. w.counts.1.0),
                              (
                                number-Carries i _ _ (λ g. g.min_reclaim_bytes)
                                    (λ g w. w.counts.1.1.0),
                                (
                                  number-Carries i _ _ (λ g. g.window_seconds)
                                      (λ g w. w.counts.1.1.1.0),
                                  (
                                    number-Carries i _ _ (λ g. g.eta_to_next_rung_seconds)
                                        (λ g w. w.counts.1.1.1.1.0),
                                    (
                                      enum_code-Carries s _ _ _
                                          (slot (λ t. t.signals) i
                                            (λ g. page_code trend_codes g.trend "unknown"))
                                          (signal_slot-is_some i
                                            (λ g. page_code trend_codes g.trend "unknown")
                                            (λ g w. w.trend)),
                                      (
                                        enum_code-Carries s _ _ _
                                            (slot (λ t. t.signals) i
                                              (λ g.
                                                page_code limiting_resource_codes
                                                  g.limiting_resource "unknown"))
                                            (signal_slot-is_some i
                                              (λ g.
                                                page_code limiting_resource_codes
                                                  g.limiting_resource "unknown")
                                              (λ g w. w.resource)),
                                        (
                                          enum_code-Carries s _ _ _
                                              (slot (λ t. t.signals) i
                                                (λ g. optional_signal g.shared_with))
                                              (signal_slot-is_some i
                                                (λ g. optional_signal g.shared_with)
                                                (λ g w. w.shared)),
                                          tt,
                                        ),
                                      ),
                                    ),
                                  ),
                                ),
                              ),
                            ),
                          ),
                        ),
                      ),
                    ),
                  ),
                ),
              ),
            ),
          ),
        ),
      ),
    ),
  )

  signals-Carries : All (Carries s) signal_fields
  unfolding signal_fields
  signals-Carries = All-flat_map (Carries s) signal_slot (range max_page_signals) slot-Carries

-- Valid signals have these words.
pub signal_fields-Carries :
    (s : PageSnapshot)
    → All (λ g. validate_signal g ≡ ok tt) s.signals
    → All (Carries s) signal_fields
signal_fields-Carries s h =
    signals-Carries s
      (All-map (λ g. validate_signal g ≡ ok tt) SignalWords signal-words s.signals h)
