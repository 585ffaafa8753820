-- ===== src/Page/Carried/SignalWords.antt =====
-- The words of a signal (budget/v1alpha1/page.go) that NodeBudgetObservation.Validate accepts.
use apis.Prelude.{
  ◌≡◌, refl, sym, subst, Bool, true, false, not, ◌&&◌, ◌||◌, none, some, [], ◌∷◌, ◌++◌, String, All,
  is_some, str_eq, str_eq_iff, arith, ◌==◌, if◌then◌else◌, ◌>>=◌, zip,
}
use apis.Prelude.Outcomes.{ok}
use apis.Budget.Vocab.{
  signal_codes, signal_valid, signal_unit, unit_codes, page_code, trend_codes,
  limiting_resource_codes, trend_valid, limiting_resource_valid,
}
use apis.Budget.Types.{BudgetSignal, rungs, releases}
use apis.Budget.Ladder.{IsNonNegative, IsLadder}
use apis.Budget.Validate.{
  validate_signal, signal_checks, unknown_unless_empty, unknown_value, wrong_unit,
}
use apis.Budget.Validate.Facts.{
  refuse-eq-ok, first_error-All, check_counts-All, signal-IsLadder, not-false,
}
use apis.Page.Fields.Groups.{optional_signal}
use apis.Page.Fields.Slots.{signal_id_word, signal_unit_word}
use apis.Page.Carried.Words.{by_table, or_empty, signal_valid-one_of}

-- What the rows of a signal's slot need of it.
pub record SignalWords (g : BudgetSignal) : Type 0 where
  pub id : is_some (signal_id_word g) ≡ true
  pub unit : is_some (signal_unit_word g) ≡ true
  pub counts : All IsNonNegative (
      g.value ∷ g.grace_seconds ∷ g.min_reclaim_bytes ∷ g.window_seconds
      ∷ g.eta_to_next_rung_seconds ∷ [])
  pub ladder : IsLadder g.id (zip (rungs g) (releases g))
  pub trend : is_some (page_code trend_codes g.trend "unknown") ≡ true
  pub resource : is_some (page_code limiting_resource_codes g.limiting_resource "unknown") ≡ true
  pub shared : is_some (optional_signal g.shared_with) ≡ true

abbrev unit_answers : String → String → Bool
unit_answers u id = is_some (
    page_code unit_codes u "" >>= λ c.
    if not (c == 0) && str_eq u (signal_unit id) then some c else none)

trend-is_some :
    (v : String)
    → unknown_unless_empty trend_valid v ≡ false
    → is_some (page_code trend_codes v "unknown") ≡ true
unfolding page_code trend_valid
trend-is_some v =
    or_empty (λ t. is_some (page_code trend_codes t "unknown")) trend_valid v refl
      (by_table (λ t. is_some (page_code trend_codes t "unknown")) v (trend_codes ++ "unknown" ∷ [])
        refl)

resource-is_some :
    (v : String)
    → unknown_unless_empty limiting_resource_valid v ≡ false
    → is_some (page_code limiting_resource_codes v "unknown") ≡ true
unfolding page_code limiting_resource_valid
resource-is_some v =
    or_empty (λ t. is_some (page_code limiting_resource_codes t "unknown")) limiting_resource_valid
      v refl
      (by_table (λ t. is_some (page_code limiting_resource_codes t "unknown")) v
        (limiting_resource_codes ++ "unknown" ∷ []) refl)

-- The unit of a known signal has a page code, and is the unit of its signal.
unit_word-is_some :
    (g : BudgetSignal)
    → str_eq g.unit (signal_unit g.id) ≡ true
    → signal_valid g.id ≡ true
    → is_some (signal_unit_word g) ≡ true
unfolding signal_unit_word page_code signal_unit
unit_word-is_some g same known =
    subst (λ u. unit_answers u g.id ≡ true) (sym ((str_eq_iff g.unit (signal_unit g.id)).0 same))
      (by_table (λ id. unit_answers (signal_unit id) id) g.id signal_codes refl
        (signal_valid-one_of g.id known))

shared-is_some :
    (v w : String)
    → (not (str_eq v "") && (not (signal_valid v) || str_eq v w)) ≡ false
    → is_some (optional_signal v) ≡ true
unfolding optional_signal signal_valid
shared-is_some v w h = ground arith

pub signal-words : (g : BudgetSignal) → validate_signal g ≡ ok tt → SignalWords g
unfolding validate_signal signal_id_word signal_valid
signal-words g h =
    let (id, (unit, (counts, (ladder, (trend, (resource, (shared, z))))))) =
      first_error-All (signal_checks g) h in
    let known =
      not-false (signal_valid g.id) (refuse-eq-ok (not (signal_valid g.id)) unknown_value id) in
    record {
      id = ground (arith, known);
      unit =
          unit_word-is_some g
            (not-false (str_eq g.unit (signal_unit g.id))
              (refuse-eq-ok (not (str_eq g.unit (signal_unit g.id))) wrong_unit unit))
            known;
      counts = check_counts-All _ counts;
      ladder = signal-IsLadder g h;
      trend =
          trend-is_some g.trend
            (refuse-eq-ok (unknown_unless_empty trend_valid g.trend) unknown_value trend);
      resource = resource-is_some g.limiting_resource (
          refuse-eq-ok (unknown_unless_empty limiting_resource_valid g.limiting_resource)
            unknown_value resource);
      shared = shared-is_some g.shared_with g.id (
          refuse-eq-ok
            (not (str_eq g.shared_with "")
              && (not (signal_valid g.shared_with) || str_eq g.shared_with g.id))
            unknown_value shared);
    }
