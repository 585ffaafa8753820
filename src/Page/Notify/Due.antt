-- ===== src/Page/Notify/Due.antt =====
-- When PageNotifyDue (budget/v1alpha1/page.go) asks for a bump of notifyEpoch.
use apis.Prelude.{
  ℕ, ℤ, ◌≡◌, refl, ◌≢◌, ap, ◌∙◌, false, Option, none, some, List, map, fun_ext, sym, get_elem?,
  range, All,
}
use apis.Budget.Types.{BudgetSignal}
use apis.Page.Snapshot.{PageSnapshot, page_absent, max_page_signals}
use apis.Page.Notify.{
  value_or_absent, thresholds, no_thresholds, ladder_row, ladder_of, notify_key_of, key_eq_iff,
  page_notify_due,
}

-- The thresholds that slot i shows: all absent where the snapshot has no signal i.
unfoldable pub slot_thresholds : PageSnapshot → ℕ → List (Option ℤ)
slot_thresholds s i = elim (get_elem? s.signals i) [ none ↦ no_thresholds | some g ↦ thresholds g ]

-- No threshold is the sentinel that stands for an absent one.
abbrev pub IsCarried : List (Option ℤ) → Type 0
IsCarried = All (λ o. o ≢ some page_absent)

ladder_row_lem :
    (s : PageSnapshot) (i : ℕ) → ladder_row s.signals i ≡ map value_or_absent (slot_thresholds s i)
unfolding ladder_row slot_thresholds
ladder_row_lem s i = go (get_elem? s.signals i)
  where
    go :
        (o : Option BudgetSignal)
        → ◌≡◌ {A = List ℤ}
            (elim o [
              | none ↦ map value_or_absent no_thresholds
              | some g ↦ map value_or_absent (thresholds g)
            ])
            (map value_or_absent (elim o [ none ↦ no_thresholds | some g ↦ thresholds g ]))
    go none = refl
    go (some g) = refl

-- If level, admit, generation and the thresholds of every slot agree, PageNotifyDue asks for no
-- bump, whatever else differs: values, counters, times, capacities.
pub page_notify_due-same :
    (prev next : PageSnapshot)
    → prev.level ≡ next.level
    → prev.admit ≡ next.admit
    → prev.generation ≡ next.generation
    → ((i : ℕ) → slot_thresholds prev i ≡ slot_thresholds next i)
    → page_notify_due (some prev) next ≡ false
unfolding page_notify_due notify_key_of ladder_of
page_notify_due-same prev next level admit generation slots =
    let rows : ladder_row prev.signals ≡ ladder_row next.signals = fun_ext λ i.
      ladder_row_lem prev i ∙ (ap (map value_or_absent) (slots i) ∙ sym (ladder_row_lem next i)) in
    let keys : notify_key_of prev ≡ notify_key_of next = λ i. record {
      level = level i;
      admit = admit i;
      generation = generation i;
      ladder = map (rows i) (range max_page_signals);
    } in
    rw ((key_eq_iff (notify_key_of prev) (notify_key_of next)).1 keys)
