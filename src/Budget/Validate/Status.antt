-- ===== src/Budget/Validate/Status.antt =====
-- NodeBudgetStatus and its Validate (budget/v1alpha1/nodebudget.go). Whether the observation is the
-- zero value is the answer of package reflect, a parameter.
use apis.Prelude.{
  ℕ, suc, ◌≡◌, refl, Bool, true, false, not, Option, none, some, List, [], ◌∷◌, String,
  if◌then◌else◌, ltb, length, All, Bool-cases, inl, inr,
}
use apis.Prelude.Outcomes.{Outcome, ok, ◌>>◌, >>-eq-ok}
use apis.Budget.Vocab.{one_of, writer_shape_valid, condition_reasons, condition_types}
use apis.Budget.Observation.{NodeBudgetObservation}
use apis.Budget.Validate.{
  BudgetFault, refuse, first_error, if_set, at, too_many, unknown_value, validate_observation,
}
use apis.Budget.Validate.Facts.{first_error-All}

-- The fields of a metav1.Condition that are read.
pub record Condition : Type 0 where
  pub type : String
  pub status : String
  pub reason : String

-- `writer` is the shape of the writer, if one is set.
pub record NodeBudgetStatus : Type 0 where
  pub observation : NodeBudgetObservation
  pub writer : Option String
  pub conditions : List Condition

abbrev pub max_budget_conditions : ℕ
max_budget_conditions = 8

-- Whether the reasons of a condition's type and status are a set that holds its reason.
abbrev pub has_known_reason : Condition → Bool
has_known_reason c = elim (condition_reasons c.type c.status) [
  | none ↦ false
  | some reasons ↦ one_of c.reason reasons
]

-- The loop over the conditions: one of another type is not looked at.
unfoldable pub check_conditions : ℕ → List Condition → Outcome BudgetFault (Unit {0})
check_conditions i [] = ok tt
check_conditions i (c ∷ rest) =
    (if one_of c.type condition_types
      then refuse (not (has_known_reason c)) (at i unknown_value)
      else ok tt)
    >> check_conditions (suc i) rest

-- NodeBudgetStatus.Validate
unfoldable pub validate_status :
    (NodeBudgetObservation → Bool) → NodeBudgetStatus → Outcome BudgetFault (Unit {0})
validate_status is_zero s = first_error (
    if_set s.writer (λ shape. refuse (not (writer_shape_valid shape)) unknown_value)
    ∷ refuse (ltb max_budget_conditions (length s.conditions)) too_many
    ∷ check_conditions 0 s.conditions
    ∷ (if is_zero s.observation then ok tt else validate_observation s.observation)
    ∷ [])

-- A condition of the node budget has a reason of the set that its type and status give.
abbrev pub IsClosed : Condition → Type 0
IsClosed c = (if one_of c.type condition_types then has_known_reason c else true) ≡ true

check_condition-IsClosed :
    (i : ℕ) (c : Condition)
    → (if one_of c.type condition_types
        then refuse (not (has_known_reason c)) (at i unknown_value)
        else ok tt)
      ≡ ok tt
    → IsClosed c
check_condition-IsClosed i c h = elim (Bool-cases (one_of c.type condition_types)) [
  | inr other ↦ rw other refl
  | inl ours ↦ rw ours (accepted (has_known_reason c) (rw ours at h))
]
  where
    accepted : (b : Bool) → refuse (not b) (at i unknown_value) ≡ ok tt → b ≡ true
    accepted true k = refl
    accepted false k = absurd (cc)

check_conditions-All :
    (i : ℕ) (cs : List Condition) → check_conditions i cs ≡ ok tt → All IsClosed cs
unfolding check_conditions
check_conditions-All i [] h = tt
check_conditions-All i (c ∷ rest) h =
    let (here, later) = >>-eq-ok _ (check_conditions (suc i) rest) h in
    (check_condition-IsClosed i c here, check_conditions-All (suc i) rest later)

-- An accepted status has, in each condition that belongs to the node budget, a reason of the closed
-- set for the condition's type and status.
pub validate_status-IsClosed :
    (is_zero : NodeBudgetObservation → Bool) (s : NodeBudgetStatus)
    → validate_status is_zero s ≡ ok tt
    → All IsClosed s.conditions
unfolding validate_status
validate_status-IsClosed is_zero s h =
    let (writer, (few, (conditions, more))) =
      first_error-All
        (if_set s.writer (λ shape. refuse (not (writer_shape_valid shape)) unknown_value)
          ∷ refuse (ltb max_budget_conditions (length s.conditions)) too_many
          ∷ check_conditions 0 s.conditions
          ∷ (if is_zero s.observation then ok tt else validate_observation s.observation)
          ∷ [])
        h in
    check_conditions-All 0 s.conditions conditions
