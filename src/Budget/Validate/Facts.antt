-- ===== src/Budget/Validate/Facts.antt =====
-- What the validation of budget/v1alpha1/nodebudget.go establishes of each part.
use apis.Prelude.{
  ℕ, suc, ◌≤◌, ◌≡◌, ◌≢◌, refl, ℤ, pos, ◌≤ℤ◌, Bool, true, false, not, Option, none, some, List, [],
  ◌∷◌, String, All, ltb, ltb_ℤ, arith, sym, zip, str_eq, str_eq_iff, is_some, length, bool_eq,
}
use apis.Prelude.Outcomes.{Outcome, ok, err, ◌>>◌, >>-eq-ok}
use apis.Budget.Vocab.{SignalId, one_of, platform_valid, level_valid}
use apis.Budget.Types.{BudgetSignal, rungs, releases}
use apis.Budget.Observation.{BandCounters, NodeBudgetObservation}
use apis.Budget.Ladder.{
  IsLadder, check_ladder_iff, LadderFault, IsNonNegative, non_negative, check_ladder,
}
use apis.Budget.Validate.{
  unknown_value, platform_blocks, too_many, time_not_set, signal_checks, observation_checks,
  BudgetFault, refuse, first_error, check_counts, check_totals, validate_signal,
  validate_observation, in_ladder, negative_value, at_place, at, repeated, check_signals,
  check_counters, validate_counters, max_budget_signals,
}

pub refuse-eq-ok : (b : Bool) (e : BudgetFault) → refuse b e ≡ ok tt → b ≡ false
refuse-eq-ok true e h = absurd (cc)
refuse-eq-ok false e h = refl

pub first_error-All :
    (checks : List (Outcome BudgetFault (Unit {0})))
    → first_error checks ≡ ok tt
    → All (λ c. c ≡ ok tt) checks
first_error-All [] h = tt
first_error-All (c ∷ cs) h =
    let (here, rest) = >>-eq-ok c (first_error cs) h in (here, first_error-All cs rest)

non_negative-eq-ok : (v : Option ℤ) → non_negative negative_value v ≡ ok tt → IsNonNegative v
unfolding non_negative
non_negative-eq-ok none h = tt
non_negative-eq-ok (some v) h = ground arith

pub check_counts-All : (vs : List (Option ℤ)) → check_counts vs ≡ ok tt → All IsNonNegative vs
unfolding check_counts
check_counts-All [] h = tt
check_counts-All (v ∷ vs) h =
    let (here, rest) = >>-eq-ok (non_negative negative_value v) (check_counts vs) h in
    (non_negative-eq-ok v here, check_counts-All vs rest)

pub check_totals-All : (vs : List ℤ) → check_totals vs ≡ ok tt → All (λ v. pos 0 ≤ℤ v) vs
unfolding check_totals
check_totals-All [] h = tt
check_totals-All (v ∷ vs) h =
    let (here, rest) = >>-eq-ok (refuse (ltb_ℤ v (pos 0)) negative_value) (check_totals vs) h in
    let low = refuse-eq-ok (ltb_ℤ v (pos 0)) negative_value here in
    (ground arith, check_totals-All vs rest)

at_place-eq-ok : (i : ℕ) (c : Outcome BudgetFault (Unit {0})) → at_place i c ≡ ok tt → c ≡ ok tt
at_place-eq-ok i (ok tt) h = refl
at_place-eq-ok i (err e) h = absurd (cc)

in_ladder-eq-ok : (c : Outcome LadderFault (Unit {0})) → in_ladder c ≡ ok tt → c ≡ ok tt
in_ladder-eq-ok (ok tt) h = refl
in_ladder-eq-ok (err e) h = absurd (cc)

-- The items of a list that a loop has passed: each is valid by itself, and no two have one key.
abbrev pub IsListedOnce {ℓ} : {A : Type ℓ} → (A → String) → List A → Type ℓ
IsListedOnce key [] = Unit
IsListedOnce key (x ∷ xs) = All (λ y. key y ≢ key x) xs × IsListedOnce key xs

one_of-false :
    (v w : String) (ws : List String) → one_of v (w ∷ ws) ≡ false → (v ≢ w) × (one_of v ws ≡ false)
unfolding one_of
one_of-false v w ws h = (λ e. absurd (cc ((str_eq_iff v w).1 e, left)), ground arith)
  where
    left : str_eq v w ≡ false
    left = ground arith

unseen {ℓ} :
    {A : Type ℓ} (key : A → String) (k : String) (seen : List String) (xs : List A)
    → All (λ y. one_of (key y) (k ∷ seen) ≡ false) xs
    → All (λ y. key y ≢ k) xs × All (λ y. one_of (key y) seen ≡ false) xs
unseen key k seen [] h = (tt, tt)
unseen key k seen (x ∷ xs) h =
    let (other, new) = one_of-false (key x) k seen h.0 in
    let (others, news) = unseen key k seen xs h.1 in ((other, others), (new, news))

-- One turn of a loop that refuses a repeated key.
turn {ℓ} :
    {A : Type ℓ} (check : A → Outcome BudgetFault (Unit {0})) (key : A → String) (i : ℕ)
    (seen : List String) (x : A) (rest : Outcome BudgetFault (Unit {0}))
    → (first_error (at_place i (check x) ∷ refuse (one_of (key x) seen) (at i repeated) ∷ [])
        >> rest)
      ≡ ok tt
    → (check x ≡ ok tt) × (one_of (key x) seen ≡ false) × (rest ≡ ok tt)
turn check key i seen x rest h =
    let checks = at_place i (check x) ∷ refuse (one_of (key x) seen) (at i repeated) ∷ [] in
    let (here, later) = >>-eq-ok (first_error checks) rest h in
    let each = first_error-All checks here in
    (
      at_place-eq-ok i (check x) each.0,
      refuse-eq-ok (one_of (key x) seen) (at i repeated) each.1.0,
      later,
    )

-- What a loop that ends with no error has found of its list.
abbrev Found {ℓ} :
    {A : Type ℓ}
    → (A → Outcome BudgetFault (Unit {0}))
    → (A → String)
    → List String
    → List A
    → Type ℓ
Found check key seen xs =
    All (λ x. check x ≡ ok tt) xs × All (λ x. one_of (key x) seen ≡ false) xs × IsListedOnce key xs

check_signals-Found :
    (i : ℕ) (seen : List SignalId) (ss : List BudgetSignal)
    → check_signals i seen ss ≡ ok tt
    → Found validate_signal (λ s. s.id) seen ss
unfolding check_signals
check_signals-Found i seen [] h = (tt, tt, tt)
check_signals-Found i seen (s ∷ rest) h =
    let (valid, new, later) =
      turn validate_signal (λ x. x.id) i seen s (check_signals (suc i) (s.id ∷ seen) rest) h in
    let (valids, news, once) = check_signals-Found (suc i) (s.id ∷ seen) rest later in
    let (others, unseen_rest) = unseen (λ x. x.id) s.id seen rest news in
    ((valid, valids), (new, unseen_rest), (others, once))

check_counters-Found :
    (i : ℕ) (seen : List String) (cs : List BandCounters)
    → check_counters i seen cs ≡ ok tt
    → Found validate_counters (λ c. c.band) seen cs
unfolding check_counters
check_counters-Found i seen [] h = (tt, tt, tt)
check_counters-Found i seen (c ∷ rest) h =
    let (valid, new, later) =
      turn validate_counters (λ x. x.band) i seen c (check_counters (suc i) (c.band ∷ seen) rest)
        h in
    let (valids, news, once) = check_counters-Found (suc i) (c.band ∷ seen) rest later in
    let (others, unseen_rest) = unseen (λ x. x.band) c.band seen rest news in
    ((valid, valids), (new, unseen_rest), (others, once))

-- What an accepted observation satisfies as a whole: one platform block, the one that platform names,
-- and no signal and no band twice, each signal with a ladder in order.
pub record IsObservation (o : NodeBudgetObservation) : Type 0 where
  pub observed : o.observed_at.is_zero ≡ false
  pub known_platform : platform_valid o.platform ≡ true
  pub known_level : level_valid o.level ≡ true
  pub one_block : is_some o.linux ≡ not (is_some o.darwin)
  pub its_block : str_eq o.platform "darwin" ≡ is_some o.darwin
  pub few_signals : length o.signals ≤ max_budget_signals
  pub signals : All (λ s. validate_signal s ≡ ok tt) o.signals
  pub signals_once : IsListedOnce (λ s. s.id) o.signals
  pub ladders : All (λ s. IsLadder s.id (zip (rungs s) (releases s))) o.signals
  pub few_bands : length o.counters ≤ 3
  pub counters : All (λ c. validate_counters c ≡ ok tt) o.counters
  pub bands_once : IsListedOnce (λ c. c.band) o.counters

pub signal-IsLadder :
    (s : BudgetSignal) → validate_signal s ≡ ok tt → IsLadder s.id (zip (rungs s) (releases s))
unfolding validate_signal
signal-IsLadder s h =
    let checks = first_error-All (signal_checks s) h in
    (check_ladder_iff s.id (rungs s) (releases s)).0
      (in_ladder-eq-ok (check_ladder s.id (rungs s) (releases s)) checks.1.1.1.0)

bool_eq-false : (a b : Bool) → bool_eq a b ≡ false → b ≡ not a
bool_eq-false true b h = h
bool_eq-false false true h = refl
bool_eq-false false false h = absurd (cc)

bool_eq-true : (a b : Bool) → bool_eq a b ≡ true → a ≡ b
bool_eq-true true b h = sym h
bool_eq-true false true h = cc
bool_eq-true false false h = refl

pub not-false : (b : Bool) → not b ≡ false → b ≡ true
not-false true h = refl
not-false false h = absurd (cc)

pub All-map :
    {A : Type 0} (P Q : A → Type 0) (f : (x : A) → P x → Q x) (xs : List A) → All P xs → All Q xs
All-map P Q f [] h = tt
All-map P Q f (x ∷ xs) h = (f x h.0, All-map P Q f xs h.1)

-- An observation that NodeBudgetObservation.Validate accepts was observed at a time, has a known
-- platform and level, has the one platform block that its platform names, and lists eight signals and
-- three bands at most, none of them twice, each valid, each signal with its ladder in order.
pub validate_observation-IsObservation :
    (o : NodeBudgetObservation) → validate_observation o ≡ ok tt → IsObservation o
unfolding validate_observation
validate_observation-IsObservation o h =
    let (
      observed,
      (
        generation,
        (
          platform,
          (
            blocks,
            (
              block,
              (
                level,
                (
                  reason,
                  (
                    admits,
                    (
                      deadline,
                      (
                        capacity,
                        (
                          few,
                          (signals, (safe, (basis, (kill, (would, (bands, (counters, more))))))),
                        ),
                      ),
                    ),
                  ),
                ),
              ),
            ),
          ),
        ),
      ),
    ) =
      first_error-All (observation_checks o) h in
    let found = check_signals-Found 0 [] o.signals signals in
    let counted = check_counters-Found 0 [] o.counters counters in
    record {
      observed = refuse-eq-ok o.observed_at.is_zero time_not_set observed;
      known_platform =
          not-false (platform_valid o.platform)
            (refuse-eq-ok (not (platform_valid o.platform)) unknown_value platform);
      known_level =
          not-false (level_valid o.level)
            (refuse-eq-ok (not (level_valid o.level)) unknown_value level);
      one_block =
          bool_eq-false (is_some o.darwin) (is_some o.linux)
            (refuse-eq-ok (bool_eq (is_some o.darwin) (is_some o.linux)) platform_blocks blocks);
      its_block = bool_eq-true (str_eq o.platform "darwin") (is_some o.darwin) (
          not-false (bool_eq (str_eq o.platform "darwin") (is_some o.darwin)) (
            refuse-eq-ok (not (bool_eq (str_eq o.platform "darwin") (is_some o.darwin)))
              platform_blocks block));
      few_signals =
          ground (arith, refuse-eq-ok (ltb max_budget_signals (length o.signals)) too_many few);
      signals = found.0;
      signals_once = found.2;
      ladders =
          All-map (λ s. validate_signal s ≡ ok tt) (λ s. IsLadder s.id (zip (rungs s) (releases s)))
            signal-IsLadder o.signals found.0;
      few_bands = ground (arith, refuse-eq-ok (ltb 3 (length o.counters)) too_many bands);
      counters = counted.0;
      bands_once = counted.2;
    }
