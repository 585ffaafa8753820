-- ===== src/Budget/Policy/Valid.antt =====
-- What Validate (budget/v1alpha1/nodebudgetpolicy.go) guarantees of the thresholds of a policy.
use apis.Prelude.{
  ℕ, zero, suc, ◌<◌, ◌≡◌, ◌≢◌, refl, ap, ◌∙◌, subst, Bool, true, false, not, ◌||◌, List, [], ◌∷◌,
  some, arith, any, get_elem?, zip, str_eq, str_eq_iff,
}
use apis.Prelude.Outcomes.{Outcome, ok, err, >>-eq-ok}
use apis.Budget.Vocab.{SignalId, signal_valid}
use apis.Budget.Ladder.{LadderFault, IsLadder, check_ladder_iff}
use apis.Budget.Policy.{
  NodeBudgetPolicySpec, SignalThresholds, PolicyFault, refuse, at_entry, check_entry, check_entries,
  validate_policy, threshold_rungs, threshold_releases,
}

refuse-ok : (b : Bool) (e : PolicyFault) → refuse b e ≡ ok tt → b ≡ false
refuse-ok true e h = absurd (cc)
refuse-ok false e h = refl

at_entry-ok : (i : ℕ) (m : Outcome LadderFault (Unit {0})) → at_entry i m ≡ ok tt → m ≡ ok tt
unfolding at_entry
at_entry-ok i (ok _) h = refl
at_entry-ok i (err e) h = absurd (cc)

-- A valid entry names a known signal, which no entry before it names, and its ladder keeps the rules.
record Entry (seen : List SignalId) (t : SignalThresholds) : Type 0 where
  known : signal_valid t.signal ≡ true
  fresh : any (λ s. str_eq s t.signal) seen ≡ false
  ladder : IsLadder t.signal (zip (threshold_rungs t) (threshold_releases t))

check_entry-Entry :
    (i : ℕ) (seen : List SignalId) (t : SignalThresholds)
    → check_entry i seen t ≡ ok tt
    → Entry seen t
unfolding check_entry
check_entry-Entry i seen t h =
    let (first, rest) = >>-eq-ok _ _ h in
    let (second, rest') = >>-eq-ok _ _ rest in
    let (third, _) = >>-eq-ok _ _ rest' in
    let unknown = refuse-ok (not (signal_valid t.signal)) _ first in
    record {
      known = ground arith;
      fresh = refuse-ok (any (λ s. str_eq s t.signal) seen) _ second;
      ladder =
          (check_ladder_iff t.signal (threshold_rungs t) (threshold_releases t)).0
            (at_entry-ok i _ third);
    }

-- An entry is valid after the signals seen, and no entry before it in the list names its signal.
entries-Entry :
    (n : ℕ) (seen : List SignalId) (ts : List SignalThresholds) (i : ℕ) {t : SignalThresholds}
    → check_entries n seen ts ≡ ok tt
    → get_elem? ts i ≡ some t
    → Entry seen t
unfolding check_entries
entries-Entry n seen [] i h at = absurd (cc)
entries-Entry n seen (u ∷ ts) zero {t} h at =
    let same : u ≡ t = cc in
    subst (Entry seen) same (check_entry-Entry n seen u (>>-eq-ok (check_entry n seen u) _ h).0)
entries-Entry n seen (u ∷ ts) (suc i) {t} h at =
    let rest = (>>-eq-ok (check_entry n seen u) (check_entries (suc n) (u.signal ∷ seen) ts) h).1 in
    let e = entries-Entry (suc n) (u.signal ∷ seen) ts i rest at in
    let fresh : (str_eq u.signal t.signal || any (λ s. str_eq s t.signal) seen) ≡ false = e.fresh in
    record { known = e.known; fresh = ground arith; ladder = e.ladder }

entries-distinct :
    (n : ℕ) (seen : List SignalId) (ts : List SignalThresholds) (i j : ℕ) {t u : SignalThresholds}
    → check_entries n seen ts ≡ ok tt
    → i < j
    → get_elem? ts i ≡ some t
    → get_elem? ts j ≡ some u
    → t.signal ≢ u.signal
unfolding check_entries
entries-distinct n seen [] i j h lt at at' = absurd (cc)
entries-distinct n seen (v ∷ ts) i zero h lt at at' = absurd (omega arith)
entries-distinct n seen (v ∷ ts) zero (suc j) {t} {u} h lt at at' =
    let rest = (>>-eq-ok (check_entry n seen v) (check_entries (suc n) (v.signal ∷ seen) ts) h).1 in
    let e = entries-Entry (suc n) (v.signal ∷ seen) ts j rest at' in
    let fresh : (str_eq v.signal u.signal || any (λ s. str_eq s u.signal) seen) ≡ false = e.fresh in
    let here : v ≡ t = cc in
    λ same.
      let hit : str_eq v.signal u.signal ≡ true =
        (str_eq_iff v.signal u.signal).1 (ap (λ x. x.signal) here ∙ same) in
      cc
entries-distinct n seen (v ∷ ts) (suc i) (suc j) h lt at at' =
    let rest = (>>-eq-ok (check_entry n seen v) (check_entries (suc n) (v.signal ∷ seen) ts) h).1 in
    entries-distinct (suc n) (v.signal ∷ seen) ts i j rest (omega arith) at at'

entries_of :
    (s : NodeBudgetPolicySpec) → validate_policy s ≡ ok tt → check_entries 0 [] s.thresholds ≡ ok tt
unfolding validate_policy
entries_of s h = (>>-eq-ok _ _ (>>-eq-ok _ _ (>>-eq-ok _ _ h).1).1).0

-- Of a policy that Validate accepts every threshold entry names a known signal and has a ladder that
-- keeps the rules.
pub validate_policy-IsLadder :
    (s : NodeBudgetPolicySpec) (i : ℕ) {t : SignalThresholds}
    → validate_policy s ≡ ok tt
    → get_elem? s.thresholds i ≡ some t
    → (signal_valid t.signal ≡ true)
      × IsLadder t.signal (zip (threshold_rungs t) (threshold_releases t))
validate_policy-IsLadder s i h at =
    let e = entries-Entry 0 [] s.thresholds i (entries_of s h) at in (e.known, e.ladder)

-- Of a policy that Validate accepts no two threshold entries name one signal.
pub validate_policy-distinct :
    (s : NodeBudgetPolicySpec) (i j : ℕ) {t u : SignalThresholds}
    → validate_policy s ≡ ok tt
    → i < j
    → get_elem? s.thresholds i ≡ some t
    → get_elem? s.thresholds j ≡ some u
    → t.signal ≢ u.signal
validate_policy-distinct s i j h lt at at' =
    entries-distinct 0 [] s.thresholds i j (entries_of s h) lt at at'
