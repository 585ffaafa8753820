-- ===== src/Budget/Select/Winner.antt =====
-- Who wins in SelectPolicy (budget/v1alpha1/nodebudgetpolicy.go), and who is reported as a loser.
use mathlib.Core.List.{Perm}
use mathlib.Core.List.Perm
use apis.Prelude.{
  ◌<ℤ◌, ◌⊎◌, ◌≡◌, refl, Bool, true, false, none, List, [], ◌∷◌, All, Bool-cases, inl, inr,
  if◌then◌else◌,
}
use apis.Budget.Select.{
  NodeBudgetPolicy, Labels, selects, bytes_lt, precedes, insert, slice_stable, selecting, answer_of,
  select_policy,
}

-- None of the list precedes p.
abbrev pub IsFirst : NodeBudgetPolicy → List NodeBudgetPolicy → Type 0
IsFirst p ps = All (λ q. precedes q p ≡ false) ps

abbrev pub IsOrdered : List NodeBudgetPolicy → Type 0
IsOrdered [] = Unit {0}
IsOrdered (p ∷ ps) = IsFirst p ps × IsOrdered ps

insert-Perm : (p : NodeBudgetPolicy) (ps : List NodeBudgetPolicy) → Perm (insert p ps) (p ∷ ps)
unfolding insert
insert-Perm p [] = Perm.refl (p ∷ [])
insert-Perm p (q ∷ ps) = go (insert-Perm p ps) (precedes q p)
  where
    go :
        Perm (insert p ps) (p ∷ ps)
        → (b : Bool) → Perm (if b then q ∷ insert p ps else p ∷ q ∷ ps) (p ∷ q ∷ ps)
    go ih true = Perm.trans (Perm.cons q ih) (Perm.swap p q ps)
    go ih false = Perm.refl (p ∷ q ∷ ps)

slice_stable-Perm : (ps : List NodeBudgetPolicy) → Perm (slice_stable ps) ps
unfolding slice_stable
slice_stable-Perm [] = Perm.refl []
slice_stable-Perm (p ∷ ps) =
    Perm.trans (insert-Perm p (slice_stable ps)) (Perm.cons p (slice_stable-Perm ps))

-- A higher priority, or the same priority and a smaller name.
abbrev pub Outranks : NodeBudgetPolicy → NodeBudgetPolicy → Type 0
Outranks p q =
    (q.spec.priority <ℤ p.spec.priority)
    ⊎ ((p.spec.priority ≡ q.spec.priority) × (bytes_lt p.name q.name ≡ true))

-- No policy of the list outranks p.
abbrev pub IsTop : NodeBudgetPolicy → List NodeBudgetPolicy → Type 0
IsTop p ps = All (λ q. ¬ (Outranks q p)) ps

-- No policy of the list outranks one before it.
abbrev pub IsRanked : List NodeBudgetPolicy → Type 0
IsRanked [] = Unit {0}
IsRanked (p ∷ ps) = IsTop p ps × IsRanked ps

-- w and then the others are the policies that select the node; none of the others outranks w, and the
-- others are in order of rank.
pub record IsSelection (policies : List NodeBudgetPolicy) (labels : Labels) (w : NodeBudgetPolicy)
    (others : List NodeBudgetPolicy) : Type 0 where
  pub same : Perm (w ∷ others) (selecting labels policies)
  pub first : IsTop w others
  pub ordered : IsRanked others

outside :
    (labels : Labels) (ps : List NodeBudgetPolicy)
    → [] ≡ selecting labels ps
    → All (λ p. selects p.spec labels ≡ false) ps
unfolding selecting
outside labels [] h = tt
outside labels (p ∷ ps) h = elim (Bool-cases (selects p.spec labels)) [
  | inl hit ↦ absurd (let h' : [] ≡ p ∷ selecting labels ps = rw (hit, selecting) at h in cc)
  | inr miss ↦ (miss, outside labels ps (rw (miss, selecting) at h))
]

-- If SelectPolicy answers no policy, no policy selects the node.
pub select_policy-none :
    (policies : List NodeBudgetPolicy) (labels : Labels)
    → (select_policy policies labels).0 ≡ none
    → All (λ p. selects p.spec labels ≡ false) policies
unfolding select_policy answer_of
select_policy-none policies labels e = outside labels policies (
    empty (slice_stable (selecting labels policies)) (slice_stable-Perm (selecting labels policies))
      e)
  where
    empty :
        (sel : List NodeBudgetPolicy)
        → Perm sel (selecting labels policies)
        → (answer_of sel).0 ≡ none
        → [] ≡ selecting labels policies
    empty [] perm e = Perm.nil-eq perm
    empty (v ∷ rest) perm e = absurd (cc)
