-- ===== src/Budget/Select.antt =====
-- Selects and SelectPolicy of budget/v1alpha1/nodebudgetpolicy.go. A policy is its name, as bytes, and
-- its spec; the labels of a node are a lookup.
pub mod Winner
use apis.Prelude.{
  ℕ, ℤ, ◌≡◌, Bool, true, false, not, ◌&&◌, ◌||◌, Option, none, some, List, [], ◌∷◌, map, String,
  if◌then◌else◌, ltb, ◌==◌, ltb_ℤ, eqb_ℤ, all, str_eq, Bytes,
}
use apis.Budget.Policy.{NodeBudgetPolicySpec}

pub record NodeBudgetPolicy : Type 0 where
  pub name : Bytes
  pub spec : NodeBudgetPolicySpec

abbrev pub Labels : Type 0
Labels = String → Option String

abbrev pub has_label : Labels → String × String → Bool
has_label labels (k, v) = elim (labels k) [ none ↦ false | some got ↦ str_eq got v ]

-- Selects
unfoldable pub selects : NodeBudgetPolicySpec → Labels → Bool
selects s labels = all (has_label labels) s.node_selector

-- Go's `<` on strings.
unfoldable pub bytes_lt : Bytes → Bytes → Bool
bytes_lt [] [] = false
bytes_lt [] (_ ∷ _) = true
bytes_lt (_ ∷ _) [] = false
bytes_lt (x ∷ a) (y ∷ b) = ltb x y || (x == y && bytes_lt a b)

-- The less function of the sort.
unfoldable pub precedes : NodeBudgetPolicy → NodeBudgetPolicy → Bool
unfolding bytes_lt
precedes p q =
    if not (eqb_ℤ p.spec.priority q.spec.priority)
    then ltb_ℤ q.spec.priority p.spec.priority
    else bytes_lt p.name q.name

-- sort.SliceStable: an item goes behind those of the rest that precede it, and before its equals.
unfoldable pub insert : NodeBudgetPolicy → List NodeBudgetPolicy → List NodeBudgetPolicy
unfolding precedes
insert p [] = p ∷ []
insert p (q ∷ rest) = if precedes q p then q ∷ insert p rest else p ∷ q ∷ rest

unfoldable pub slice_stable : List NodeBudgetPolicy → List NodeBudgetPolicy
unfolding insert
slice_stable [] = []
slice_stable (p ∷ rest) = insert p (slice_stable rest)

-- The first loop.
unfoldable pub selecting : Labels → List NodeBudgetPolicy → List NodeBudgetPolicy
unfolding selects
selecting labels [] = []
selecting labels (p ∷ rest) =
    if selects p.spec labels then p ∷ selecting labels rest else selecting labels rest

-- The first of the sorted policies, and the names of the rest.
unfoldable pub answer_of : List NodeBudgetPolicy → Option NodeBudgetPolicy × List Bytes
answer_of [] = (none, [])
answer_of (w ∷ losers) = (some w, map (λ p. p.name) losers)

-- SelectPolicy
unfoldable pub select_policy : List NodeBudgetPolicy → Labels → Option NodeBudgetPolicy × List Bytes
unfolding answer_of
select_policy policies labels = answer_of (slice_stable (selecting labels policies))
