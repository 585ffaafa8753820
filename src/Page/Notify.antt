-- ===== src/Page/Notify.antt =====
-- pageNotifyKey, notifyKeyOf and PageNotifyDue of budget/v1alpha1/page.go.
pub mod Due
use apis.Prelude.{
  sym, Bool-cases, inl, inr, ℕ, zero, suc, ◌<◌, ℤ, ◌≡◌, refl, ◌≢◌, ap, ◌∙◌, ◌↔◌, String, Bool, true,
  false, not, ◌&&◌, Option, none, some, List, [], ◌∷◌, ◌++◌, map, arith, str_eq, str_eq_iff,
  bool_eq, eqb_ℤ, eqb_ℤ_iff, range, get_elem?, All,
}
use apis.Budget.Types.{BudgetSignal, rungs, releases}
use apis.Page.Snapshot.{PageSnapshot, page_absent, max_page_signals}

pub record PageNotifyKey : Type 0 where
  pub level : String
  pub admit : Bool
  pub generation : ℤ
  pub ladder : List (List ℤ)

abbrev pub value_or_absent : Option ℤ → ℤ
value_or_absent none = page_absent
value_or_absent (some v) = v

-- The rungs and the releases of a signal, in order.
abbrev pub thresholds : BudgetSignal → List (Option ℤ)
thresholds g = rungs g ++ releases g

abbrev pub no_thresholds : List (Option ℤ)
no_thresholds = none ∷ none ∷ none ∷ none ∷ none ∷ none ∷ none ∷ none ∷ none ∷ none ∷ []

-- Row i of the ladder: all absent where the snapshot has no signal i.
unfoldable pub ladder_row : List BudgetSignal → ℕ → List ℤ
ladder_row signals i = elim (get_elem? signals i) [
  | none ↦ map value_or_absent no_thresholds
  | some g ↦ map value_or_absent (thresholds g)
]

unfoldable pub ladder_of : List BudgetSignal → List (List ℤ)
unfolding ladder_row
ladder_of signals = map (ladder_row signals) (range max_page_signals)

-- notifyKeyOf
unfoldable pub notify_key_of : PageSnapshot → PageNotifyKey
notify_key_of s = record {
  level = s.level;
  admit = s.admit;
  generation = s.generation;
  ladder = ladder_of s.signals;
}

unfoldable pub row_eq : List ℤ → List ℤ → Bool
row_eq [] [] = true
row_eq [] (_ ∷ _) = false
row_eq (_ ∷ _) [] = false
row_eq (a ∷ x) (b ∷ y) = eqb_ℤ a b && row_eq x y

unfoldable pub ladder_eq : List (List ℤ) → List (List ℤ) → Bool
unfolding row_eq
ladder_eq [] [] = true
ladder_eq [] (_ ∷ _) = false
ladder_eq (_ ∷ _) [] = false
ladder_eq (a ∷ x) (b ∷ y) = row_eq a b && ladder_eq x y

-- Go's == on pageNotifyKey.
unfoldable pub key_eq : PageNotifyKey → PageNotifyKey → Bool
unfolding ladder_eq
key_eq a b =
    str_eq a.level b.level
    && bool_eq a.admit b.admit
    && eqb_ℤ a.generation b.generation
    && ladder_eq a.ladder b.ladder

-- PageNotifyDue; a nil prev is `none`.
unfoldable pub page_notify_due : Option PageSnapshot → PageSnapshot → Bool
page_notify_due none next = true
page_notify_due (some prev) next = not (key_eq (notify_key_of prev) (notify_key_of next))

row_eq_sound : (x y : List ℤ) → row_eq x y ≡ true → x ≡ y
unfolding row_eq
row_eq_sound [] [] h = refl
row_eq_sound [] (_ ∷ _) h = cc
row_eq_sound (_ ∷ _) [] h = cc
row_eq_sound (a ∷ x) (b ∷ y) h =
    let here : a ≡ b = (eqb_ℤ_iff a b).0 (ground arith) in
    cc (here, row_eq_sound x y (ground arith))

row_eq_refl : (x : List ℤ) → row_eq x x ≡ true
unfolding row_eq
row_eq_refl [] = refl
row_eq_refl (a ∷ x) = rw ((eqb_ℤ_iff a a).1 refl, row_eq_refl x)

ladder_eq_sound : (x y : List (List ℤ)) → ladder_eq x y ≡ true → x ≡ y
unfolding ladder_eq
ladder_eq_sound [] [] h = refl
ladder_eq_sound [] (_ ∷ _) h = cc
ladder_eq_sound (_ ∷ _) [] h = cc
ladder_eq_sound (a ∷ x) (b ∷ y) h =
    let here : a ≡ b = row_eq_sound a b (ground arith) in
    cc (here, ladder_eq_sound x y (ground arith))

ladder_eq_refl : (x : List (List ℤ)) → ladder_eq x x ≡ true
unfolding ladder_eq
ladder_eq_refl [] = refl
ladder_eq_refl (a ∷ x) = rw (row_eq_refl a, ladder_eq_refl x)

bool_eq_sound : (a b : Bool) → bool_eq a b ≡ true → a ≡ b
bool_eq_sound a b h = ground arith

bool_eq_refl : (a : Bool) → bool_eq a a ≡ true
bool_eq_refl a = ground arith

key_eq_sound : (a b : PageNotifyKey) → key_eq a b ≡ true → a ≡ b
unfolding key_eq
key_eq_sound a b h =
    let level : a.level ≡ b.level = (str_eq_iff a.level b.level).0 (ground arith) in
    let admit : a.admit ≡ b.admit = bool_eq_sound a.admit b.admit (ground arith) in
    let generation : a.generation ≡ b.generation =
      (eqb_ℤ_iff a.generation b.generation).0 (ground arith) in
    let ladder : a.ladder ≡ b.ladder = ladder_eq_sound a.ladder b.ladder (ground arith) in
    λ i. record { level = level i; admit = admit i; generation = generation i; ladder = ladder i }

pub key_eq_iff : (a b : PageNotifyKey) → (key_eq a b ≡ true) ↔ (a ≡ b)
unfolding key_eq
key_eq_iff a b = (key_eq_sound a b, λ e. rw e (same b))
  where
    same : (k : PageNotifyKey) → key_eq k k ≡ true
    same k = rw (
      (str_eq_iff k.level k.level).1 refl,
      bool_eq_refl k.admit,
      (eqb_ℤ_iff k.generation k.generation).1 refl,
      ladder_eq_refl k.ladder,
    )

pub key_eq_sym : (a b : PageNotifyKey) → key_eq a b ≡ key_eq b a
key_eq_sym a b = elim (Bool-cases (key_eq a b)) [
  | inl t ↦ t ∙ sym ((key_eq_iff b a).1 (sym ((key_eq_iff a b).0 t)))
  | inr f ↦ elim (Bool-cases (key_eq b a)) [
    | inl t ↦
        absurd (let u : key_eq a b ≡ true = (key_eq_iff a b).1 (sym ((key_eq_iff b a).0 t)) in cc)
    | inr g ↦ f ∙ sym g
  ]
]
