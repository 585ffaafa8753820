-- ===== src/Page/Carried/Words.antt =====
-- When the getters of the layout table (budget/v1alpha1/page.go) answer a word.
use apis.Prelude.{
  ℕ, suc, ℤ, ◌≡◌, refl, sym, ap, ◌∙◌, subst, Bool, true, false, not, ◌||◌, Option, none, some, List,
  [], ◌∷◌, String, All, all, is_some, str_eq, str_eq_iff, arith, Bool-cases, Option-cases, inl, inr,
  Among, get_elem?, All-get_elem?, flat_map, All-append,
}
use apis.Budget.Vocab.{one_of, position, signal_page_code, signal_valid, signal_codes}
use apis.Budget.Ladder.{IsNonNegative}
use apis.Budget.Validate.{unknown_unless_empty}
use apis.Page.Snapshot.{PageSnapshot}
use apis.Page.Field.{PageField, PageGetter, i64_word}
use apis.Page.Fields.Slots.{slot}
use apis.Page.Writes.{is_word}
use apis.Page.Success.{carries, answers}
use apis.Page.Encode.{answer}

-- The row is carried for the snapshot.
abbrev pub Carries : PageSnapshot → PageField → Type 0
Carries s f = carries s f ≡ true

some-answers : (w : Option ℕ) → is_some w ≡ true → answers (some w) ≡ true
some-answers none h = absurd (cc)
some-answers (some v) h = refl

or-true : (a b : Bool) → b ≡ true → (a || b) ≡ true
or-true a b h = ground arith

-- A row whose getter answers.
pub Carries-get :
    (s : PageSnapshot) (f : PageField) (get : PageGetter)
    → f.get ≡ some get
    → is_some (get s) ≡ true
    → Carries s f
unfolding carries
Carries-get s f get e h =
    or-true (not (is_word f)) (answers (answer s f.get))
      (subst (λ g. answers (answer s g) ≡ true) (sym e) (some-answers (get s) h))

pub i64_word-is_some : (v : Option ℤ) → IsNonNegative v → is_some (i64_word v) ≡ true
unfolding i64_word
i64_word-is_some none h = refl
i64_word-is_some (some v) h = ground arith

pub one_of-Among : (v : String) (table : List String) → one_of v table ≡ true → Among v table
unfolding one_of
one_of-Among v [] h = absurd (cc)
one_of-Among v (w ∷ table) h = elim (Bool-cases (str_eq v w)) [
  | inl here ↦ inl ((str_eq_iff v w).0 here)
  | inr later ↦ inr (one_of-Among v table (ground arith))
]

all-at :
    (p : String → Bool) (v : String) (table : List String)
    → all p table ≡ true
    → Among v table
    → p v ≡ true
all-at p v [] h m = absurd m
all-at p v (w ∷ table) h (inl here) = ap p here ∙ ground arith
all-at p v (w ∷ table) h (inr later) = all-at p v table (ground arith) later

-- What holds of each string of a set holds of a string that is in it.
pub by_table :
    (p : String → Bool) (v : String) (table : List String)
    → all p table ≡ true
    → one_of v table ≡ true
    → p v ≡ true
by_table p v table h m = all-at p v table h (one_of-Among v table m)

pub or_empty :
    (p valid : String → Bool) (v : String)
    → p "" ≡ true
    → (valid v ≡ true → p v ≡ true)
    → unknown_unless_empty valid v ≡ false
    → p v ≡ true
or_empty p valid v empty known h = elim (Bool-cases (str_eq v "")) [
  | inl nothing ↦ ap p ((str_eq_iff v "").0 nothing) ∙ empty
  | inr something ↦ known (ground arith)
]

position-zero :
    (v : String) (table : List String) (i : ℕ) → one_of v table ≡ false → position v table i ≡ 0
unfolding position one_of
position-zero v [] i h = refl
position-zero v (w ∷ table) i h =
    ground (arith, str_eq_iff v w, str_eq_iff w v, position-zero v table (suc i))

pub signal_valid-one_of : (v : String) → signal_valid v ≡ true → one_of v signal_codes ≡ true
unfolding signal_valid signal_page_code
signal_valid-one_of v h = elim (Bool-cases (one_of v signal_codes)) [
  | inl known ↦ known
  | inr other ↦ absurd (ground (arith, position-zero v signal_codes 0 other))
]

-- A slot's getter answers, if it does for each item.
pub slot-is_some {ℓ} :
    {A : Type ℓ} (items : PageSnapshot → List A) (i : ℕ) (get : A → Option ℕ) (s : PageSnapshot)
    → All (λ a. is_some (get a) ≡ true) (items s)
    → is_some (slot items i get s) ≡ true
unfolding slot
slot-is_some items i get s h = elim (Option-cases (get_elem? (items s) i)) [
  | inl empty ↦ rw (empty, slot) refl
  | inr (a, filled) ↦
      rw (filled, slot) (All-get_elem? (λ x. is_some (get x) ≡ true) (items s) i h filled)
]

pub All-flat_map :
    {A B : Type 0} (P : B → Type 0) (f : A → List B) (xs : List A)
    → ((a : A) → All P (f a))
    → All P (flat_map f xs)
All-flat_map P f [] h = tt
All-flat_map P f (x ∷ xs) h = All-append P (f x) (flat_map f xs) (h x) (All-flat_map P f xs h)
