-- ===== src/TestResults/Evaluate/Cover.antt =====
-- The second loop of evaluate (hack/lib/testresults.go): below a covered failure stands a quarantined
-- one.
use apis.Prelude.{
  ℕ, zero, suc, ◌+◌, ◌<◌, ◌≤◌, ◌≡◌, refl, sym, ap, ◌∙◌, inl, inr, Bool, true, false, List, [], ◌∷◌,
  ◌++◌, if◌then◌else◌, any, Bytes as Text, codes, bytes_eq, bytes_eq_iff, has_prefix, Bool-cases,
  Among, any-at-false, subst, arith, length, length-append,
}
use apis.TestResults.Strings.{contains}
use apis.TestResults.Lines.{has_race}
use apis.TestResults.Collector.{keep}
use apis.TestResults.Evaluate.{Judging, settle, covers, is_settled_kid, kids_of, output_of, below}

has_prefix_trans :
    (s p q : Text) → has_prefix s p ≡ true → has_prefix p q ≡ true → has_prefix s q ≡ true
unfolding has_prefix
has_prefix_trans s p [] h k = refl
has_prefix_trans s [] (c ∷ q) h k = absurd (cc)
has_prefix_trans [] (b ∷ p) (c ∷ q) h k = absurd (cc)
has_prefix_trans (a ∷ s) (b ∷ p) (c ∷ q) h k = ground (arith, has_prefix_trans s p q)

has_prefix-append : (s t : Text) → has_prefix (s ++ t) s ≡ true
unfolding has_prefix
has_prefix-append [] t = refl
has_prefix-append (a ∷ s) t = ground (arith, has_prefix-append s t)

length-le-of_prefix : (s p : Text) → has_prefix s p ≡ true → length p ≤ length s
unfolding has_prefix
length-le-of_prefix s [] h = omega arith
length-le-of_prefix [] (b ∷ p) h = absurd (cc)
length-le-of_prefix (a ∷ s) (b ∷ p) h = ground (arith, length-le-of_prefix s p)

-- A subtest's id is longer than its parent's.
pub below-lt : (k c : Text) → has_prefix k (below c) ≡ true → length c < length k
below-lt k c h = omega (arith, length-le-of_prefix k (below c) h, length-append c (codes "/"))

pub below_trans :
    (q k c : Text)
    → has_prefix q (below k) ≡ true
    → has_prefix k (below c) ≡ true
    → has_prefix q (below c) ≡ true
below_trans q k c h g =
    has_prefix_trans q k (below c)
      (has_prefix_trans q (below k) k h (has_prefix-append k (codes "/"))) g

pub contains-Among : (xs : List Text) (a : Text) → contains xs a ≡ true → Among a xs
unfolding contains
contains-Among [] a h = absurd (cc)
contains-Among (x ∷ xs) a h = elim (Bool-cases (bytes_eq x a)) [
  | inl here ↦ inl (sym ((bytes_eq_iff x a).0 here))
  | inr later ↦ inr (contains-Among xs a (ground arith))
]

keep-Among :
    (p : Text → Bool) (xs : List Text) (a : Text) → Among a (keep p xs) → Among a xs × (p a ≡ true)
keep-Among p [] a m = absurd m
keep-Among p (x ∷ xs) a m = elim (Bool-cases (p x)) [
  | inl taken ↦ elim (subst (λ b. Among a (if b then x ∷ keep p xs else keep p xs)) taken m) [
    | inl here ↦ (inl here, ap p here ∙ taken)
    | inr later ↦ (inr (keep-Among p xs a later).0, (keep-Among p xs a later).1)
  ]
  | inr dropped ↦
      let rest =
        keep-Among p xs a
          (subst (λ b. Among a (if b then x ∷ keep p xs else keep p xs)) dropped m) in
      (inr rest.0, rest.1)
]

-- The bytes of all the failing tests' ids: no id is longer.
total : List Text → ℕ
total [] = 0
total (x ∷ xs) = length x + total xs

length-le-total : (xs : List Text) (a : Text) → Among a xs → length a ≤ total xs
unfolding total
length-le-total [] a m = absurd m
length-le-total (x ∷ xs) a (inl here) = omega (arith, ap length here)
length-le-total (x ∷ xs) a (inr later) = omega (arith, length-le-total xs a later)

module _ (s : Judging) where
  -- What the second loop tests of a failure that it does not find red.
  pub settle-not_red :
      (u : Text)
      → (settle s u).red ≡ false
      → (has_race (output_of s.outputs u) ≡ false) × (covers s (kids_of s u) ≡ true)
  unfolding settle
  settle-not_red u h = ground arith

  -- A failing subtest that the cover rests on.
  covering_kid :
      (kids : List Text)
      → covers s kids ≡ true
      → (k : Text) × Among k kids × (is_settled_kid s kids k ≡ true)
  unfolding covers
  covering_kid [] h = absurd (cc)
  covering_kid (k ∷ kids) h = (k, inl refl, ground arith)

  unlisted_kid :
      (kids : List Text) (k : Text)
      → is_settled_kid s kids k ≡ true
      → contains s.quarantined_tests k ≡ false
      → contains s.unlisted_tests k ≡ true
  unfolding is_settled_kid
  unlisted_kid kids k h other = ground arith

  module _ (green : any (λ u. (settle s u).red) s.unlisted_tests ≡ false) where
    -- Where no unlisted failure is red, each has a quarantined failure below it.
    quarantined_below_fuel :
        (fuel : ℕ) (c : Text)
        → Among c s.unlisted_tests
        → Among c s.failing
        → total s.failing < length c + fuel
        → (q : Text) × Among q s.quarantined_tests × (has_prefix q (below c) ≡ true)
    quarantined_below_fuel zero c m f enough = absurd (omega (arith, length-le-total s.failing c f))
    quarantined_below_fuel (suc fuel) c m f enough =
        let not_red =
          settle-not_red c (any-at-false (λ u. (settle s u).red) c s.unlisted_tests green m) in
        let (k, kid, settled_kid) = covering_kid (kids_of s c) not_red.1 in
        let place = keep-Among (λ x. has_prefix x (below c)) s.failing k kid in
        elim (Bool-cases (contains s.quarantined_tests k)) [
          | inl excused ↦ (k, contains-Among s.quarantined_tests k excused, place.1)
          | inr other ↦
              let inner : contains s.unlisted_tests k ≡ true =
                unlisted_kid (kids_of s c) k settled_kid other in
              deeper k place.1 (
                quarantined_below_fuel fuel k (contains-Among s.unlisted_tests k inner) place.0
                  (omega (arith, below-lt k c place.1)))
        ]
      where
        deeper :
            (k : Text)
            → has_prefix k (below c) ≡ true
            → (q : Text) × Among q s.quarantined_tests × (has_prefix q (below k) ≡ true)
            → (q : Text) × Among q s.quarantined_tests × (has_prefix q (below c) ≡ true)
        deeper k h (q, excused, g) = (q, excused, below_trans q k c g h)

    pub quarantined_below :
        (c : Text)
        → Among c s.unlisted_tests
        → Among c s.failing
        → (q : Text) × Among q s.quarantined_tests × (has_prefix q (below c) ≡ true)
    quarantined_below c m f = quarantined_below_fuel (suc (total s.failing)) c m f (omega arith)
