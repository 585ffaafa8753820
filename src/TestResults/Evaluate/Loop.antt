-- ===== src/TestResults/Evaluate/Loop.antt =====
-- The first loop of evaluate (hack/lib/testresults.go) against plain selections of the results.
use apis.Prelude.{
  ◌+◌, ◌≡◌, refl, sym, ap, ◌∙◌, inl, inr, Bool, true, ◌||◌, List, [], ◌∷◌, ◌++◌, any, Bytes as Text,
  Bool-cases, Among, Among-append_left, Among-append_right, subst, arith, length,
}
use mathlib.Core.List.{append_assoc, append-nil}
use apis.TestResults.Registry.{Entry}
use apis.TestResults.Collector.{Result}
use apis.TestResults.Evaluate.{
  Tier, Verdict, Judging, judge, is_red, is_failure, is_unlisted, is_excuse, when, note, judge_all,
  start_judging,
}

module _ (entries : List Entry) (tier : Tier) (edited : List Text) where
  abbrev pub verdict : Result → Verdict
  verdict r = judge entries tier edited r

  -- The tests of the results with a kind of verdict, in order.
  unfoldable pub tests_of : (Verdict → Bool) → List Result → List Text
  tests_of p [] = []
  tests_of p (r ∷ rs) = when (p (verdict r)) r.test ++ tests_of p rs

  judge_all-list :
      (get : Judging → List Text) (p : Verdict → Bool) (rs : List Result) (s : Judging)
      → ((v : Verdict) (r : Result) (t : Judging) → get (note v r t) ≡ get t ++ when (p v) r.test)
      → get (judge_all entries tier edited rs s) ≡ get s ++ tests_of p rs
  unfolding judge_all tests_of
  judge_all-list get p [] s step = sym (append-nil (get s))
  judge_all-list get p (r ∷ rs) s step =
      judge_all-list get p rs (note (verdict r) r s) step
      ∙ (ap (λ l. l ++ tests_of p rs) (step (verdict r) r s)
          ∙ append_assoc (get s) (when (p (verdict r)) r.test) (tests_of p rs))

  judge_all-red :
      (rs : List Result) (s : Judging)
      → (judge_all entries tier edited rs s).red ≡ (s.red || any (λ r. is_red (verdict r)) rs)
  unfolding judge_all note
  judge_all-red [] s = ground arith
  judge_all-red (r ∷ rs) s = judge_all-red rs (note (verdict r) r s) ∙ ground arith

  judge_all-excused :
      (rs : List Result) (s : Judging)
      → (judge_all entries tier edited rs s).excused ≡ s.excused + length (tests_of is_excuse rs)
  unfolding judge_all note tests_of
  judge_all-excused [] s = omega arith
  judge_all-excused (r ∷ rs) s = judge_all-excused rs (note (verdict r) r s) ∙ ground arith

  -- A result with a kind of verdict, and its test.
  pub tests_of-Among :
      (p : Verdict → Bool) (r : Result) (rs : List Result)
      → Among r rs
      → p (verdict r) ≡ true
      → Among r.test (tests_of p rs)
  unfolding tests_of
  tests_of-Among p r [] m h = absurd m
  tests_of-Among p r (q ∷ rs) (inl same) h =
      Among-append_left r.test (when (p (verdict q)) q.test) (tests_of p rs)
        (rw (sym (ap (λ x. p (verdict x)) same) ∙ h) (inl (ap (λ x. x.test) same)))
  tests_of-Among p r (q ∷ rs) (inr later) h =
      Among-append_right r.test (when (p (verdict q)) q.test) (tests_of p rs)
        (tests_of-Among p r rs later h)

  -- A test of such a list, and its result.
  pub tests_of-result :
      (p : Verdict → Bool) (c : Text) (rs : List Result)
      → Among c (tests_of p rs)
      → (r : Result) × Among r rs × (r.test ≡ c) × (p (verdict r) ≡ true)
  unfolding tests_of
  tests_of-result p c [] m = absurd m
  tests_of-result p c (q ∷ rs) m = elim (Bool-cases (p (verdict q))) [
    | inr skipped ↦
        later
          (tests_of-result p c rs (subst (λ b. Among c (when b q.test ++ tests_of p rs)) skipped m))
    | inl taken ↦ elim (subst (λ b. Among c (when b q.test ++ tests_of p rs)) taken m) [
      | inl here ↦ (q, inl refl, sym here, taken)
      | inr rest ↦ later (tests_of-result p c rs rest)
    ]
  ]
    where
      later :
          (r : Result) × Among r rs × (r.test ≡ c) × (p (verdict r) ≡ true)
          → (r : Result) × Among r (q ∷ rs) × (r.test ≡ c) × (p (verdict r) ≡ true)
      later (r, place, same, holds) = (r, inr place, same, holds)

  module _ (red : Bool) (rs : List Result) where
    -- The variables of the loop at its end.
    abbrev pub judged : Judging
    judged = judge_all entries tier edited rs (start_judging red)

    pub failing-eq : judged.failing ≡ tests_of is_failure rs
    unfolding note
    failing-eq = judge_all-list (λ s. s.failing) is_failure rs (start_judging red) (λ v r t. refl)

    pub quarantined_tests-eq : judged.quarantined_tests ≡ tests_of is_excuse rs
    unfolding note
    quarantined_tests-eq =
        judge_all-list (λ s. s.quarantined_tests) is_excuse rs (start_judging red) (λ v r t. refl)

    pub unlisted_tests-eq : judged.unlisted_tests ≡ tests_of is_unlisted rs
    unfolding note
    unlisted_tests-eq =
        judge_all-list (λ s. s.unlisted_tests) is_unlisted rs (start_judging red) (λ v r t. refl)

    pub red-eq : judged.red ≡ (red || any (λ r. is_red (verdict r)) rs)
    red-eq = judge_all-red rs (start_judging red)

    pub excused-eq : judged.excused ≡ length (tests_of is_excuse rs)
    excused-eq = judge_all-excused rs (start_judging red) ∙ omega arith
