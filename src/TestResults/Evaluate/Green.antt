-- ===== src/TestResults/Evaluate/Green.antt =====
-- What a run that evaluate (hack/lib/testresults.go) does not find red has shown of its failures.
use apis.Prelude.{
  ℕ, ◌<◌, ◌≡◌, ◌≢◌, refl, sym, ◌∙◌, ◌⊎◌, inl, inr, Bool, true, false, ◌||◌, List, [], ◌∷◌, any,
  Bytes as Text, has_prefix, Among, any-at-false, arith, length, subst,
}
use apis.TestResults.Registry.{Entry, parse_registry}
use apis.TestResults.Collector.{no_result, failed, Result}
use apis.TestResults.Evaluate.{
  Tier, judge, is_red, is_failure, is_unlisted, is_excuse, settle, below, evaluate, open_report,
}
use apis.TestResults.Evaluate.Loop.{
  verdict, tests_of, tests_of-Among, tests_of-result, judged, failing-eq, quarantined_tests-eq,
  unlisted_tests-eq, red-eq, excused-eq,
}
use apis.TestResults.Evaluate.Cover.{quarantined_below}
use apis.TestResults.Evaluate.Excuse.{
  Excused, judge-failed, judge-no_result, judge-not_red, judge-excuse,
}

length-pos : (a : Text) (xs : List Text) → Among a xs → 0 < length xs
length-pos a [] m = absurd m
length-pos a (x ∷ xs) m = omega arith

or-false : (a b : Bool) → (a || b) ≡ false → b ≡ false
or-false a b h = ground arith

module _ (entries : List Entry) (tier : Tier) (edited : List Text) where
  module _ (red : Bool) (results : List Result) where
    -- A result that is excused at a test or below it.
    abbrev ExcuseAt : Text → Type 0
    ExcuseAt test =
        (x : Result) × Among x results
        × (is_excuse (judge entries tier edited x) ≡ true)
        × ((x.test ≡ test) ⊎ (has_prefix x.test (below test) ≡ true))

    excuse_below :
        (test : Text)
        → (q : Text) × Among q (judged entries tier edited red results).quarantined_tests
          × (has_prefix q (below test) ≡ true)
        → ExcuseAt test
    excuse_below test (q, m, under) =
        let (x, place, same, excused) =
          tests_of-result entries tier edited is_excuse q results
            (subst (Among q) (quarantined_tests-eq entries tier edited red results) m) in
        (x, place, excused, inr (rw same under))

    -- Where neither loop is red, a failure is excused.
    failure-excuse :
        (r : Result)
        → Among r results
        → r.status ≡ failed
        → (judged entries tier edited red results).red ≡ false
        → any
            (λ u. (settle (judged entries tier edited red results) u).red)
            (judged entries tier edited red results).unlisted_tests
          ≡ false
        → ExcuseAt r.test
    failure-excuse r place fails calm green =
        let fv = judge-failed entries tier edited r fails in
        let s = judged entries tier edited red results in
        let quiet = or-false red _ (sym (red-eq entries tier edited red results) ∙ calm) in
        elim (judge-not_red entries tier edited r
          (any-at-false (λ x. is_red (verdict entries tier edited x)) r results quiet place) fv) [
            | inr excused ↦ (r, place, excused, inl refl)
            | inl lone ↦ excuse_below r.test (
                quarantined_below s green r.test
                  (subst (Among r.test) (sym (unlisted_tests-eq entries tier edited red results))
                    (tests_of-Among entries tier edited is_unlisted r results place lone))
                  (subst (Among r.test) (sym (failing-eq entries tier edited red results))
                    (tests_of-Among entries tier edited is_failure r results place fv)))
          ]

    -- Then the count of the excused is not 0.
    excused-pos :
        (test : Text) → ExcuseAt test → 0 < (judged entries tier edited red results).excused
    excused-pos test (x, place, excused, above) = omega (
      arith,
      excused-eq entries tier edited red results,
      length-pos x.test (tests_of entries tier edited is_excuse results)
          (tests_of-Among entries tier edited is_excuse x results place excused),
    )

or-false_left : (a b : Bool) → (a || b) ≡ false → a ≡ false
or-false_left a b h = ground arith

module _ (registry : Text) (results : List Result) (tier : Tier) (edited : List Text)
    (today : ℕ) where
  evaluate-excuse :
      (r : Result)
      → Among r results
      → r.status ≡ failed
      → (evaluate registry results tier edited today).red ≡ false
      → ExcuseAt
          (parse_registry registry).entries
          tier
          edited
          ((open_report (parse_registry registry) today).red)
          results
          r.test
  unfolding evaluate
  evaluate-excuse r place fails h =
      let first = (open_report (parse_registry registry) today).red in
      let s = judged (parse_registry registry).entries tier edited first results in
      let second = any (λ u. (settle s u).red) s.unlisted_tests in
      failure-excuse (parse_registry registry).entries tier edited first results r place fails
        (or-false_left s.red second h) (or-false s.red second h)

  -- If evaluate does not find a run red, every failed result is excused: it is listed itself, or has
  -- a failing subtest below it that is listed, in the fast tier, in a package that is not edited, by
  -- an entry whose signature stands in the output of every failed run, with no race report.
  pub evaluate-Excused :
      (r : Result)
      → Among r results
      → r.status ≡ failed
      → (evaluate registry results tier edited today).red ≡ false
      → Excused (parse_registry registry).entries tier edited results r.test
  evaluate-Excused r place fails h =
      let (x, at, excused, above) = evaluate-excuse r place fails h in
      judge-excuse (parse_registry registry).entries tier edited x results r.test at excused above

  -- If evaluate does not find a run red and a result failed, the registry has excused one at least:
  -- the last error branch of `run` is not taken.
  pub evaluate-excused_pos :
      (r : Result)
      → Among r results
      → r.status ≡ failed
      → (evaluate registry results tier edited today).red ≡ false
      → 0 < (evaluate registry results tier edited today).excused
  unfolding evaluate
  evaluate-excused_pos r place fails h =
      excused-pos (parse_registry registry).entries tier edited
        ((open_report (parse_registry registry) today).red) results r.test
        (evaluate-excuse r place fails h)

  -- If evaluate does not find a run red, every result has a status.
  pub evaluate-no_result :
      (r : Result)
      → Among r results
      → (evaluate registry results tier edited today).red ≡ false
      → r.status ≢ no_result
  unfolding evaluate
  evaluate-no_result r place h none_yet =
      let first = (open_report (parse_registry registry) today).red in
      let entries = (parse_registry registry).entries in
      let s = judged entries tier edited first results in
      let calm = or-false_left s.red (any (λ u. (settle s u).red) s.unlisted_tests) h in
      let quiet = or-false first _ (sym (red-eq entries tier edited first results) ∙ calm) in
      let shown =
        any-at-false (λ x. is_red (verdict entries tier edited x)) r results quiet place in
      cc (shown, judge-no_result entries tier edited r none_yet)
