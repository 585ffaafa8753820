-- ===== src/TestResults/Evaluate/Report.antt =====
-- The report of evaluate (hack/lib/testresults.go) against the verdict that it returns.
use apis.Prelude.{
  ◌≡◌, refl, sym, ap, ◌∙◌, Bool, true, false, if◌then◌else◌, ltb, ◌||◌, List, [], ◌∷◌, ◌++◌, map,
  any, Bytes as Text, arith, ℕ,
}
use mathlib.Core.List.{map-append}
use apis.TestResults.Registry.{Entry, RegistryError, Registry, parse_registry}
use apis.TestResults.Collector.{Result}
use apis.TestResults.Evaluate.{
  Tier, Verdict, silent, listed_ok, without_result, unlisted, raced, in_full_tier, package_edited,
  unmatched, excuse, Line, is_red, is_unlisted, when, report_of, note, judge, judge_all, Judging,
  settle, written, evaluate, Opening, report_errors, report_expired, open_report, start_judging,
  red_registry, red_expired, ok_quarantined, red_no_result, pending, red_race, red_full_tier,
  red_edited, red_no_match, quarantined, red_own_output, covered_by, red_failed,
}

-- The lines that begin with "RED".
abbrev pub is_red_line : Line → Bool
is_red_line (red_registry e) = true
is_red_line (red_expired t) = true
is_red_line (ok_quarantined t) = false
is_red_line (red_no_result t) = true
is_red_line (pending t) = false
is_red_line (red_race t) = true
is_red_line (red_full_tier t) = true
is_red_line (red_edited t) = true
is_red_line (red_no_match t) = true
is_red_line (quarantined t) = false
is_red_line (red_own_output t) = true
is_red_line (covered_by t kids) = false
is_red_line (red_failed t) = true

any-append {ℓ} :
    {A : Type ℓ} (p : A → Bool) (xs ys : List A) → any p (xs ++ ys) ≡ (any p xs || any p ys)
any-append p [] ys = refl
any-append p (x ∷ xs) ys = ground (arith, any-append p xs ys)

report_of-red : (v : Verdict) (test : Text) → any is_red_line (report_of v test) ≡ is_red v
report_of-red silent test = refl
report_of-red listed_ok test = refl
report_of-red without_result test = refl
report_of-red unlisted test = refl
report_of-red raced test = refl
report_of-red in_full_tier test = refl
report_of-red package_edited test = refl
report_of-red unmatched test = refl
report_of-red excuse test = refl

-- Each branch of the second loop writes a RED line exactly where it sets `red`.
settle-red : (s : Judging) (u : Text) → is_red_line (settle s u).line ≡ (settle s u).red
unfolding settle
settle-red s u = ground arith

report_errors-red :
    (errs : List RegistryError) (o : Opening)
    → any is_red_line o.lines ≡ o.red
    → any is_red_line (report_errors errs o).lines ≡ (report_errors errs o).red
unfolding report_errors
report_errors-red [] o h = h
report_errors-red (e ∷ errs) o h =
    report_errors-red errs (record { lines = o.lines ++ red_registry e ∷ []; red = true })
      (ground (arith, any-append is_red_line o.lines (red_registry e ∷ [])))

report_expired-red :
    (today : ℕ) (entries : List Entry) (o : Opening)
    → any is_red_line o.lines ≡ o.red
    → any is_red_line (report_expired today entries o).lines ≡ (report_expired today entries o).red
unfolding report_expired
report_expired-red today [] o h = h
report_expired-red today (e ∷ entries) o h =
    report_expired-red today entries _ (one (ltb e.deadline_date today))
  where
    one :
        (late : Bool)
        → any is_red_line
            (if late
              then record { lines = o.lines ++ red_expired e.test ∷ []; red = true }
              else o).lines
          ≡ (if late
              then record { lines = o.lines ++ red_expired e.test ∷ []; red = true }
              else o).red
    one true = ground (arith, any-append is_red_line o.lines (red_expired e.test ∷ []))
    one false = h

open_report-red :
    (r : Registry) (today : ℕ)
    → any is_red_line (open_report r today).lines ≡ (open_report r today).red
unfolding open_report
open_report-red r today =
    report_expired-red today r.entries (report_errors r.errs (record { lines = []; red = false }))
      (report_errors-red r.errs (record { lines = []; red = false }) refl)

report_of-written :
    (final : Judging) (v : Verdict) (test : Text)
    → any is_red_line (map (written final) (report_of v test)) ≡ (
        any is_red_line (report_of v test)
        || any (λ u. (settle final u).red) (when (is_unlisted v) test))
report_of-written final silent test = refl
report_of-written final listed_ok test = refl
report_of-written final without_result test = refl
report_of-written final unlisted test = rw (settle-red final test) refl
report_of-written final raced test = refl
report_of-written final in_full_tier test = refl
report_of-written final package_edited test = refl
report_of-written final unmatched test = refl
report_of-written final excuse test = refl

module _ (final : Judging) where
  abbrev red_settled : List Text → Bool
  red_settled tests = any (λ u. (settle final u).red) tests

  abbrev red_written : List Line → Bool
  red_written out = any is_red_line (map (written final) out)

  red_written-append :
      (xs ys : List Line) → red_written (xs ++ ys) ≡ (red_written xs || red_written ys)
  red_written-append xs ys =
      ap (any is_red_line) (map-append (written final) xs ys)
      ∙ any-append is_red_line (map (written final) xs) (map (written final) ys)

  -- The invariant of the first loop: its report is red exactly when `red` or an unlisted test is.
  note-red :
      (v : Verdict) (r : Result) (s : Judging) (first : Bool)
      → (first || red_written s.out) ≡ (s.red || red_settled s.unlisted_tests)
      → (first || red_written (note v r s).out)
        ≡ ((note v r s).red || red_settled (note v r s).unlisted_tests)
  unfolding note
  note-red v r s first h = ground (
    arith,
    h,
    red_written-append s.out (report_of v r.test),
    report_of-written final v r.test,
    report_of-red v r.test,
    any-append (λ u. (settle final u).red) s.unlisted_tests (when (is_unlisted v) r.test),
  )

  judge_all-red :
      (entries : List Entry) (tier : Tier) (edited : List Text) (rs : List Result) (s : Judging)
      (first : Bool)
      → (first || red_written s.out) ≡ (s.red || red_settled s.unlisted_tests)
      → (first || red_written (judge_all entries tier edited rs s).out) ≡ (
          (judge_all entries tier edited rs s).red
          || red_settled (judge_all entries tier edited rs s).unlisted_tests)
  unfolding judge_all
  judge_all-red entries tier edited [] s first h = h
  judge_all-red entries tier edited (r ∷ rs) s first h =
      judge_all-red entries tier edited rs (note (judge entries tier edited r) r s) first
        (note-red (judge entries tier edited r) r s first h)

-- evaluate returns red exactly when one of the lines that it returns begins with RED.
pub evaluate-red :
    (registry : Text) (results : List Result) (tier : Tier) (edited : List Text) (today : ℕ)
    → (evaluate registry results tier edited today).red
      ≡ any is_red_line (evaluate registry results tier edited today).lines
unfolding evaluate
evaluate-red registry results tier edited today =
    let entries = (parse_registry registry).entries in
    let first = open_report (parse_registry registry) today in
    let s = judge_all entries tier edited results (start_judging first.red) in
    sym (
      any-append is_red_line first.lines (map (written s) s.out)
      ∙ judge_all-red s entries tier edited results (start_judging first.red)
          (any is_red_line first.lines)
          (ground (arith, open_report-red (parse_registry registry) today)))
