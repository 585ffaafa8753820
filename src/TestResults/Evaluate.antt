-- ===== src/TestResults/Evaluate.antt =====
-- evaluate of hack/lib/testresults.go: whether a run is red, how many failures the registry excuses,
-- and the report.
mod Verdicts
pub mod Loop
pub mod Cover
pub mod Excuse
pub mod Green
pub mod Report
use apis.Prelude.{
  ℕ, suc, ◌+◌, Bool, true, false, not, ◌&&◌, ◌||◌, List, [], ◌∷◌, ◌++◌, map, Option, none, some,
  if◌then◌else◌, ltb, any, all, Bytes as Text, codes, bytes_eq, has_prefix,
}
use apis.TestResults.Strings.{cut_at, contains}
use apis.TestResults.Lines.{has_race, own_failure}
use apis.TestResults.Registry.{Entry, RegistryError, Registry, parse_registry}
use apis.TestResults.Collector.{
  Status, no_result, passed, skipped, failed, Result, carried_by_every_run, keep,
}
unfoldable pub use Verdicts.*

-- The variables of the first loop. `outputs` has the last write first; an unlisted failure's line is
-- pending.
pub record Judging : Type 0 where
  pub out : List Line
  pub red : Bool
  pub excused : ℕ
  pub quarantined_tests : List Text
  pub unlisted_tests : List Text
  pub failing : List Text
  pub outputs : List (Text × Text)

-- What a result's verdict does to the variables.
unfoldable pub note : Verdict → Result → Judging → Judging
note v r s = record {
  out = s.out ++ report_of v r.test;
  red = s.red || is_red v;
  excused = if is_excuse v then s.excused + 1 else s.excused;
  quarantined_tests = s.quarantined_tests ++ when (is_excuse v) r.test;
  unlisted_tests = s.unlisted_tests ++ when (is_unlisted v) r.test;
  failing = s.failing ++ when (is_failure v) r.test;
  outputs = if is_failure v then (r.test, r.output) ∷ s.outputs else s.outputs;
}

unfoldable pub judge_all : List Entry → Tier → List Text → List Result → Judging → Judging
judge_all entries tier edited [] s = s
judge_all entries tier edited (r ∷ rs) s =
    judge_all entries tier edited rs (note (judge entries tier edited r) r s)

-- outputs[test]
unfoldable pub output_of : List (Text × Text) → Text → Text
output_of [] test = []
output_of ((t, output) ∷ outputs) test = if bytes_eq t test then output else output_of outputs test

abbrev pub below : Text → Text
below test = test ++ codes "/"

-- The failing subtests of a test.
abbrev pub kids_of : Judging → Text → List Text
kids_of s test = keep (λ c. has_prefix c (below test)) s.failing

-- A failing subtest that is quarantined, or an unlisted parent with a failing subtest below it.
unfoldable pub is_settled_kid : Judging → List Text → Text → Bool
is_settled_kid s kids c =
    contains s.quarantined_tests c
    || contains s.unlisted_tests c && any (λ g. has_prefix g (below c)) kids

-- Whether the failing subtests cover their parent.
unfoldable pub covers : Judging → List Text → Bool
covers s kids = elim kids [ [] ↦ false | _ ∷ _ ↦ true ] && all (is_settled_kid s kids) kids

-- strings.Cut at "::", after the cut.
abbrev name_in : Text → Text
name_in test = elim (cut_at (codes "::") test) [ none ↦ [] | some (pkg, name) ↦ name ]

-- A line of the report, and whether the code sets `red` beside it.
pub record Ruling : Type 0 where
  pub line : Line
  pub red : Bool

-- One turn of the loop over the unlisted failures.
unfoldable pub settle : Judging → Text → Ruling
settle s u =
    let kids = kids_of s u in
    if has_race (output_of s.outputs u)
    then record { line = red_race u; red = true }
    else if not (covers s kids)
    then record { line = red_failed u; red = true }
    else if own_failure (name_in u) (output_of s.outputs u) (map (output_of s.outputs) kids)
    then record { line = red_own_output u; red = true }
    else record { line = covered_by u (keep (contains s.quarantined_tests) kids); red = false }

-- The pending lines take the lines that the second loop writes in their places.
abbrev pub written : Judging → Line → Line
written s (pending u) = (settle s u).line
written s line = line

pub record Evaluation : Type 0 where
  pub red : Bool
  pub excused : ℕ
  pub lines : List Line

abbrev pub start_judging : Bool → Judging
start_judging red = record {
  out = [];
  red = red;
  excused = 0;
  quarantined_tests = [];
  unlisted_tests = [];
  failing = [];
  outputs = [];
}

-- The lines on the registry, before those on the results, and `red` after them.
pub record Opening : Type 0 where
  pub lines : List Line
  pub red : Bool

-- The loop over the registry's errors.
unfoldable pub report_errors : List RegistryError → Opening → Opening
report_errors [] o = o
report_errors (e ∷ errs) o =
    report_errors errs (record { lines = o.lines ++ red_registry e ∷ []; red = true })

-- The loop over the entries: one whose deadline has passed.
unfoldable pub report_expired : ℕ → List Entry → Opening → Opening
report_expired today [] o = o
report_expired today (e ∷ entries) o = report_expired today entries (
    if ltb e.deadline_date today
    then record { lines = o.lines ++ red_expired e.test ∷ []; red = true }
    else o)

unfoldable pub open_report : Registry → ℕ → Opening
open_report r today =
    report_expired today r.entries (report_errors r.errs (record { lines = []; red = false }))

-- evaluate
unfoldable pub evaluate : Text → List Result → Tier → List Text → ℕ → Evaluation
evaluate registry results tier edited today =
    let r = parse_registry registry in
    let first = open_report r today in
    let s = judge_all r.entries tier edited results (start_judging first.red) in
    record {
      red = s.red || any (λ u. (settle s u).red) s.unlisted_tests;
      excused = s.excused;
      lines = first.lines ++ map (written s) s.out;
    }
