-- ===== src/TestResults/Collector/Results.antt =====
-- The result of a test in the collector of hack/lib/testresults.go, and what an event does to it.
use apis.Prelude.{
  Bool, true, false, ◌&&◌, List, [], ◌∷◌, ◌++◌, Option, none, some, if◌then◌else◌, Bytes as Text,
  codes, bytes_eq, all,
}
use apis.TestResults.Strings.{contains_text}

-- result.status: pass, fail, skip, or "" for no result.
pub data Status : Type 0 where
  no_result passed skipped failed : Status

-- result
pub record Result : Type 0 where
  pub test : Text
  pub status : Status
  pub output : Text
  pub failed_runs : List Text
  pub run : Text
  pub is_open : Bool

abbrev pub new_result : Text → Result
new_result id = record {
  test = id;
  status = no_result;
  output = [];
  failed_runs = [];
  run = [];
  is_open = false;
}

-- carriedByEveryRun
unfoldable pub carried_by_every_run : List Text → Text → Bool
carried_by_every_run runs sig =
    all (λ r. contains_text r sig) runs && elim runs [ [] ↦ false | _ ∷ _ ↦ true ]

-- The statuses that an action which ends a run gives.
unfoldable pub ended : Status → Result → Result
ended status t = record t { status = status; run = []; is_open = false }

abbrev pub unless_failed : Status → Status → Status
unless_failed failed new = failed
unless_failed no_result new = new
unless_failed passed new = new
unless_failed skipped new = new

-- What an event does to its test's result.
unfoldable pub act : Text → Text → Result → Result
act action output t =
    if bytes_eq action (codes "run")
    then record t { is_open = true }
    else if bytes_eq action (codes "output")
    then record t { output = t.output ++ output; run = t.run ++ output; is_open = true }
    else if bytes_eq action (codes "pass")
    then ended (unless_failed t.status passed) t
    else if bytes_eq action (codes "skip")
    then ended (unless_failed t.status skipped) t
    else if bytes_eq action (codes "fail")
    then ended failed (record t { failed_runs = t.failed_runs ++ t.run ∷ [] })
    else t

unfoldable pub find_test : Text → List Result → Option Result
find_test id [] = none
find_test id (t ∷ ts) = if bytes_eq t.test id then some t else find_test id ts

-- The result of an id, new at the end where there is none, changed in place.
unfoldable pub with_test : Text → (Result → Result) → List Result → List Result
with_test id change [] = change (new_result id) ∷ []
with_test id change (t ∷ ts) =
    if bytes_eq t.test id then change t ∷ ts else t ∷ with_test id change ts
