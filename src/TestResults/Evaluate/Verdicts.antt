-- ===== src/TestResults/Evaluate/Verdicts.antt =====
-- What the first loop of evaluate (hack/lib/testresults.go) finds of a result.
use apis.Prelude.{
  Bool, true, false, not, List, [], ◌∷◌, Option, none, some, if◌then◌else◌, Bytes as Text, bytes_eq,
}
use apis.TestResults.Strings.{contains}
use apis.TestResults.Lines.{has_race}
use apis.TestResults.Registry.{Entry, RegistryError}
use apis.TestResults.Collector.{
  Status, no_result, passed, skipped, failed, Result, carried_by_every_run,
}

pub data Tier : Type 0 where
  fast full : Tier

-- A line of the report, with the test it is about.
pub data Line : Type 0 where
  red_registry : RegistryError → Line
  red_expired : Text → Line
  ok_quarantined : Text → Line
  red_no_result : Text → Line
  pending : Text → Line
  red_race : Text → Line
  red_full_tier : Text → Line
  red_edited : Text → Line
  red_no_match : Text → Line
  quarantined : Text → Line
  red_own_output : Text → Line
  covered_by : Text → List Text → Line
  red_failed : Text → Line

-- What the first loop finds of a result.
pub data Verdict : Type 0 where
  silent listed_ok without_result unlisted raced in_full_tier package_edited unmatched excuse :
      Verdict

-- byID[test]: no two entries have one test.
unfoldable pub find_entry : Text → List Entry → Option Entry
find_entry test [] = none
find_entry test (e ∷ es) = if bytes_eq e.test test then some e else find_entry test es

abbrev pub is_full : Tier → Bool
is_full full = true
is_full fast = false

module _ (entries : List Entry) (tier : Tier) (edited : List Text) where
  -- A failure that the registry lists.
  unfoldable pub judge_listed : Entry → Result → Verdict
  judge_listed e r =
      if has_race r.output
      then raced
      else if is_full tier
      then in_full_tier
      else if contains edited e.pkg
      then package_edited
      else if not (carried_by_every_run r.failed_runs e.sig)
      then unmatched
      else excuse

  abbrev pub judge_failure : Option Entry → Result → Verdict
  judge_failure none r = unlisted
  judge_failure (some e) r = judge_listed e r

  abbrev pub judge_passed : Option Entry → Verdict
  judge_passed none = silent
  judge_passed (some e) = listed_ok

  abbrev pub judge_status : Status → Result → Verdict
  judge_status passed r = judge_passed (find_entry r.test entries)
  judge_status skipped r = judge_passed (find_entry r.test entries)
  judge_status no_result r = without_result
  judge_status failed r = judge_failure (find_entry r.test entries) r

  -- The switches of the first loop over the results.
  unfoldable pub judge : Result → Verdict
  judge r = judge_status r.status r

abbrev pub is_red : Verdict → Bool
is_red silent = false
is_red listed_ok = false
is_red without_result = true
is_red unlisted = false
is_red raced = true
is_red in_full_tier = true
is_red package_edited = true
is_red unmatched = true
is_red excuse = false

abbrev pub is_failure : Verdict → Bool
is_failure silent = false
is_failure listed_ok = false
is_failure without_result = false
is_failure unlisted = true
is_failure raced = true
is_failure in_full_tier = true
is_failure package_edited = true
is_failure unmatched = true
is_failure excuse = true

abbrev pub is_unlisted : Verdict → Bool
is_unlisted unlisted = true
is_unlisted _ = false

abbrev pub is_excuse : Verdict → Bool
is_excuse excuse = true
is_excuse _ = false

abbrev pub report_of : Verdict → Text → List Line
report_of silent test = []
report_of listed_ok test = ok_quarantined test ∷ []
report_of without_result test = red_no_result test ∷ []
report_of unlisted test = pending test ∷ []
report_of raced test = red_race test ∷ []
report_of in_full_tier test = red_full_tier test ∷ []
report_of package_edited test = red_edited test ∷ []
report_of unmatched test = red_no_match test ∷ []
report_of excuse test = quarantined test ∷ []

abbrev pub when {ℓ} : {A : Type ℓ} → Bool → A → List A
when true a = a ∷ []
when false a = []
