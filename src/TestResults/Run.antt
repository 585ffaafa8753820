-- ===== src/TestResults/Run.antt =====
-- run of hack/lib/testresults.go: from the flags, the registry's file and the stream to the exit code.
-- What it prints beside the report is not modelled.
pub mod Exit
use apis.Prelude.{
  ℕ, Bool, true, false, not, ◌&&◌, ◌||◌, List, [], ◌∷◌, ◌++◌, map, Option, none, some,
  if◌then◌else◌, ltb, Bytes as Text, codes, bytes_eq, length,
}
use apis.TestResults.Ids.{parse_date}
use apis.TestResults.Collector.{
  Status, no_result, passed, skipped, failed, Result, Event, Collector, StreamFault, new_collector,
  collect_lines, results, keep,
}
use apis.TestResults.Evaluate.{Tier, fast, full, Line, Evaluation, evaluate}

abbrev pub exit_green : ℕ
exit_green = 0

abbrev pub exit_red : ℕ
exit_red = 1

abbrev pub exit_usage : ℕ
exit_usage = 2

abbrev pub exit_excused : ℕ
exit_excused = 3

-- The switch on the flag -tier.
unfoldable pub tier_of : Text → Option Tier
tier_of flag =
    if bytes_eq flag (codes "fast") || bytes_eq flag (codes "affected")
    then some fast
    else if bytes_eq flag (codes "full")
    then some full
    else none

-- The date that deadlines are judged against: the day of the clock, unless -today names one.
unfoldable pub today_of : ℕ → Text → Option ℕ
today_of now flag = if bytes_eq flag [] then some now else parse_date flag

-- What os.ReadFile answers for the registry.
pub data RegistryFile : Type 0 where
  content : Text → RegistryFile
  not_exist : RegistryFile
  unreadable : RegistryFile

-- The text of the registry: a missing file is an empty registry.
unfoldable pub registry_text : RegistryFile → Option Text
registry_text (content text) = some text
registry_text not_exist = some []
registry_text unreadable = none

-- The errors on the stream: of its lines, then of reading it.
pub data StreamError : Type 0 where
  of_line : StreamFault → StreamError
  reading : StreamError

unfoldable pub stream_errors : Collector → Bool → List StreamError
stream_errors c scan_failed = map of_line c.errs ++ (if scan_failed then reading ∷ [] else [])

abbrev pub is_none {ℓ} : {A : Type ℓ} → List A → Bool
is_none [] = true
is_none (_ ∷ _) = false

abbrev pub is_failed : Result → Bool
is_failed r = elim r.status [ failed ↦ true | no_result ↦ false | passed ↦ false | skipped ↦ false ]

-- The number of failed results.
abbrev pub failures : List Result → ℕ
failures rs = length (keep is_failed rs)

-- Whether `run` is red at its end.
unfoldable pub is_red_run : Evaluation → List StreamError → List Result → Bool
is_red_run e errs rs = e.red || not (is_none errs) || is_none rs && is_none errs

-- The last switch of `run`.
unfoldable pub exit_code : Bool → ℕ → ℕ → ℕ
exit_code red excused failed_tests =
    if red
    then exit_red
    else if ltb 0 excused
    then exit_excused
    else if ltb 0 failed_tests
    then exit_red
    else exit_green

module _ (decode : Text → Option Event) where
  -- `run` from the reading of the stream on.
  unfoldable pub finish : Text → Tier → List Text → ℕ → List Text → Bool → ℕ
  finish registry tier edited today lines scan_failed =
      let c = collect_lines decode 1 lines new_collector in
      let rs = results c in
      let e = evaluate registry rs tier edited today in
      exit_code (is_red_run e (stream_errors c scan_failed) rs) e.excused (failures rs)

  -- run, once its flags are parsed. `now` is the clock's day, `edited` the arguments after the flags.
  unfoldable pub run : Text → Text → ℕ → RegistryFile → List Text → List Text → Bool → ℕ
  run tier_flag today_flag now file edited lines scan_failed = elim (tier_of tier_flag) [
    | none ↦ exit_usage
    | some tier ↦ elim (today_of now today_flag) [
      | none ↦ exit_usage
      | some today ↦ elim (registry_text file) [
        | none ↦ exit_red
        | some registry ↦ finish registry tier edited today lines scan_failed
      ]
    ]
  ]
