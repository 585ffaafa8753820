-- ===== src/TestResults/Run/Exit.antt =====
-- What the exit codes of `run` (hack/lib/testresults.go) say of the tests of the stream.
use apis.Prelude.{
  ℕ, ◌<◌, ◌≡◌, ◌≢◌, refl, sym, ap, ◌∙◌, ◌⊎◌, inl, inr, Bool, true, false, List, [], ◌∷◌, ◌++◌, map,
  Option, some, if◌then◌else◌, Bytes as Text, codes, Option-cases, Among, arith, subst,
}
use apis.TestResults.Registry.{parse_registry}
use apis.TestResults.Collector.{
  failed, Result, Event, Collector, StreamFault, new_collector, collect_lines, results, test_id,
}
use apis.TestResults.Collector.Replay.{test_events}
use apis.TestResults.Collector.Failures.{fail_event-results}
use apis.TestResults.Evaluate.{Tier, fast, Evaluation, evaluate}
use apis.TestResults.Evaluate.Excuse.{Excused}
use apis.TestResults.Evaluate.Green.{evaluate-Excused, evaluate-excused_pos, evaluate-no_result}
use apis.TestResults.Run.{
  exit_green, exit_red, exit_usage, exit_excused, tier_of, today_of, RegistryFile, registry_text,
  StreamError, of_line, reading, stream_errors, is_none, is_red_run, exit_code, failures, finish,
  run,
}

exit_code-green :
    (red : Bool) (excused f : ℕ)
    → exit_code red excused f ≡ exit_green
    → (red ≡ false) × (excused ≡ 0)
unfolding exit_code
exit_code-green red excused f h = ground arith

exit_code-excused :
    (red : Bool) (excused f : ℕ)
    → exit_code red excused f ≡ exit_excused
    → (red ≡ false) × (0 < excused)
unfolding exit_code
exit_code-excused red excused f h = ground arith

is_red_run-false :
    (e : Evaluation) (errs : List StreamError) (rs : List Result)
    → is_red_run e errs rs ≡ false
    → (e.red ≡ false) × (is_none errs ≡ true) × (is_none rs ≡ false)
unfolding is_red_run
is_red_run-false e errs rs h = ground arith

stream_errors-none :
    (c : Collector) (scan_failed : Bool)
    → is_none (stream_errors c scan_failed) ≡ true
    → (c.errs ≡ []) × (scan_failed ≡ false)
unfolding stream_errors
stream_errors-none c scan_failed h = go c.errs scan_failed h
  where
    go :
        (errs : List StreamFault) (b : Bool)
        → is_none (map of_line errs ++ (if b then reading ∷ [] else [])) ≡ true
        → (errs ≡ []) × (b ≡ false)
    go [] true h = absurd (cc)
    go [] false h = (refl, refl)
    go (e ∷ errs) b h = absurd (cc)

exit_code-not_red : (red : Bool) (excused f : ℕ) → exit_code red excused f ≢ exit_red → red ≡ false
unfolding exit_code
exit_code-not_red red excused f h = ground arith

module _ (decode : Text → Option Event) (registry : Text) (tier : Tier) (edited : List Text)
    (today : ℕ) (lines : List Text) (scan_failed : Bool) where
  abbrev outcome : Evaluation
  outcome =
      evaluate registry (results (collect_lines decode 1 lines new_collector)) tier edited today

  finish-stream :
      finish decode registry tier edited today lines scan_failed ≢ exit_red
      → (scan_failed ≡ false)
        × ((collect_lines decode 1 lines new_collector).errs ≡ [])
        × (is_none (results (collect_lines decode 1 lines new_collector)) ≡ false)
  unfolding finish
  finish-stream h =
      let c = collect_lines decode 1 lines new_collector in
      let errs = stream_errors c scan_failed in
      let calm = is_red_run-false outcome errs (results c) (
        exit_code-not_red (is_red_run outcome errs (results c)) outcome.excused
          (failures (results c)) h) in
      let quiet = stream_errors-none c scan_failed calm.1 in (quiet.1, quiet.0, calm.2)

  -- In a run that is not red, the test of an event that fails it has a failed result.
  failed_result :
      (ev : Event)
      → outcome.red ≡ false
      → Among ev (test_events decode lines)
      → ev.action ≡ codes "fail"
      → (r : Result) × Among r (results (collect_lines decode 1 lines new_collector))
        × (r.test ≡ test_id ev)
        × (r.status ≡ failed)
  failed_result ev calm m fails =
      let (r, place, same, status) = fail_event-results decode lines ev m fails in
      elim status [
        | inl st ↦ (r, place, same, st)
        | inr st ↦ absurd (
            evaluate-no_result registry (results (collect_lines decode 1 lines new_collector)) tier
              edited today r place calm st)
      ]

  pub finish-green :
      (ev : Event)
      → finish decode registry tier edited today lines scan_failed ≡ exit_green
      → Among ev (test_events decode lines)
      → ev.action ≢ codes "fail"
  unfolding finish
  finish-green ev h m fails =
      let rs = results (collect_lines decode 1 lines new_collector) in
      let errs = stream_errors (collect_lines decode 1 lines new_collector) scan_failed in
      let (red, none_excused) =
        exit_code-green (is_red_run outcome errs rs) outcome.excused (failures rs) h in
      let calm = (is_red_run-false outcome errs rs red).0 in
      let (r, place, same, st) = failed_result ev calm m fails in
      omega
        (arith, none_excused, evaluate-excused_pos registry rs tier edited today r place st calm)

  pub finish-Excused :
      (ev : Event)
      → finish decode registry tier edited today lines scan_failed ≡ exit_excused
      → Among ev (test_events decode lines)
      → ev.action ≡ codes "fail"
      → Excused
          (parse_registry registry).entries
          tier
          edited
          (results (collect_lines decode 1 lines new_collector))
          (test_id ev)
  unfolding finish
  finish-Excused ev h m fails =
      let rs = results (collect_lines decode 1 lines new_collector) in
      let errs = stream_errors (collect_lines decode 1 lines new_collector) scan_failed in
      let calm =
        (is_red_run-false outcome errs rs
          (exit_code-excused (is_red_run outcome errs rs) outcome.excused (failures rs) h).0).0 in
      let (r, place, same, st) = failed_result ev calm m fails in
      subst (Excused (parse_registry registry).entries tier edited rs) same
        (evaluate-Excused registry rs tier edited today r place st calm)

module _ (decode : Text → Option Event) (tier_flag today_flag : Text) (now : ℕ)
    (file : RegistryFile) (edited lines : List Text) (scan_failed : Bool) where
  abbrev exit : ℕ
  exit = run decode tier_flag today_flag now file edited lines scan_failed

  -- A run that ends neither red nor by a usage error has a tier, a date and a registry.
  abbrev Finished : ℕ → Type 0
  Finished code =
      (tier : Tier) × (today : ℕ) × (registry : Text) × (tier_of tier_flag ≡ some tier)
      × (registry_text file ≡ some registry)
      × (finish decode registry tier edited today lines scan_failed ≡ code)

  run-Finished : (code : ℕ) → code ≢ exit_usage → code ≢ exit_red → exit ≡ code → Finished code
  unfolding run
  run-Finished code not_usage not_red h = elim (Option-cases (tier_of tier_flag)) [
    | inl bad ↦ absurd (ground arith)
    | inr (tier, good_tier) ↦ elim (Option-cases (today_of now today_flag)) [
      | inl bad ↦ absurd (ground arith)
      | inr (today, good_today) ↦ elim (Option-cases (registry_text file)) [
        | inl bad ↦ absurd (ground arith)
        | inr (registry, good_file) ↦ (tier, today, registry, good_tier, good_file, ground arith)
      ]
    ]
  ]

  -- If `run` exits green, no event of the stream fails a test.
  pub run-exit_green :
      (ev : Event)
      → exit ≡ exit_green
      → Among ev (test_events decode lines)
      → ev.action ≢ codes "fail"
  run-exit_green ev h m =
      let (tier, today, registry, good_tier, good_file, ends) =
        run-Finished exit_green (omega arith) (omega arith) h in
      finish-green decode registry tier edited today lines scan_failed ev ends m

  -- If `run` exits with the code for excused failures, the tier is the fast one and each event that
  -- fails a test does so where the registry excuses the test: itself, or a failing subtest of it, is
  -- listed in a package that is not edited by an entry whose signature every failed run's output
  -- holds, with no race report.
  pub run-exit_excused :
      (ev : Event)
      → exit ≡ exit_excused
      → Among ev (test_events decode lines)
      → ev.action ≡ codes "fail"
      → (registry : Text) × (registry_text file ≡ some registry)
        × (tier_of tier_flag ≡ some fast)
        × Excused
            (parse_registry registry).entries
            fast
            edited
            (results (collect_lines decode 1 lines new_collector))
            (test_id ev)
  run-exit_excused ev h m fails =
      let (tier, today, registry, good_tier, good_file, ends) =
        run-Finished exit_excused (omega arith) (omega arith) h in
      let excused =
        finish-Excused decode registry tier edited today lines scan_failed ev ends m fails in
      let is_fast = excused.in_fast_tier in
      (
        registry,
        good_file,
        good_tier ∙ ap some is_fast,
        subst
            (λ t.
              Excused (parse_registry registry).entries t edited
                (results (collect_lines decode 1 lines new_collector)) (test_id ev))
            is_fast excused,
      )

  -- If `run` exits green or excused, the stream was read to its end without an error on any line, and
  -- it held a result.
  pub run-stream :
      (exit ≡ exit_green) ⊎ (exit ≡ exit_excused)
      → (scan_failed ≡ false)
        × ((collect_lines decode 1 lines new_collector).errs ≡ [])
        × (is_none (results (collect_lines decode 1 lines new_collector)) ≡ false)
  run-stream h = elim h [
    | inl green ↦
        read_whole exit_green (omega arith)
          (run-Finished exit_green (omega arith) (omega arith) green)
    | inr excused ↦
        read_whole exit_excused (omega arith)
          (run-Finished exit_excused (omega arith) (omega arith) excused)
  ]
    where
      read_whole :
          (code : ℕ)
          → code ≢ exit_red
          → Finished code
          → (scan_failed ≡ false)
            × ((collect_lines decode 1 lines new_collector).errs ≡ [])
            × (is_none (results (collect_lines decode 1 lines new_collector)) ≡ false)
      read_whole code not_red (tier, today, registry, good_tier, good_file, ends) =
          finish-stream decode registry tier edited today lines scan_failed
            (λ red. not_red (sym ends ∙ red))
