-- ===== src/Samples/ResultTests.antt =====
-- The theorems on hack/lib/testresults.go at a short stream and a registry of one entry.
use apis.Prelude.{
  ℕ, ◌≡◌, ◌≢◌, inl, inr, refl, Bool, false, List, [], ◌∷◌, Option, none, some, if◌then◌else◌,
  Bytes as Text, codes, bytes_eq, has_prefix, any, Among, ◌<◌, ◌≤◌, All, length, map,
}
use apis.TestResults.Strings.{trim_space, contains_text, split_at, cut_at, lower_ascii, contains}
use apis.TestResults.Ids.{go_id, swift_id, split_test_id, protected_reason, parse_date}
use apis.TestResults.Lines.{
  race_marker, has_race, one_space, drop_duration, harness_reason, framing, is_own, own_failure,
}
use apis.TestResults.Lexer.{strip_from, strip_comment, class_of, lex, shell_split}
use apis.TestResults.Registry.{
  key_value, field, read_token, read_tokens, missing_keys, check_fields, read_line, line_of_test,
  fail_line, add_entry, read_listed, read_lines, unix_lines, limit_entries, parse_registry,
}
use apis.TestResults.Collector.{
  Event, Result, new_collector, carried_by_every_run, ended, act, find_test, with_test, test_event,
  kind_of, take_event, collect_line, collect_lines, keep, test_id, settled, raced_packages, results,
  failed,
}
use apis.TestResults.Evaluate.{
  fast, full, find_entry, judge_listed, judge, note, judge_all, output_of, is_settled_kid, covers,
  settle, open_report, report_errors, report_expired, evaluate,
}
use apis.TestResults.Run.{
  is_none, tier_of, today_of, content, registry_text, stream_errors, is_red_run, exit_code, finish,
  run,
}
use apis.TestResults.Lexer.Words.{HasWord, shell_split-HasWord}
use apis.TestResults.Registry.Valid.{
  Distinct, IsOfLine, content_lines, lines_of, parse_registry-IsSound, parse_registry_complete,
}
use apis.TestResults.Collector.Replay.{
  replay, line_event, test_events, is_own_event, collect_lines-replay,
}
use apis.TestResults.Collector.Failures.{IsFailed, fail_event-IsFailed}
use apis.TestResults.Evaluate.Excuse.{Excused}
use apis.TestResults.Evaluate.Green.{evaluate-Excused, evaluate-excused_pos}
use apis.TestResults.Evaluate.Report.{is_red_line, evaluate-red}
use apis.TestResults.Run.Exit.{run-exit_green, run-exit_excused, run-stream}

-- One entry.
abbrev registry : Text
registry =
    codes
      "k3sm.io/net/v1::TestDial sig='connection reset by peer' owner=ana filed=2026-01-02 deadline=2026-12-31 fix=12 reason=flaky # known"

registry_read : length (parse_registry registry).entries ≡ 1
unfolding parse_registry unix_lines split_at read_lines limit_entries strip_comment strip_from
    trim_space read_listed bytes_eq shell_split lex class_of read_line split_test_id go_id swift_id
    cut_at has_prefix read_tokens read_token key_value field missing_keys contains check_fields
    parse_date has_race race_marker contains_text harness_reason one_space drop_duration
    protected_reason lower_ascii add_entry line_of_test fail_line
registry_read = refl

-- A decoder of three lines: an output of the test, its failure and its success.
abbrev event_of : Text → Event
event_of action = record {
  action = action;
  package_path = codes "k3sm.io/net/v1";
  import_path = [];
  test = codes "TestDial";
  output = if bytes_eq action (codes "output") then codes "connection reset by peer" else [];
}

abbrev decode : Text → Option Event
decode raw =
    if bytes_eq raw (codes "O")
    then some (event_of (codes "output"))
    else if bytes_eq raw (codes "F")
    then some (event_of (codes "fail"))
    else if bytes_eq raw (codes "P")
    then some (event_of (codes "pass"))
    else none

abbrev failing_stream : List Text
failing_stream = codes "O" ∷ codes "F" ∷ codes "P" ∷ []

abbrev passing_stream : List Text
passing_stream = codes "O" ∷ codes "P" ∷ []

abbrev exit_of : List Text → ℕ
exit_of lines = run decode (codes "fast") [] 20260601 (content registry) [] lines false

excused_run : exit_of failing_stream ≡ 3
unfolding run tier_of bytes_eq today_of registry_text finish collect_lines collect_line trim_space
    kind_of has_prefix take_event test_event find_test with_test act ended results settled
    raced_packages evaluate parse_registry unix_lines split_at read_lines limit_entries
    strip_comment strip_from read_listed shell_split lex class_of read_line split_test_id go_id
    swift_id cut_at read_tokens read_token key_value field missing_keys contains check_fields
    parse_date has_race race_marker contains_text harness_reason one_space drop_duration
    protected_reason lower_ascii add_entry line_of_test fail_line open_report report_errors
    report_expired judge_all judge note find_entry judge_listed carried_by_every_run settle covers
    is_settled_kid output_of own_failure is_own framing exit_code is_red_run stream_errors
excused_run = refl

green_run : exit_of passing_stream ≡ 0
unfolding run tier_of bytes_eq today_of registry_text finish collect_lines collect_line trim_space
    kind_of has_prefix take_event test_event find_test with_test act ended results settled
    raced_packages evaluate parse_registry unix_lines split_at read_lines limit_entries
    strip_comment strip_from read_listed shell_split lex class_of read_line split_test_id go_id
    swift_id cut_at read_tokens read_token key_value field missing_keys contains check_fields
    parse_date has_race race_marker contains_text harness_reason one_space drop_duration
    protected_reason lower_ascii add_entry line_of_test fail_line open_report report_errors
    report_expired judge_all judge note find_entry judge_listed carried_by_every_run settle covers
    is_settled_kid output_of own_failure is_own framing exit_code is_red_run stream_errors
green_run = refl

fails_at : Among (event_of (codes "fail")) (test_events decode failing_stream)
unfolding test_events line_event trim_space bytes_eq kind_of has_prefix
fails_at = inr (inl refl)

passes_at : Among (event_of (codes "pass")) (test_events decode passing_stream)
unfolding test_events line_event trim_space bytes_eq kind_of has_prefix
passes_at = inr (inl refl)

run-exit_green_example : codes "pass" ≢ codes "fail"
run-exit_green_example =
    run-exit_green decode (codes "fast") [] 20260601 (content registry) [] passing_stream false
      (event_of (codes "pass")) green_run passes_at

run-exit_excused_example :
    (text : Text) × (registry_text (content registry) ≡ some text)
    × (tier_of (codes "fast") ≡ some fast)
    × Excused
        (parse_registry text).entries
        fast
        []
        (results (collect_lines decode 1 failing_stream new_collector))
        (test_id (event_of (codes "fail")))
run-exit_excused_example =
    run-exit_excused decode (codes "fast") [] 20260601 (content registry) [] failing_stream false
      (event_of (codes "fail")) excused_run fails_at refl

run-stream_example :
    (◌≡◌ {A = Bool} false false)
    × ((collect_lines decode 1 failing_stream new_collector).errs ≡ [])
    × (is_none (results (collect_lines decode 1 failing_stream new_collector)) ≡ false)
run-stream_example =
    run-stream decode (codes "fast") [] 20260601 (content registry) [] failing_stream false
      (inr excused_run)

-- The failed result of the stream that is excused.
abbrev failed_dial : Result
failed_dial = record {
  test = codes "k3sm.io/net/v1::TestDial";
  status = failed;
  output = codes "connection reset by peer";
  failed_runs = codes "connection reset by peer" ∷ [];
  run = [];
  is_open = false;
}

abbrev failed_results : List Result
failed_results = failed_dial ∷ []

calm : (evaluate registry failed_results fast [] 20260601).red ≡ false
unfolding evaluate parse_registry unix_lines split_at read_lines limit_entries strip_comment
    strip_from trim_space bytes_eq read_listed shell_split lex class_of read_line split_test_id
    go_id swift_id cut_at has_prefix read_tokens read_token key_value field missing_keys contains
    check_fields parse_date has_race race_marker contains_text harness_reason one_space
    drop_duration protected_reason lower_ascii add_entry line_of_test fail_line open_report
    report_errors report_expired judge_all judge note find_entry judge_listed carried_by_every_run
    settle covers is_settled_kid output_of own_failure is_own framing
calm = refl

evaluate-Excused_example :
    Excused
      (parse_registry registry).entries
      fast
      []
      failed_results
      (codes "k3sm.io/net/v1::TestDial")
evaluate-Excused_example =
    evaluate-Excused registry failed_results fast [] 20260601 failed_dial (inl refl) refl calm

evaluate-excused_pos_example : 0 < (evaluate registry failed_results fast [] 20260601).excused
evaluate-excused_pos_example =
    evaluate-excused_pos registry failed_results fast [] 20260601 failed_dial (inl refl) refl calm

evaluate-red_example :
    (evaluate registry failed_results full [] 20260601).red
    ≡ any is_red_line (evaluate registry failed_results full [] 20260601).lines
evaluate-red_example = evaluate-red registry failed_results full [] 20260601

collect_lines-replay_example :
    find_test
      (codes "k3sm.io/net/v1::TestDial")
      (collect_lines decode 1 failing_stream new_collector).tests
    ≡ replay
        (codes "k3sm.io/net/v1::TestDial")
        none
        (keep (is_own_event (codes "k3sm.io/net/v1::TestDial")) (test_events decode failing_stream))
unfolding find_test
collect_lines-replay_example =
    collect_lines-replay (codes "k3sm.io/net/v1::TestDial") decode 1 failing_stream new_collector

fail_event-IsFailed_example :
    (r : Result) × (find_test
        (codes "k3sm.io/net/v1::TestDial")
        (collect_lines decode 1 failing_stream new_collector).tests
      ≡ some r)
    × IsFailed r
fail_event-IsFailed_example =
    fail_event-IsFailed decode failing_stream (event_of (codes "fail")) fails_at refl

parse_registry-IsSound_example :
    All (IsOfLine (lines_of registry)) (parse_registry registry).entries
    × Distinct (parse_registry registry).entries
parse_registry-IsSound_example = parse_registry-IsSound registry

no_errors : (parse_registry registry).errs ≡ []
unfolding parse_registry unix_lines split_at read_lines limit_entries strip_comment strip_from
    trim_space read_listed bytes_eq shell_split lex class_of read_line split_test_id go_id swift_id
    cut_at has_prefix read_tokens read_token key_value field missing_keys contains check_fields
    parse_date has_race race_marker contains_text harness_reason one_space drop_duration
    protected_reason lower_ascii add_entry line_of_test fail_line
no_errors = refl

parse_registry_complete_example :
    (map (λ e. e.line) (parse_registry registry).entries ≡ content_lines 1 (lines_of registry))
    × (length (parse_registry registry).entries ≤ 10)
parse_registry_complete_example = parse_registry_complete registry no_errors

shell_split-HasWord_example : HasWord (shell_split (97 ∷ codes " 'b c'"))
shell_split-HasWord_example = shell_split-HasWord 97 (codes " 'b c'") refl
