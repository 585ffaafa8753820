-- ===== src/Samples/AnnotationTests.antt =====
-- The theorems on budget/v1alpha1/annotationpayload.go at one report.
use apis.Prelude.{
  ◌≡◌, refl, false, none, some, pos, [], ◌∷◌, Bytes, bytes_eq, codes, if◌then◌else◌, subst,
}
use apis.Prelude.Outcomes.{ok, err}
use apis.Budget.Observation.{BandCounters}
use apis.Budget.Vocab.{
  one_of, position, signal_page_code, signal_valid, counter_window_valid, counter_reason_valid,
  signal_unit, trend_valid, limiting_resource_valid, kill_mode_valid, kill_mode_reason_valid,
  platform_valid, level_valid, band_valid, is_descending,
}
use apis.Budget.Ladder.{
  non_negative, check_signs, check_against, check_rungs, check_release, check_releases,
  has_evict_soft, check_ladder,
}
use apis.Budget.Validate.{
  check_counts, check_totals, validate_capacity, validate_signal, validate_kill_mode, check_windows,
  validate_counters, check_signals, check_counters, validate_linux, validate_observation,
}
use apis.Budget.Annotation.Tree.{
  Json, number, string, array, object, no_elements, element, no_members, member, leaf, struct,
  no_fields, field,
}
use apis.Budget.Annotation.Keys.{
  repeated_key, open_object, close_object, scalar, text, check_duplicate_keys,
}
use apis.Budget.Annotation.Keys.Distinct.{
  has_distinct_keys, value_tokens, check_duplicate_keys-value_tokens,
}
use apis.Budget.Annotation.{
  NodeBudgetReport, Codec, decode_annotation, encode_annotation, validate_report, merge_report,
  parse_report, encode_report,
}
use apis.Budget.Annotation.Keys.{check_tokens, find_field, check_exact_keys}
use apis.Budget.Annotation.Windows.{merge_window, merge_windows, merge_unknown_windows}
use apis.Budget.Annotation.Windows.Kept.{merge_unknown_windows-validate_counters}
use apis.Budget.Annotation.Accepted.{parse_report-encode_report}
use apis.Samples.ObservationTests.{batch, observation}

-- An object inside an array names the key `a` twice.
abbrev twice : Json
twice = object (
    member "a" number (
      member "b"
        (array
          (element (object (member "a" number (member "a" (string "x") no_members))) no_elements))
        no_members))

check_duplicate_keys-value_tokens_example :
    check_duplicate_keys (value_tokens twice []) ≡ err repeated_key
unfolding has_distinct_keys one_of
check_duplicate_keys-value_tokens_example = check_duplicate_keys-value_tokens twice []

batch-valid : validate_counters batch ≡ ok tt
unfolding validate_counters band_valid check_totals check_windows counter_window_valid
    counter_reason_valid
batch-valid = refl

merge_unknown_windows-validate_counters_example :
    merge_unknown_windows batch.windows ≡ batch.windows
merge_unknown_windows-validate_counters_example =
    merge_unknown_windows-validate_counters batch batch-valid

abbrev report : NodeBudgetReport
report = record { schema = pos 1; observation = observation }

-- Two windowed counts that a newer producer named.
abbrev unknown_windows : BandCounters
unknown_windows = record batch {
  windows =
      record { window = "1h"; reason = "unknown"; count = pos 2 }
      ∷ record { window = "1h"; reason = "unknown"; count = pos 3 }
      ∷ [];
}

abbrev merged_windows : BandCounters
merged_windows = record batch {
  windows = record { window = "1h"; reason = "unknown"; count = pos 5 } ∷ [];
}

abbrev report_of : BandCounters → NodeBudgetReport
report_of c = record { schema = pos 1; observation = record observation { counters = c ∷ [] } }

abbrev written : Bytes
written = codes "{\"schema\":1}"

abbrev codec_of : NodeBudgetReport → Codec NodeBudgetReport
codec_of r = record {
  marshal = λ a. some written;
  raw_schema = λ b. some (some (codes "1"));
  decode = λ b. if bytes_eq b written then some r else none;
  has_more = λ b. false;
  tokens = λ b. ok open_object ∷ ok (text "schema") ∷ ok scalar ∷ ok close_object ∷ [];
  unmarshal = λ b. some (object (member "schema" number no_members));
  shape = struct (field "schema" leaf no_fields);
}

report-written : encode_report (codec_of report) report ≡ ok written
unfolding encode_report encode_annotation parse_report decode_annotation check_duplicate_keys
    check_tokens one_of check_exact_keys find_field merge_report merge_unknown_windows merge_windows
    merge_window validate_report validate_observation platform_valid level_valid validate_capacity
    check_counts non_negative check_signals validate_signal signal_valid signal_page_code position
    signal_unit check_ladder is_descending check_signs check_rungs check_against check_releases
    check_release has_evict_soft trend_valid limiting_resource_valid validate_kill_mode
    kill_mode_valid kill_mode_reason_valid check_counters validate_counters band_valid
    counter_window_valid counter_reason_valid check_totals check_windows validate_linux
report-written = refl

parse_report-encode_report_example : parse_report (codec_of report) written ≡ ok report
unfolding bytes_eq
parse_report-encode_report_example =
    parse_report-encode_report (codec_of report) report written (λ b same. decoded b same)
      report-written
  where
    decoded : (b : Bytes) → some written ≡ some b → (codec_of report).decode b ≡ some report
    decoded b same =
        let same_bytes : written ≡ b = cc same in
        subst (λ x. (codec_of report).decode x ≡ some report) same_bytes refl
