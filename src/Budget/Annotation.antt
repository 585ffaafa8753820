-- ===== src/Budget/Annotation.antt =====
-- budget/v1alpha1/annotationpayload.go: the payloads of the budget annotations, their strict decoder,
-- and Parse and Encode. encoding/json and reflect are the operations of a Codec.
pub mod Tree
pub mod Keys
pub mod Windows
pub mod Accepted
use apis.Prelude.{
  ◌≡◌, ℤ, pos, ℕ, Bool, true, false, not, Option, none, some, List, String, if◌then◌else◌, ltb,
  eqb_ℤ, length, map, Bytes, bytes_eq, codes,
}
use apis.Prelude.Outcomes.{Outcome, ok, err, ◌>>=◌, ◌>>◌}
use apis.Budget.Observation.{BandCounters, NodeBudgetObservation}
use apis.Budget.Policy.{NodeBudgetPolicySpec, PolicyFault, validate_policy}
use apis.Budget.Validate.{
  BudgetFault, is_object_name, is_printable_ascii, max_policy_resource_version_bytes,
  validate_observation,
}
use apis.Budget.Annotation.Tree.{Json, Shape}
use apis.Budget.Annotation.Keys.{KeyFault, Token, check_duplicate_keys, check_exact_keys}
use apis.Budget.Annotation.Windows.{merge_unknown_windows}

abbrev pub budget_annotation_schema : ℤ
budget_annotation_schema = pos 1

abbrev pub max_budget_annotation_bytes : ℕ
max_budget_annotation_bytes = 16384

pub data AnnotationFault : Type 0 where
  unknown_schema too_large bad_json trailing_data bad_name bad_resource_version : AnnotationFault
  bad_keys : KeyFault → AnnotationFault
  bad_observation : BudgetFault → AnnotationFault
  bad_spec : PolicyFault → AnnotationFault

pub record NodeBudgetReport : Type 0 where
  pub schema : ℤ
  pub observation : NodeBudgetObservation

pub record NodeBudgetDesiredPolicy : Type 0 where
  pub schema : ℤ
  pub name : Bytes
  pub resource_version : Bytes
  pub spec : NodeBudgetPolicySpec

-- encoding/json at one payload type: json.Marshal; the raw schema of a value, none if it is absent;
-- Decoder.Decode with unknown fields disallowed, and whether the value is followed by others; the
-- tokens of a value; the value as a tree; and, by package reflect, the fields of the payload type.
-- A `none` is an error.
pub record Codec (A : Type 0) : Type 0 where
  pub marshal : A → Option Bytes
  pub raw_schema : Bytes → Option (Option Bytes)
  pub decode : Bytes → Option A
  pub has_more : Bytes → Bool
  pub tokens : Bytes → List (Outcome KeyFault Token)
  pub unmarshal : Bytes → Option Json
  pub shape : Shape

-- An error wrapped in another.
abbrev pub wrapped {ℓ} :
    {E : Type 0} {A : Type ℓ} → (E → AnnotationFault) → Outcome E A → Outcome AnnotationFault A
wrapped w (ok a) = ok a
wrapped w (err e) = err (w e)

abbrev pub or_fault {ℓ} : {A : Type ℓ} → Option A → AnnotationFault → Outcome AnnotationFault A
or_fault none e = err e
or_fault (some a) e = ok a

abbrev pub refuse : Bool → AnnotationFault → Outcome AnnotationFault (Unit {0})
refuse false e = ok tt
refuse true e = err e

-- Whether the raw schema is exactly 1; an absent one and null are not.
abbrev pub is_current : Option Bytes → Bool
is_current none = false
is_current (some raw) = bytes_eq raw (codes "1")

module _ {A : Type 0} (codec : Codec A) where
  -- encodeBudgetAnnotation
  unfoldable pub encode_annotation : A → Outcome AnnotationFault Bytes
  encode_annotation a = or_fault (codec.marshal a) bad_json >>= λ b.
      refuse (ltb max_budget_annotation_bytes (length b)) too_large >> ok b

  -- decodeBudgetAnnotation
  unfoldable pub decode_annotation : Bytes → Outcome AnnotationFault A
  decode_annotation value =
      refuse (ltb max_budget_annotation_bytes (length value)) too_large
      >> (or_fault (codec.raw_schema value) bad_json >>= λ schema.
          refuse (not (is_current schema)) unknown_schema
          >> (or_fault (codec.decode value) bad_json >>= λ a.
              refuse (codec.has_more value) trailing_data
              >> (wrapped bad_keys (check_duplicate_keys (codec.tokens value))
                  >> (or_fault (codec.unmarshal value) bad_json >>= λ generic.
                      wrapped bad_keys (check_exact_keys generic codec.shape) >> ok a))))

-- NodeBudgetReport.Validate
unfoldable pub validate_report : NodeBudgetReport → Outcome AnnotationFault (Unit {0})
validate_report r =
    refuse (not (eqb_ℤ r.schema budget_annotation_schema)) unknown_schema
    >> wrapped bad_observation (validate_observation r.observation)

abbrev pub merge_counters : BandCounters → BandCounters
merge_counters c = record c { windows = merge_unknown_windows c.windows }

-- The loop of ParseNodeBudgetReport over the counters.
unfoldable pub merge_report : NodeBudgetReport → NodeBudgetReport
merge_report r = record r {
  observation = record r.observation { counters = map merge_counters r.observation.counters };
}

-- ParseNodeBudgetReport
unfoldable pub parse_report :
    Codec NodeBudgetReport → Bytes → Outcome AnnotationFault NodeBudgetReport
parse_report codec value =
    decode_annotation codec value >>= λ r. validate_report (merge_report r) >> ok (merge_report r)

-- NodeBudgetReport.Encode
unfoldable pub encode_report :
    Codec NodeBudgetReport → NodeBudgetReport → Outcome AnnotationFault Bytes
encode_report codec r =
    validate_report r >> (encode_annotation codec r >>= λ s. parse_report codec s >>= λ read. ok s)

-- NodeBudgetDesiredPolicy.Validate
unfoldable pub validate_desired : NodeBudgetDesiredPolicy → Outcome AnnotationFault (Unit {0})
validate_desired d =
    refuse (not (eqb_ℤ d.schema budget_annotation_schema)) unknown_schema
    >> (refuse (not (is_object_name d.name)) bad_name
        >> (refuse (not (is_printable_ascii d.resource_version max_policy_resource_version_bytes))
              bad_resource_version
            >> wrapped bad_spec (validate_policy d.spec)))

-- ParseNodeBudgetDesiredPolicy
unfoldable pub parse_desired :
    Codec NodeBudgetDesiredPolicy → Bytes → Outcome AnnotationFault NodeBudgetDesiredPolicy
parse_desired codec value = decode_annotation codec value >>= λ d. validate_desired d >> ok d

-- NodeBudgetDesiredPolicy.Encode
unfoldable pub encode_desired :
    Codec NodeBudgetDesiredPolicy → NodeBudgetDesiredPolicy → Outcome AnnotationFault Bytes
encode_desired codec d =
    validate_desired d
    >> (encode_annotation codec d >>= λ s. parse_desired codec s >>= λ read. ok s)
