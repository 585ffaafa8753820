-- ===== src/Budget/Annotation/Accepted.antt =====
-- Parse and Encode of budget/v1alpha1/annotationpayload.go: what an accepted value is, and that a
-- written one is read back.
use apis.Prelude.{
  is_some, String, pos, ◌≤◌, ◌≡◌, refl, sym, ap, ◌∙◌, subst, Bool, true, false, not, Option, none,
  some, List, [], ◌∷◌, map, All, ltb, length, eqb_ℤ, eqb_ℤ_iff, Bytes, bytes_eq, bytes_eq_iff,
  codes, arith,
}
use apis.Prelude.Outcomes.{Outcome, ok, err, >>=-eq-ok}
use apis.Budget.Observation.{BandCounters}
use apis.Budget.Validate.{validate_counters, validate_observation}
use apis.Budget.Validate.Facts.{not-false, IsObservation, validate_observation-IsObservation}
use apis.Budget.Annotation.{
  AnnotationFault, unknown_schema, too_large, bad_json, trailing_data, bad_keys, bad_observation,
  budget_annotation_schema, max_budget_annotation_bytes, NodeBudgetReport, Codec, wrapped, or_fault,
  refuse, is_current, decode_annotation, encode_annotation, validate_report, merge_counters,
  merge_report, parse_report, encode_report,
}
use apis.Budget.Annotation.Tree.{Json, StructFields}
use apis.Budget.Annotation.Keys.Distinct.{has_distinct_keys}
use apis.Budget.Annotation.Keys.Exact.{KeyAt}
use apis.Budget.Annotation.Keys.{check_duplicate_keys, check_exact_keys, find_field}
use apis.Budget.Annotation.Windows.Kept.{merge_unknown_windows-validate_counters}

refuse-eq-ok : (b : Bool) (e : AnnotationFault) {u : Unit {0}} → refuse b e ≡ ok u → b ≡ false
refuse-eq-ok true e h = absurd (cc)
refuse-eq-ok false e h = refl

wrapped-eq-ok :
    {E : Type 0} (w : E → AnnotationFault) (c : Outcome E (Unit {0})) {u : Unit {0}}
    → wrapped w c ≡ ok u
    → c ≡ ok tt
wrapped-eq-ok w (ok tt) h = refl
wrapped-eq-ok w (err e) h = absurd (cc)

or_fault-eq-ok {ℓ} :
    {A : Type ℓ} (o : Option A) (e : AnnotationFault) {a : A} → or_fault o e ≡ ok a → o ≡ some a
or_fault-eq-ok none e h = cc
or_fault-eq-ok (some b) e h = cc

-- A value that the strict decoder accepts as `a`.
record IsDecoded {A : Type 0} (codec : Codec A) (value : Bytes) (a : A) : Type 0 where
  pub short : length value ≤ max_budget_annotation_bytes
  pub schema : codec.raw_schema value ≡ some (some (codes "1"))
  pub decoded : codec.decode value ≡ some a
  pub alone : codec.has_more value ≡ false
  pub distinct : check_duplicate_keys (codec.tokens value) ≡ ok tt
  pub exact :
      (tree : Json) × (codec.unmarshal value ≡ some tree)
      × (check_exact_keys tree codec.shape ≡ ok tt)

current-eq : (schema : Option Bytes) → not (is_current schema) ≡ false → schema ≡ some (codes "1")
current-eq none h = absurd (cc)
current-eq (some raw) h =
    ap some ((bytes_eq_iff raw (codes "1")).0 (not-false (bytes_eq raw (codes "1")) h))

decode_annotation-IsDecoded :
    {A : Type 0} (codec : Codec A) (value : Bytes) (a : A)
    → decode_annotation codec value ≡ ok a
    → IsDecoded codec value a
unfolding decode_annotation
decode_annotation-IsDecoded codec value a h =
    let (u, few, h1) =
      >>=-eq-ok (refuse (ltb max_budget_annotation_bytes (length value)) too_large) _ h in
    let (schema, raw, h2) = >>=-eq-ok (or_fault (codec.raw_schema value) bad_json) _ h1 in
    let (v, current, h3) = >>=-eq-ok (refuse (not (is_current schema)) unknown_schema) _ h2 in
    let (b, decoded, h4) = >>=-eq-ok (or_fault (codec.decode value) bad_json) _ h3 in
    let (w, alone, h5) = >>=-eq-ok (refuse (codec.has_more value) trailing_data) _ h4 in
    let (x, distinct, h6) =
      >>=-eq-ok (wrapped bad_keys (check_duplicate_keys (codec.tokens value))) _ h5 in
    let (generic, tree, h7) = >>=-eq-ok (or_fault (codec.unmarshal value) bad_json) _ h6 in
    let (y, exact, h8) = >>=-eq-ok (wrapped bad_keys (check_exact_keys generic codec.shape)) _ h7 in
    let fits : ltb max_budget_annotation_bytes (length value) ≡ false =
      refuse-eq-ok _ too_large few in
    let one : schema ≡ some (codes "1") =
      current-eq schema (refuse-eq-ok _ unknown_schema current) in
    let same : b ≡ a = cc h8 in
    record {
      short = ground arith;
      schema = or_fault-eq-ok (codec.raw_schema value) bad_json raw ∙ ap some one;
      decoded = or_fault-eq-ok (codec.decode value) bad_json decoded ∙ ap some same;
      alone = refuse-eq-ok _ trailing_data alone;
      distinct = wrapped-eq-ok bad_keys (check_duplicate_keys (codec.tokens value)) distinct;
      exact = (
        generic,
        or_fault-eq-ok (codec.unmarshal value) bad_json tree,
        wrapped-eq-ok bad_keys (check_exact_keys generic codec.shape) exact,
      );
    }

validate_report-valid :
    (r : NodeBudgetReport) {u : Unit {0}}
    → validate_report r ≡ ok u
    → (r.schema ≡ budget_annotation_schema) × (validate_observation r.observation ≡ ok tt)
unfolding validate_report
validate_report-valid r h =
    let (v, current, h1) =
      >>=-eq-ok (refuse (not (eqb_ℤ r.schema budget_annotation_schema)) unknown_schema) _ h in
    (
      (eqb_ℤ_iff r.schema budget_annotation_schema).0
          (not-false _ (refuse-eq-ok _ unknown_schema current)),
      wrapped-eq-ok bad_observation (validate_observation r.observation) h1,
    )

-- A report that ParseNodeBudgetReport answers, before the keys of its value are looked at.
record IsRead (codec : Codec NodeBudgetReport) (value : Bytes) (r : NodeBudgetReport) : Type 0 where
  payload : NodeBudgetReport
  decoding : IsDecoded codec value payload
  merged : r ≡ merge_report payload
  current : r.schema ≡ budget_annotation_schema
  valid : validate_observation r.observation ≡ ok tt

parse_report-IsRead :
    (codec : Codec NodeBudgetReport) (value : Bytes) (r : NodeBudgetReport)
    → parse_report codec value ≡ ok r
    → IsRead codec value r
unfolding parse_report
parse_report-IsRead codec value r h =
    let (a, decoded, h1) = >>=-eq-ok (decode_annotation codec value) _ h in
    let (u, valid, h2) = >>=-eq-ok (validate_report (merge_report a)) _ h1 in
    let same : merge_report a ≡ r = cc h2 in
    let (current, observed) = validate_report-valid (merge_report a) valid in
    record {
      payload = a;
      decoding = decode_annotation-IsDecoded codec value a decoded;
      merged = sym same;
      current = subst (λ x. x.schema ≡ budget_annotation_schema) same current;
      valid = subst (λ x. validate_observation x.observation ≡ ok tt) same observed;
    }

-- An accepted value: it is short, and one JSON tree in which no object, at any depth, names a key
-- twice and every key of an object that stands for a struct is the name of one of its fields. The
-- report is the payload with its windowed counts merged, of schema 1, and its observation has distinct
-- signals and bands, ladders in order and the block of its platform.
pub record IsReport (codec : Codec NodeBudgetReport) (value : Bytes) (r : NodeBudgetReport)
    : Type 0 where
  pub short : length value ≤ 16384
  pub schema : codec.raw_schema value ≡ some (some (codes "1"))
  pub tree : Json
  pub is_tree : codec.unmarshal value ≡ some tree
  pub distinct : has_distinct_keys tree ≡ true
  pub exact :
      (fs : StructFields) (k : String)
      → KeyAt tree codec.shape fs k
      → is_some (find_field k fs) ≡ true
  pub payload : NodeBudgetReport
  pub decoded : codec.decode value ≡ some payload
  pub merged : r ≡ merge_report payload
  pub current : r.schema ≡ pos 1
  pub observation : IsObservation r.observation

merge_counters-all :
    (cs : List BandCounters)
    → All (λ c. validate_counters c ≡ ok tt) cs
    → map merge_counters cs ≡ cs
merge_counters-all [] h = refl
merge_counters-all (c ∷ cs) h =
    let here : merge_counters c ≡ c =
      ap (λ ws. record c { windows = ws }) (merge_unknown_windows-validate_counters c h.0) in
    rw (here, merge_counters-all cs h.1) refl

merge_report-validate_report :
    (r : NodeBudgetReport) → validate_report r ≡ ok tt → merge_report r ≡ r
unfolding merge_report
merge_report-validate_report r h =
    let is = validate_observation-IsObservation r.observation (validate_report-valid r h).1 in
    ap (λ cs. record r { observation = record r.observation { counters = cs } })
      (merge_counters-all r.observation.counters is.counters)

-- If NodeBudgetReport.Encode writes a value for a report, and encoding/json decodes what it writes for
-- this report to the report again, then ParseNodeBudgetReport reads the value as the report.
pub parse_report-encode_report :
    (codec : Codec NodeBudgetReport) (r : NodeBudgetReport) (value : Bytes)
    → ((b : Bytes) → codec.marshal r ≡ some b → codec.decode b ≡ some r)
    → encode_report codec r ≡ ok value
    → parse_report codec value ≡ ok r
unfolding encode_report encode_annotation
parse_report-encode_report codec r value json h =
    let (u, valid, h1) = >>=-eq-ok (validate_report r) _ h in
    let (s, encoded, h2) = >>=-eq-ok (encode_annotation codec r) _ h1 in
    let (back, read, h3) = >>=-eq-ok (parse_report codec s) _ h2 in
    let (b, marshalled, h4) = >>=-eq-ok (or_fault (codec.marshal r) bad_json) _ encoded in
    let (v, small, h5) =
      >>=-eq-ok (refuse (ltb max_budget_annotation_bytes (length b)) too_large) _ h4 in
    let written : b ≡ s = cc h5 in
    let same : s ≡ value = cc h3 in
    let is = parse_report-IsRead codec s back read in
    let payload : is.payload ≡ r = cc (
      is.decoding.decoded,
      json b (or_fault-eq-ok (codec.marshal r) bad_json marshalled),
      written,
    ) in
    let whole : back ≡ r =
      is.merged ∙ ap merge_report payload ∙ merge_report-validate_report r valid in
    rw (sym same) (read ∙ ap ok whole)
