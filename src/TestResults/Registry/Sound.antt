-- ===== src/TestResults/Registry/Sound.antt =====
-- What parseRegistry (hack/lib/testresults.go) checks of the entry of one line.
use apis.Prelude.{
  ℕ, ◌≤◌, ◌≡◌, ◌≢◌, sym, ap, ◌∙◌, subst, none, ◌++◌, Among, false, List, [], ◌∷◌, some,
  Bytes as Text, length, Option-cases, inl, inr, arith, codes,
}
use apis.Prelude.Outcomes.{Outcome, ok, err}
use apis.TestResults.Ids.{split_test_id, protected_reason, parse_date}
use apis.TestResults.Lines.{has_race, harness_reason}
use apis.TestResults.Registry.Origin.{value_of-IsToken}
use apis.TestResults.Registry.{
  Entry, Fault, Fields, value_of, check_fields, read_line, one_fault, read_tokens, min_sig_chars,
}

-- An entry against the tokens of its line: the first is its test, a Go or Swift test id outside the
-- trust surfaces; a token has the date filed, a date on or before its deadline; a token has its
-- deadline, a date; a token has its signature, of 12 runes or more, which holds no race marker and
-- does not match the harness's own lines.
pub record IsSound (toks : List Text) (e : Entry) : Type 0 where
  pub rest : List Text
  pub name : Text
  pub filed_on : Text
  pub filed : ℕ
  pub first : toks ≡ e.test ∷ rest
  pub id : split_test_id e.test ≡ some (e.pkg, name)
  pub filed_token : Among (codes "filed=" ++ filed_on) rest
  pub filed_date : parse_date filed_on ≡ some filed
  pub deadline_token : Among (codes "deadline=" ++ e.deadline) rest
  pub deadline_date : parse_date e.deadline ≡ some e.deadline_date
  pub ordered : filed ≤ e.deadline_date
  pub sig_token : Among (codes "sig=" ++ e.sig) rest
  pub sig_long : 12 ≤ length e.sig
  pub sig_no_race : has_race e.sig ≡ false
  pub sig_own : harness_reason e.test name e.sig ≡ false
  pub outside : protected_reason e.pkg name ≡ false

-- What the checks of a line leave of its entry.
record IsChecked (n : ℕ) (test pkg name : Text) (fields : Fields) (e : Entry) : Type 0 where
  numbered : e.line ≡ n
  filed : ℕ
  filed_date : parse_date (value_of fields (codes "filed")) ≡ some filed
  is_deadline : value_of fields (codes "deadline") ≡ e.deadline
  deadline_date : parse_date e.deadline ≡ some e.deadline_date
  ordered : filed ≤ e.deadline_date
  is_test : test ≡ e.test
  is_pkg : pkg ≡ e.pkg
  is_sig : value_of fields (codes "sig") ≡ e.sig
  sig_long : min_sig_chars ≤ length e.sig
  sig_no_race : has_race e.sig ≡ false
  sig_own : harness_reason e.test name e.sig ≡ false
  outside : protected_reason e.pkg name ≡ false

check_fields-IsChecked :
    (n : ℕ) (test pkg name : Text) (fields : Fields) {e : Entry}
    → check_fields n test pkg name fields ≡ ok e
    → IsChecked n test pkg name fields e
unfolding check_fields
check_fields-IsChecked n test pkg name fields {e} h =
    elim (Option-cases (parse_date (value_of fields (codes "filed")))) [
      | inl missing ↦ absurd (ground arith)
      | inr (filed, read) ↦ record {
        numbered = ground arith;
        filed = filed;
        filed_date = read;
        is_deadline = ground arith;
        deadline_date = ground arith;
        ordered = ground arith;
        is_test = ground arith;
        is_pkg = ground arith;
        is_sig = ground arith;
        sig_long = ground arith;
        sig_no_race = ground arith;
        sig_own = ground arith;
        outside = ground arith;
      }
    ]

date-nonempty : (s : Text) (d : ℕ) → parse_date s ≡ some d → s ≢ []
unfolding parse_date
date-nonempty s d h empty =
    let none_read : none ≡ some d = subst (λ x. parse_date x ≡ some d) empty h in cc

long-nonempty : (s : Text) → min_sig_chars ≤ length s → s ≢ []
long-nonempty s h empty = omega (arith, h, ap length empty)

IsChecked-IsSound :
    (n : ℕ) (test pkg name : Text) (rest : List Text) {e : Entry}
    → split_test_id test ≡ some (pkg, name)
    → IsChecked n test pkg name (read_tokens [] rest).0 e
    → IsSound (test ∷ rest) e
IsChecked-IsSound n test pkg name rest {e} id c =
    let fields = (read_tokens [] rest).0 in
    record {
      rest = rest;
      name = name;
      filed_on = value_of fields (codes "filed");
      filed = c.filed;
      first = ap (λ t. t ∷ rest) c.is_test;
      id =
          subst (λ t. split_test_id t ≡ some (e.pkg, name)) c.is_test
            (id ∙ ap (λ p. some (p, name)) c.is_pkg);
      filed_token = value_of-IsToken rest (codes "filed") (date-nonempty _ c.filed c.filed_date);
      filed_date = c.filed_date;
      deadline_token =
          subst (λ v. Among (codes "deadline=" ++ v) rest) c.is_deadline
            (value_of-IsToken rest (codes "deadline") (λ empty.
              date-nonempty e.deadline e.deadline_date c.deadline_date
                (sym c.is_deadline ∙ empty)));
      deadline_date = c.deadline_date;
      ordered = c.ordered;
      sig_token =
          subst (λ v. Among (codes "sig=" ++ v) rest) c.is_sig
            (value_of-IsToken rest (codes "sig")
              (λ empty. long-nonempty e.sig c.sig_long (sym c.is_sig ∙ empty)));
      sig_long = c.sig_long;
      sig_no_race = c.sig_no_race;
      sig_own = c.sig_own;
      outside = c.outside;
    }

one_fault-eq-ok : (o : Outcome Fault Entry) {e : Entry} → one_fault o ≡ ok e → o ≡ ok e
one_fault-eq-ok (ok a) h = cc
one_fault-eq-ok (err f) h = absurd (cc)

one_fault-eq-err : (o : Outcome Fault Entry) → one_fault o ≢ err []
one_fault-eq-err (ok a) h = cc
one_fault-eq-err (err f) h = cc

pub read_line-IsSound :
    (n : ℕ) (toks : List Text) {e : Entry} → read_line n toks ≡ ok e → (e.line ≡ n) × IsSound toks e
unfolding read_line
read_line-IsSound n [] h = absurd (cc)
read_line-IsSound n (test ∷ rest) {e} h = elim (Option-cases (split_test_id test)) [
  | inl no_id ↦ absurd (ground arith)
  | inr ((pkg, name), id) ↦
      let read : check_fields n test pkg name (read_tokens [] rest).0 ≡ ok e =
        ground (arith, one_fault-eq-ok (check_fields n test pkg name (read_tokens [] rest).0)) in
      let c = check_fields-IsChecked n test pkg name (read_tokens [] rest).0 read in
      (c.numbered, IsChecked-IsSound n test pkg name rest id c)
]

-- A line that is refused is refused with a fault.
pub read_line-eq-err : (n : ℕ) (test : Text) (rest : List Text) → read_line n (test ∷ rest) ≢ err []
unfolding read_line
read_line-eq-err n test rest h = elim (Option-cases (split_test_id test)) [
  | inl no_id ↦ ground arith
  | inr ((pkg, name), id) ↦
      ground (arith, one_fault-eq-err (check_fields n test pkg name (read_tokens [] rest).0))
]
