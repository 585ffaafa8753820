-- ===== src/TestResults/Evaluate/Excuse.antt =====
-- What the verdicts of evaluate (hack/lib/testresults.go) have tested of a result.
use apis.Prelude.{
  ◌≡◌, refl, sym, ap, ◌∙◌, ◌⊎◌, inl, inr, true, false, List, [], ◌∷◌, Option, none, some,
  Bytes as Text, bytes_eq, bytes_eq_iff, has_prefix, Bool-cases, Among, arith, subst,
}
use apis.TestResults.Strings.{contains}
use apis.TestResults.Lines.{has_race}
use apis.TestResults.Registry.{Entry}
use apis.TestResults.Collector.{
  Status, no_result, passed, skipped, failed, Result, carried_by_every_run,
}
use apis.TestResults.Evaluate.{
  Tier, fast, full, Verdict, silent, listed_ok, without_result, unlisted, raced, in_full_tier,
  package_edited, unmatched, excuse, find_entry, judge, judge_failure, judge_passed, judge_status,
  judge_listed, is_red, is_failure, is_unlisted, is_excuse, is_full, below,
}

-- The ground on which a failure may be excused: a failed result q of this very test or of a subtest
-- below it, with an entry of the registry that lists q, whose signature every failed run of q carries,
-- in the fast tier, outside the edited packages and with no race report.
pub record Excused (entries : List Entry) (tier : Tier) (edited : List Text) (results : List Result)
    (test : Text) : Type 0 where
  pub result : Result
  pub entry : Entry
  pub reported : Among result results
  pub has_failed : result.status ≡ failed
  pub at_or_below : (result.test ≡ test) ⊎ (has_prefix result.test (below test) ≡ true)
  pub listed : Among entry entries
  pub lists : entry.test ≡ result.test
  pub no_race : has_race result.output ≡ false
  pub in_fast_tier : tier ≡ fast
  pub not_edited : contains edited entry.pkg ≡ false
  pub matches : carried_by_every_run result.failed_runs entry.sig ≡ true

find_entry-Among :
    (test : Text) (es : List Entry) {e : Entry}
    → find_entry test es ≡ some e
    → Among e es × (e.test ≡ test)
unfolding find_entry
find_entry-Among test [] h = absurd (cc)
find_entry-Among test (x ∷ es) {e} h = elim (Bool-cases (bytes_eq x.test test)) [
  | inl here ↦
      let same : x ≡ e = ground arith in
      (inl (sym same), ap (λ y. y.test) (sym same) ∙ (bytes_eq_iff x.test test).0 here)
  | inr later ↦ let rest = find_entry-Among test es (ground arith) in (inr rest.0, rest.1)
]

is_fast : (tier : Tier) → is_full tier ≡ false → tier ≡ fast
is_fast fast h = refl
is_fast full h = absurd (cc)

module _ (entries : List Entry) (tier : Tier) (edited : List Text) where
  judge_listed-failure :
      (e : Entry) (r : Result) → is_failure (judge_listed entries tier edited e r) ≡ true
  unfolding judge_listed
  judge_listed-failure e r = ground arith

  judge_failure-failure :
      (o : Option Entry) (r : Result) → is_failure (judge_failure entries tier edited o r) ≡ true
  judge_failure-failure none r = refl
  judge_failure-failure (some e) r = judge_listed-failure e r

  pub judge-failed :
      (r : Result) → r.status ≡ failed → is_failure (judge entries tier edited r) ≡ true
  unfolding judge
  judge-failed r h =
      subst (λ st. is_failure (judge_status entries tier edited st r) ≡ true) (sym h)
        (judge_failure-failure (find_entry r.test entries) r)

  pub judge-no_result :
      (r : Result) → r.status ≡ no_result → is_red (judge entries tier edited r) ≡ true
  unfolding judge
  judge-no_result r h =
      subst (λ st. is_red (judge_status entries tier edited st r) ≡ true) (sym h) refl

  -- A failure that is not red is unlisted or excused.
  pub judge-not_red :
      (r : Result)
      → is_red (judge entries tier edited r) ≡ false
      → is_failure (judge entries tier edited r) ≡ true
      → (is_unlisted (judge entries tier edited r) ≡ true)
        ⊎ (is_excuse (judge entries tier edited r) ≡ true)
  judge-not_red r h k = cases (judge entries tier edited r) h k
    where
      cases :
          (v : Verdict)
          → is_red v ≡ false
          → is_failure v ≡ true
          → (is_unlisted v ≡ true) ⊎ (is_excuse v ≡ true)
      cases silent h k = absurd (cc)
      cases listed_ok h k = absurd (cc)
      cases without_result h k = absurd (cc)
      cases unlisted h k = inl refl
      cases raced h k = absurd (cc)
      cases in_full_tier h k = absurd (cc)
      cases package_edited h k = absurd (cc)
      cases unmatched h k = absurd (cc)
      cases excuse h k = inr refl

  judge_passed-excuse : (o : Option Entry) → is_excuse (judge_passed entries tier edited o) ≡ false
  judge_passed-excuse none = refl
  judge_passed-excuse (some e) = refl

  judge_failure-excuse :
      (o : Option Entry) (r : Result)
      → is_excuse (judge_failure entries tier edited o r) ≡ true
      → (e : Entry) × (o ≡ some e) × (is_excuse (judge_listed entries tier edited e r) ≡ true)
  judge_failure-excuse none r h = absurd (cc)
  judge_failure-excuse (some e) r h = (e, refl, h)

  judge_status-excuse :
      (st : Status) (r : Result)
      → is_excuse (judge_status entries tier edited st r) ≡ true
      → (st ≡ failed)
        × (is_excuse (judge_failure entries tier edited (find_entry r.test entries) r) ≡ true)
  judge_status-excuse no_result r h = absurd (cc)
  judge_status-excuse passed r h = absurd (cc (judge_passed-excuse (find_entry r.test entries)))
  judge_status-excuse skipped r h = absurd (cc (judge_passed-excuse (find_entry r.test entries)))
  judge_status-excuse failed r h = (refl, h)

  judge_listed-excuse :
      (e : Entry) (r : Result)
      → is_excuse (judge_listed entries tier edited e r) ≡ true
      → (has_race r.output ≡ false)
        × (is_full tier ≡ false)
        × (contains edited e.pkg ≡ false)
        × (carried_by_every_run r.failed_runs e.sig ≡ true)
  unfolding judge_listed
  judge_listed-excuse e r h = ground arith

  -- An excused result has an entry, and is excused at itself and above.
  pub judge-excuse :
      (r : Result) (results : List Result) (test : Text)
      → Among r results
      → is_excuse (judge entries tier edited r) ≡ true
      → (r.test ≡ test) ⊎ (has_prefix r.test (below test) ≡ true)
      → Excused entries tier edited results test
  unfolding judge
  judge-excuse r results test place h above =
      let (st, by_entry) = judge_status-excuse r.status r h in
      let (e, found, checks) = judge_failure-excuse (find_entry r.test entries) r by_entry in
      let listed = find_entry-Among r.test entries found in
      let passed_checks = judge_listed-excuse e r checks in
      record {
        result = r;
        entry = e;
        reported = place;
        has_failed = st;
        at_or_below = above;
        listed = listed.0;
        lists = listed.1;
        no_race = passed_checks.0;
        in_fast_tier = is_fast tier passed_checks.1;
        not_edited = passed_checks.2;
        matches = passed_checks.3;
      }
