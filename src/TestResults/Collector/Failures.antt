-- ===== src/TestResults/Collector/Failures.antt =====
-- A failed test stays failed in the collector of hack/lib/testresults.go, whatever its later runs say.
use apis.Prelude.{
  ◌≡◌, ◌≢◌, refl, sym, ap, ◌∙◌, ◌⊎◌, inl, inr, Bool, true, List, [], ◌∷◌, ◌++◌, map, Option, some,
  if◌then◌else◌, Bytes as Text, codes, bytes_eq, bytes_eq_refl, bytes_eq_iff, Bool-cases, arith,
  Among, Among-append_left, Among-map, subst,
}
use apis.TestResults.Collector.{
  Status, no_result, passed, skipped, failed, Result, Event, ended, unless_failed, act, find_test,
  test_id, collect_lines, keep, new_collector, settled, results,
}
use apis.TestResults.Collector.Replay.{
  replay, or_new, test_events, is_own_event, collect_lines-replay,
}

-- The result of a test that has failed: it keeps the output of each run that failed.
abbrev pub IsFailed : Result → Type 0
IsFailed r = (r.status ≡ failed) × (r.failed_runs ≢ [])

snoc-ne-nil {ℓ} : {A : Type ℓ} (xs : List A) (x : A) → xs ++ x ∷ [] ≢ []
snoc-ne-nil [] x h = cc
snoc-ne-nil (y ∷ xs) x h = cc

unless_failed-failed : (s new : Status) → s ≡ failed → unless_failed s new ≡ failed
unless_failed-failed s new h = rw h refl

-- No event takes a failure back.
act-IsFailed : (action output : Text) (t : Result) → IsFailed t → IsFailed (act action output t)
unfolding act ended
act-IsFailed action output t h = ground (
  arith,
  h.0,
  h.1,
  snoc-ne-nil t.failed_runs t.run,
  unless_failed-failed t.status passed,
  unless_failed-failed t.status skipped,
)

act_fail-IsFailed : (output : Text) (t : Result) → IsFailed (act (codes "fail") output t)
unfolding act ended bytes_eq
act_fail-IsFailed output t = (refl, snoc-ne-nil t.failed_runs t.run)

abbrev FailedOption : Option Result → Type 0
FailedOption o = (r : Result) × (o ≡ some r) × IsFailed r

-- What was failed before the replay is failed after it.
replay-IsFailed :
    (id : Text) (evs : List Event) (r : Result) → IsFailed r → FailedOption (replay id (some r) evs)
unfolding replay
replay-IsFailed id [] r h = (r, refl, h)
replay-IsFailed id (ev ∷ evs) r h =
    replay-IsFailed id evs (act ev.action ev.output r) (act-IsFailed ev.action ev.output r h)

-- A replay that meets a failure is failed.
replay_fail :
    (id : Text) (o : Option Result) (evs : List Event) (ev : Event)
    → ev.action ≡ codes "fail"
    → Among ev (keep (is_own_event id) evs)
    → FailedOption (replay id o (keep (is_own_event id) evs))
unfolding replay
replay_fail id o [] ev fails m = absurd m
replay_fail id o (e ∷ evs) ev fails m = elim (Bool-cases (is_own_event id e)) [
  | inr other ↦ rw other (
      replay_fail id o evs ev fails (
        subst
          (λ b. Among ev (if b then e ∷ keep (is_own_event id) evs else keep (is_own_event id) evs))
          other m))
  | inl own ↦
      rw own
        (elim (subst
          (λ b. Among ev (if b then e ∷ keep (is_own_event id) evs else keep (is_own_event id) evs))
          own m) [
            | inl here ↦
                replay-IsFailed id (keep (is_own_event id) evs)
                  (act e.action e.output (or_new id o))
                  (subst (λ a. IsFailed (act a e.output (or_new id o)))
                    (sym fails ∙ ap (λ x. x.action) here)
                    (act_fail-IsFailed e.output (or_new id o)))
            | inr later ↦
                replay_fail id (some (act e.action e.output (or_new id o))) evs ev fails later
          ])
]

Among-keep :
    (p : Event → Bool) (ev : Event) (evs : List Event)
    → p ev ≡ true
    → Among ev evs
    → Among ev (keep p evs)
Among-keep p ev [] h m = m
Among-keep p ev (e ∷ evs) h (inl here) = rw (sym (ap p here) ∙ h) (inl here)
Among-keep p ev (e ∷ evs) h (inr later) = ground (arith, Among-keep p ev evs h later)

find_test-Among :
    (id : Text) (ts : List Result) {r : Result}
    → find_test id ts ≡ some r
    → Among r ts × (r.test ≡ id)
unfolding find_test
find_test-Among id [] h = absurd (cc)
find_test-Among id (t ∷ ts) {r} h = elim (Bool-cases (bytes_eq t.test id)) [
  | inl here ↦
      let same : t ≡ r = ground arith in
      (inl (sym same), ap (λ x. x.test) (sym same) ∙ (bytes_eq_iff t.test id).0 here)
  | inr later ↦ let rest = find_test-Among id ts (ground arith) in (inr rest.0, rest.1)
]

-- If any event of a stream fails a test, the collector holds a failed result for the test with the
-- output of a failed run, whatever runs, passes and skips of the test come before and after.
pub fail_event-IsFailed :
    (decode : Text → Option Event) (lines : List Text) (ev : Event)
    → Among ev (test_events decode lines)
    → ev.action ≡ codes "fail"
    → (r : Result) × (find_test (test_id ev) (collect_lines decode 1 lines new_collector).tests
        ≡ some r)
      × IsFailed r
fail_event-IsFailed decode lines ev m fails =
    let id = test_id ev in
    let own = Among-keep (is_own_event id) ev (test_events decode lines) (bytes_eq_refl id) m in
    let (r, found, failed_r) =
      replay_fail id (find_test id new_collector.tests) (test_events decode lines) ev fails own in
    (r, collect_lines-replay id decode 1 lines new_collector ∙ found, failed_r)

settled-status :
    (r : Result)
    → r.status ≡ failed
    → ((settled r).test ≡ r.test)
      × (((settled r).status ≡ failed) ⊎ ((settled r).status ≡ no_result))
unfolding settled
settled-status r h = elim (Bool-cases r.is_open) [
  | inl unfinished ↦ rw unfinished (refl, inr refl)
  | inr finished ↦ rw finished (refl, inl h)
]

-- The same in what `results` returns: failed, or with no result if its last run never reported.
pub fail_event-results :
    (decode : Text → Option Event) (lines : List Text) (ev : Event)
    → Among ev (test_events decode lines)
    → ev.action ≡ codes "fail"
    → (r : Result) × Among r (results (collect_lines decode 1 lines new_collector))
      × (r.test ≡ test_id ev)
      × ((r.status ≡ failed) ⊎ (r.status ≡ no_result))
unfolding results
fail_event-results decode lines ev m fails =
    let c = collect_lines decode 1 lines new_collector in
    let (r, found, failed_r) = fail_event-IsFailed decode lines ev m fails in
    let place = find_test-Among (test_id ev) c.tests found in
    let status = settled-status r failed_r.0 in
    (
      settled r,
      Among-append_left (settled r) (map settled c.tests) _ (Among-map settled r c.tests place.0),
      status.0 ∙ place.1,
      status.1,
    )
