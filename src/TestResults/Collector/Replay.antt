-- ===== src/TestResults/Collector/Replay.antt =====
-- The collector of hack/lib/testresults.go refines a replay of each test's own events.
use apis.Prelude.{
  ℕ, suc, ◌≡◌, refl, sym, ap, ◌∙◌, inl, inr, Bool, List, [], ◌∷◌, ◌++◌, Option, none, some,
  if◌then◌else◌, Bytes as Text, bytes_eq, bytes_eq_iff, Bool-cases, Option-cases, arith,
}
use apis.TestResults.Strings.{trim_space}
use apis.TestResults.Collector.{
  Result, new_result, Event, Collector, ended, act, find_test, with_test, test_id, test_event,
  package_event, build_event, is_blank, EventKind, of_build, incomplete, of_package, of_test,
  kind_of, take_event, collect_line, collect_lines, keep,
}

-- The abstract collector: what a test's result becomes under its own events, none if it has none.
abbrev pub or_new : Text → Option Result → Result
or_new id none = new_result id
or_new id (some t) = t

unfoldable pub replay : Text → Option Result → List Event → Option Result
replay id o [] = o
replay id o (ev ∷ evs) = replay id (some (act ev.action ev.output (or_new id o))) evs

abbrev only_test : EventKind → Event → List Event
only_test of_test ev = ev ∷ []
only_test of_build ev = []
only_test incomplete ev = []
only_test of_package ev = []

module _ (decode : Text → Option Event) where
  -- The event of a line, if it is one of a test.
  unfoldable pub line_event : Text → List Event
  line_event raw =
      if is_blank (trim_space raw)
      then []
      else elim (decode raw) [ none ↦ [] | some ev ↦ only_test (kind_of ev) ev ]

  -- The events of tests in a stream, in order.
  unfoldable pub test_events : List Text → List Event
  unfolding line_event
  test_events [] = []
  test_events (raw ∷ rest) = line_event raw ++ test_events rest

abbrev pub is_own_event : Text → Event → Bool
is_own_event id ev = bytes_eq (test_id ev) id

act-test : (action output : Text) (t : Result) → (act action output t).test ≡ t.test
unfolding act ended
act-test action output t = ground arith

find_test-with_test :
    (id j : Text) (change : Result → Result) (ts : List Result)
    → ((t : Result) → (change t).test ≡ t.test)
    → find_test id (with_test j change ts)
      ≡ (if bytes_eq j id then some (change (or_new id (find_test id ts))) else find_test id ts)
unfolding find_test with_test
find_test-with_test id j change [] keeps = ground (arith, keeps (new_result j), bytes_eq_iff j id)
find_test-with_test id j change (t ∷ ts) keeps = ground (
  arith,
  keeps t,
  find_test-with_test id j change ts keeps,
  bytes_eq_iff t.test j,
  bytes_eq_iff t.test id,
  bytes_eq_iff j id,
)

replay-append :
    (id : Text) (o : Option Result) (xs ys : List Event)
    → replay id o (xs ++ ys) ≡ replay id (replay id o xs) ys
unfolding replay
replay-append id o [] ys = refl
replay-append id o (x ∷ xs) ys = replay-append id (some (act x.action x.output (or_new id o))) xs ys

keep-append {ℓ} :
    {A : Type ℓ} (p : A → Bool) (xs ys : List A) → keep p (xs ++ ys) ≡ keep p xs ++ keep p ys
keep-append p [] ys = refl
keep-append p (x ∷ xs) ys = ground (arith, keep-append p xs ys)

module _ (id : Text) where
  -- What a line does to one test: its own event acts on it, and nothing else does.
  test_event-tests :
      (ev : Event) (c : Collector)
      → find_test id (test_event ev c).tests
        ≡ replay id (find_test id c.tests) (keep (is_own_event id) (ev ∷ []))
  unfolding test_event replay
  test_event-tests ev c =
      find_test-with_test id (test_id ev) (act ev.action ev.output) c.tests
        (act-test ev.action ev.output)
      ∙ ground arith

  take_event-tests :
      (n : ℕ) (k : EventKind) (ev : Event) (c : Collector)
      → find_test id (take_event n k ev c).tests
        ≡ replay id (find_test id c.tests) (keep (is_own_event id) (only_test k ev))
  unfolding take_event package_event build_event replay
  take_event-tests n of_test ev c = test_event-tests ev c
  take_event-tests n of_build ev c = refl
  take_event-tests n incomplete ev c = refl
  take_event-tests n of_package ev c = ground arith

  module _ (decode : Text → Option Event) where
    collect_line-tests :
        (n : ℕ) (raw : Text) (c : Collector)
        → find_test id (collect_line decode n raw c).tests
          ≡ replay id (find_test id c.tests) (keep (is_own_event id) (line_event decode raw))
    unfolding collect_line line_event replay
    collect_line-tests n raw c = elim (Bool-cases (is_blank (trim_space raw))) [
      | inl blank ↦ rw blank refl
      | inr full ↦ rw full (elim (Option-cases (decode raw)) [
        | inl bad ↦ rw (bad, collect_line, line_event) refl
        | inr (ev, good) ↦
            rw (good, collect_line, line_event) (take_event-tests n (kind_of ev) ev c)
      ])
    ]

    -- The collector refines the replay: after any stream, from any state, a test's result is what
    -- its own events, in their order, make of the result that it had; other lines do not count.
    pub collect_lines-replay :
        (n : ℕ) (lines : List Text) (c : Collector)
        → find_test id (collect_lines decode n lines c).tests
          ≡ replay id (find_test id c.tests) (keep (is_own_event id) (test_events decode lines))
    unfolding collect_lines test_events replay
    collect_lines-replay n [] c = refl
    collect_lines-replay n (raw ∷ rest) c =
        let own = keep (is_own_event id) (test_events decode rest) in
        collect_lines-replay (suc n) rest (collect_line decode n raw c)
        ∙ (ap (λ o. replay id o own) (collect_line-tests n raw c)
            ∙ (sym (
                  replay-append id (find_test id c.tests)
                    (keep (is_own_event id) (line_event decode raw)) own)
                ∙ ap (replay id (find_test id c.tests)) (
                    sym (
                      keep-append (is_own_event id) (line_event decode raw)
                        (test_events decode rest)))))
