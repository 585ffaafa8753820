-- ===== src/TestResults/Collector.antt =====
-- The collector of hack/lib/testresults.go: a stream of `go test -json` lines becomes one result per
-- test. Decoding a line is encoding/json's, a parameter.
mod Results
pub mod Replay
pub mod Failures
use apis.Prelude.{
  ℕ, suc, Bool, true, false, not, ◌&&◌, ◌||◌, List, [], ◌∷◌, ◌++◌, map, Option, none, some,
  if◌then◌else◌, Bytes as Text, codes, bytes_eq, has_prefix, is_some, all, Among,
}
use apis.TestResults.Strings.{trim_space, contains_text, contains}
use apis.TestResults.Lines.{race_marker, has_race}
unfoldable pub use Results.*

-- event
pub record Event : Type 0 where
  pub action : Text
  pub package_path : Text
  pub import_path : Text
  pub test : Text
  pub output : Text

pub data StreamFault : Type 0 where
  not_json : ℕ → StreamFault
  without_package_or_action : ℕ → StreamFault

-- collector. `tests` holds the map `tests` in the order `order`; `pkg_fail` is `pkgOrder`, whose
-- members are the keys of `pkgFail`; `pkg_text` holds the map `pkgText` in the order `pkgSeen`;
-- `written` is what went to `w`.
pub record Collector : Type 0 where
  pub tests : List Result
  pub errs : List StreamFault
  pub pkg_fail : List Text
  pub pkg_has_fail : List Text
  pub pkg_text : List (Text × Text)
  pub build_fail : List Text
  pub text : List Text
  pub written : List Text

-- newCollector
abbrev pub new_collector : Collector
new_collector = record {
  tests = [];
  errs = [];
  pkg_fail = [];
  pkg_has_fail = [];
  pkg_text = [];
  build_fail = [];
  text = [];
  written = [];
}

-- The output of the run in progress.
abbrev pub run_of : Option Result → Text
run_of none = []
run_of (some t) = t.run

abbrev pub test_id : Event → Text
test_id ev = ev.package_path ++ codes "::" ++ ev.test

-- An event of a test.
unfoldable pub test_event : Event → Collector → Collector
test_event ev c =
    let id = test_id ev in
    let is_output = bytes_eq ev.action (codes "output") in
    let is_fail = bytes_eq ev.action (codes "fail") in
    record c {
      tests = with_test id (act ev.action ev.output) c.tests;
      text = if is_output then c.text ++ ev.output ∷ [] else c.text;
      pkg_has_fail = if is_fail then ev.package_path ∷ c.pkg_has_fail else c.pkg_has_fail;
      written = if is_fail then c.written ++ run_of (find_test id c.tests) ∷ [] else c.written;
    }

-- pkgText[p] += s, with p new at the end where it is not yet a key.
unfoldable pub add_text : Text → Text → List (Text × Text) → List (Text × Text)
add_text p s [] = (p, s) ∷ []
add_text p s ((q, t) ∷ rest) =
    if bytes_eq q p then (q, t ++ s) ∷ rest else (q, t) ∷ add_text p s rest

abbrev pub add_once : Text → List Text → List Text
add_once p list = if contains list p then list else list ++ p ∷ []

-- An event of a package and of no test.
unfoldable pub package_event : Event → Collector → Collector
package_event ev c =
    if bytes_eq ev.action (codes "output")
    then record c {
      pkg_text = add_text ev.package_path ev.output c.pkg_text;
      text = c.text ++ ev.output ∷ [];
      written =
          if bytes_eq ev.output (codes "PASS" ++ 10 ∷ [])
          then c.written
          else c.written ++ ev.output ∷ [];
    }
    else if bytes_eq ev.action (codes "fail")
    then record c { pkg_fail = add_once ev.package_path c.pkg_fail }
    else c

unfoldable pub build_event : Event → Collector → Collector
build_event ev c = record c {
  text = c.text ++ ev.output ∷ [];
  written = c.written ++ ev.output ∷ [];
  build_fail =
      if bytes_eq ev.action (codes "build-fail")
      then c.build_fail ++ ev.import_path ∷ []
      else c.build_fail;
}

abbrev pub is_blank : Text → Bool
is_blank s = bytes_eq s []

-- The branches of `line` for an event.
pub data EventKind : Type 0 where
  of_build incomplete of_package of_test : EventKind

unfoldable pub kind_of : Event → EventKind
kind_of ev =
    if is_blank ev.package_path
      && not (is_blank ev.import_path)
      && has_prefix ev.action (codes "build-")
    then of_build
    else if is_blank ev.package_path || is_blank ev.action
    then incomplete
    else if is_blank ev.test
    then of_package
    else of_test

-- What `line` does with an event, by its kind.
unfoldable pub take_event : ℕ → EventKind → Event → Collector → Collector
take_event n of_build ev c = build_event ev c
take_event n incomplete ev c = record c { errs = c.errs ++ without_package_or_action n ∷ [] }
take_event n of_package ev c = package_event ev c
take_event n of_test ev c = test_event ev c

module _ (decode : Text → Option Event) where
  -- collector.line
  unfoldable pub collect_line : ℕ → Text → Collector → Collector
  collect_line n raw c = if is_blank (trim_space raw) then c else elim (decode raw) [
    | none ↦ record c { errs = c.errs ++ not_json n ∷ [] }
    | some ev ↦ take_event n (kind_of ev) ev c
  ]

  -- The loop of `run` over the stream, from a line's number on.
  unfoldable pub collect_lines : ℕ → List Text → Collector → Collector
  collect_lines n [] c = c
  collect_lines n (raw ∷ rest) c = collect_lines (suc n) rest (collect_line n raw c)

-- A test's result: none if its last run never reported.
unfoldable pub settled : Result → Result
settled r = if r.is_open then record r { status = no_result } else r

abbrev pub failed_as : Text → Text → Text → Result
failed_as p kind output = record {
  test = p ++ codes "::" ++ kind;
  status = failed;
  output = output;
  failed_runs = [];
  run = [];
  is_open = false;
}

abbrev pub keep {ℓ} : {A : Type ℓ} → (A → Bool) → List A → List A
keep p [] = []
keep p (x ∷ xs) = if p x then x ∷ keep p xs else keep p xs

-- The packages whose output outside any test holds a race or sanitizer report.
unfoldable pub raced_packages : List (Text × Text) → List (Text × Text)
raced_packages texts = keep (λ pt. has_race pt.1) texts

abbrev race_result : Text × Text → Result
race_result (p, text) = failed_as p (codes "(package)") (
    codes "package output carries a race or sanitizer report outside any test: "
    ++ race_marker text)

-- collector.results
unfoldable pub results : Collector → List Result
results c =
    let raced = raced_packages c.pkg_text in
    map settled c.tests
    ++ (map race_result raced
        ++ (map (λ p. failed_as p (codes "(package)") (codes "package failed outside any test"))
              (keep
                (λ p. not (contains c.pkg_has_fail p) && not (contains (map (λ pt. pt.0) raced) p))
                c.pkg_fail)
            ++ map (λ p. failed_as p (codes "(build)") (codes "build failed")) c.build_fail))
