-- ===== src/TestResults/Lines.antt =====
-- The lines of a test's output in hack/lib/testresults.go: race markers, the harness's framing, and
-- what a signature must not match.
use apis.Prelude.{
  ℕ, Bool, true, false, not, ◌&&◌, ◌||◌, List, [], ◌∷◌, ◌++◌, map, Option, none, some,
  if◌then◌else◌, ◌==◌, any, all, flat_map, Bytes as Text, codes, bytes_eq, has_prefix, length, drop,
}
use apis.TestResults.Strings.{
  is_re_space, is_digit, take_while, drop_while, trim_space, contains_text, split_at, contains,
}

abbrev pub newline : ℕ
newline = 10

abbrev pub race_markers : List Text
race_markers =
    codes "WARNING: DATA RACE"
    ∷ codes "race detected during execution of test"
    ∷ codes "ThreadSanitizer"
    ∷ codes "AddressSanitizer"
    ∷ codes "UndefinedBehaviorSanitizer"
    ∷ codes "LeakSanitizer"
    ∷ codes "MemorySanitizer"
    ∷ []

abbrev first_held : Text → List Text → Text
first_held text [] = []
first_held text (m ∷ ms) = if contains_text text m then m else first_held text ms

-- raceMarker
unfoldable pub race_marker : Text → Text
race_marker text = first_held text race_markers

-- `raceMarker(text) != ""`
unfoldable pub has_race : Text → Bool
has_race text = not (bytes_eq (race_marker text) [])

-- spaceRE: a run of \s becomes one space.
unfoldable pub one_space : Bool → Text → Text
one_space after [] = []
one_space after (b ∷ s) = elim (is_re_space b) [
  | true ↦ if after then one_space true s else 32 ∷ one_space true s
  | false ↦ b ∷ one_space false s
]

-- The closure `norm`.
abbrev pub norm : Text → Text
norm s = trim_space (one_space false s)

-- durationRE after its digits: `s\)?\s*$`.
abbrev seconds_end : Text → Bool
seconds_end [] = false
seconds_end (b ∷ s) =
    b == 115
    && (all is_re_space s || elim s [ [] ↦ false | c ∷ rest ↦ c == 41 && all is_re_space rest ])

-- durationRE after its parenthesis: digits, a fraction if there is one, and the end.
abbrev duration_end : Text → Bool
duration_end s =
    let rest = drop_while is_digit s in
    any is_digit (take_while is_digit s) && elim rest [
      | [] ↦ false
      | b ∷ fraction ↦
          if b == 46
          then any is_digit (take_while is_digit fraction)
            && seconds_end (drop_while is_digit fraction)
          else seconds_end (b ∷ fraction)
    ]

-- durationRE, replaced by "(".
unfoldable pub drop_duration : Text → Text
drop_duration [] = []
drop_duration (b ∷ s) =
    let rest = drop_duration s in if b == 40 && duration_end s then 40 ∷ [] else b ∷ rest

-- harnessReason, as whether there is a reason.
unfoldable pub harness_reason : Text → Text → Text → Bool
harness_reason test name sig =
    let s = norm (drop_duration sig) in
    not (bytes_eq s [])
    && (contains_text test s
        || contains_text test (norm sig)
        || contains_text (codes "=== RUN " ++ name) s
        || contains_text (codes "--- FAIL: " ++ name ++ codes " (") s)

abbrev framing_marks : List Text
framing_marks =
    codes "=== RUN"
    ∷ codes "=== PAUSE"
    ∷ codes "=== CONT"
    ∷ codes "=== NAME"
    ∷ codes "--- PASS:"
    ∷ codes "--- FAIL:"
    ∷ codes "--- SKIP:"
    ∷ []

-- The test name that follows a mark: `\s+(\S+)`.
abbrev named_after : Text → Text → Option Text
named_after line mark =
    if has_prefix line mark
    then (let rest = drop (length mark) line in
        let name = take_while (λ b. not (is_re_space b)) (drop_while is_re_space rest) in
        if any is_re_space (take_while is_re_space rest) && not (bytes_eq name [])
        then some name
        else none)
    else none

abbrev first_of : List (Option Text) → Option Text
first_of [] = none
first_of (some name ∷ rest) = some name
first_of (none ∷ rest) = first_of rest

-- framingRE: the test name of a line that the harness wrote.
unfoldable pub framing : Text → Option Text
framing l = let line = drop_while is_re_space l in first_of (map (named_after line) framing_marks)

-- Whether a line of a parent's output is its own: not blank, not a subtest's, not framing for it.
unfoldable pub is_own : Text → List Text → Text → Bool
is_own name kid_lines l =
    not (bytes_eq (trim_space l) [] || contains kid_lines l)
    && not (elim (framing l) [
      | none ↦ false
      | some m ↦ bytes_eq m name || has_prefix m (name ++ 47 ∷ [])
    ])

-- ownFailure, as whether it finds a line.
unfoldable pub own_failure : Text → Text → List Text → Bool
own_failure name output kid_outputs =
    any (is_own name (flat_map (split_at newline) kid_outputs)) (split_at newline output)
