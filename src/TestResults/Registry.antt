-- ===== src/TestResults/Registry.antt =====
-- parseRegistry of hack/lib/testresults.go: the quarantine registry's lines, read into entries and
-- faults.
mod Tokens
pub mod Origin
pub mod Sound
pub mod Valid
use apis.Prelude.{
  ℕ, suc, ◌+◌, Bool, true, false, not, ◌&&◌, ◌||◌, List, [], ◌∷◌, ◌++◌, map, Option, none, some,
  if◌then◌else◌, ltb, leb, ◌==◌, any, all, Bytes as Text, codes, bytes_eq, length, is_some, drop,
}
use apis.Prelude.Outcomes.{Outcome, ok, err, ◌>>=◌, ◌>>◌}
use apis.TestResults.Strings.{is_space, trim_space, split_at, take_while, drop_while, contains}
use apis.TestResults.Ids.{split_test_id, protected_reason, parse_date}
use apis.TestResults.Lines.{newline, has_race, harness_reason}
use apis.TestResults.Lexer.{LexFault, strip_comment, shell_split}
unfoldable pub use Tokens.*

-- entry
pub record Entry : Type 0 where
  pub line : ℕ
  pub test : Text
  pub pkg : Text
  pub sig : Text
  pub owner : Text
  pub fix : Text
  pub deadline : Text
  pub deadline_date : ℕ

abbrev pub max_entries : ℕ
max_entries = 10

abbrev pub min_sig_chars : ℕ
min_sig_chars = 12

abbrev pub refuse : Bool → Fault → Outcome Fault (Unit {0})
refuse false e = ok tt
refuse true e = err e

abbrev pub some_or : Option ℕ → Fault → Outcome Fault ℕ
some_or none e = err e
some_or (some d) e = ok d

-- The checks of a line whose tokens are good, from its dates to its trust surface.
unfoldable pub check_fields : ℕ → Text → Text → Text → Fields → Outcome Fault Entry
unfolding field
check_fields lineno test pkg name fields = do
  filed ←
      some_or (parse_date (value_of fields (codes "filed")))
        (filed_not_a_date (value_of fields (codes "filed")))
  deadline ←
      some_or (parse_date (value_of fields (codes "deadline")))
        (deadline_not_a_date (value_of fields (codes "deadline")))
  refuse (ltb deadline filed) deadline_before_filed
  refuse (ltb (length (value_of fields (codes "sig"))) min_sig_chars) sig_too_short
  refuse (has_race (value_of fields (codes "sig"))) sig_is_a_race
  refuse (harness_reason test name (value_of fields (codes "sig"))) sig_is_the_harness
  refuse (protected_reason pkg name) trust_surface
  ok (record {
    line = lineno;
    test = test;
    pkg = pkg;
    sig = value_of fields (codes "sig");
    owner = value_of fields (codes "owner");
    fix = value_of fields (codes "fix");
    deadline = value_of fields (codes "deadline");
    deadline_date = deadline;
  })

abbrev pub one_fault : Outcome Fault Entry → Outcome (List Fault) Entry
one_fault (ok e) = ok e
one_fault (err f) = err (f ∷ [])

-- What a line's tokens make, before its test is compared with the tests already listed. There is a
-- first token (Lexer.Words).
unfoldable pub read_line : ℕ → List Text → Outcome (List Fault) Entry
read_line lineno [] = err []
read_line lineno (test ∷ rest) = elim (split_test_id test) [
  | none ↦ err (not_a_test_id test ∷ [])
  | some (pkg, name) ↦
      let (fields, faults) = read_tokens [] rest in
      elim (faults ++ missing_fault (missing_keys fields)) [
        | [] ↦ one_fault (check_fields lineno test pkg name fields)
        | e ∷ es ↦ err (e ∷ es)
      ]
]

-- An error of parseRegistry: of one line, or of the registry.
pub data RegistryError : Type 0 where
  on_line : ℕ → Fault → RegistryError
  too_many_entries : ℕ → RegistryError

-- The variables of the loop over the lines.
pub record Registry : Type 0 where
  pub entries : List Entry
  pub errs : List RegistryError
  pub seen : List (Text × ℕ)
  pub listed : ℕ

unfoldable pub line_of_test : List (Text × ℕ) → Text → Option ℕ
line_of_test [] test = none
line_of_test ((t, n) ∷ seen) test = if bytes_eq t test then some n else line_of_test seen test

-- A line's faults, each with the line's number.
abbrev pub at_line : ℕ → List Fault → List RegistryError
at_line n faults = map (on_line n) faults

unfoldable pub fail_line : ℕ → List Fault → Registry → Registry
fail_line n faults r = record r { errs = r.errs ++ at_line n faults; listed = r.listed + 1 }

unfoldable pub add_entry : Entry → Registry → Registry
add_entry e r = elim (line_of_test r.seen e.test) [
  | some prev ↦ fail_line e.line (already_listed prev ∷ []) r
  | none ↦ record r {
    entries = r.entries ++ e ∷ [];
    seen = (e.test, e.line) ∷ r.seen;
    listed = r.listed + 1;
  }
]

-- A line that was read enters the registry by its entry or by its faults.
abbrev pub enter : ℕ → Outcome (List Fault) Entry → Registry → Registry
enter n (ok e) r = add_entry e r
enter n (err faults) r = fail_line n faults r

-- One line that holds more than space and comment.
unfoldable pub read_listed : ℕ → Text → Registry → Registry
read_listed n line r = elim (shell_split line) [
  | err e ↦ fail_line n (unparseable e ∷ []) r
  | ok toks ↦ enter n (read_line n toks) r
]

-- The loop over the lines, from a line's number on.
unfoldable pub read_lines : ℕ → List Text → Registry → Registry
read_lines n [] r = r
read_lines n (raw ∷ rest) r =
    let line = trim_space (strip_comment raw) in
    read_lines (suc n) rest (if bytes_eq line [] then r else read_listed n line r)

-- strings.ReplaceAll of "\r\n" by "\n".
unfoldable pub unix_lines : Text → Text
unix_lines [] = []
unix_lines (b ∷ []) = b ∷ []
unix_lines (b ∷ c ∷ s) = elim (b == 13 && c == 10) [
  | true ↦ 10 ∷ unix_lines s
  | false ↦ b ∷ unix_lines (c ∷ s)
]

abbrev pub empty_registry : Registry
empty_registry = record { entries = []; errs = []; seen = []; listed = 0 }

-- The limit on the entries, which is tested after the loop.
unfoldable pub limit_entries : Registry → Registry
limit_entries r =
    if ltb max_entries r.listed
    then record r { errs = r.errs ++ too_many_entries r.listed ∷ [] }
    else r

-- parseRegistry
unfoldable pub parse_registry : Text → Registry
parse_registry text =
    limit_entries (read_lines 1 (split_at newline (unix_lines text)) empty_registry)
