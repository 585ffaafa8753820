-- ===== src/TestResults/Ids.antt =====
-- Test ids, trust surfaces and dates in hack/lib/testresults.go; the regular expressions are written
-- out as recognisers.
use apis.Prelude.{
  ℕ, ◌+◌, ◌-◌, ◌*◌, ◌%◌, Bool, true, false, not, ◌&&◌, ◌||◌, List, [], ◌∷◌, ◌++◌, Option, none,
  some, if◌then◌else◌, ◌==◌, leb, any, all, Bytes as Text, codes, bytes_eq, has_prefix,
}
use apis.TestResults.Strings.{
  is_re_space, is_digit, is_letter, is_word_byte, drop_while, contains_text, split_at, cut_at,
  lower_ascii,
}

-- The class [A-Za-z0-9._~\-].
abbrev is_path_byte : ℕ → Bool
is_path_byte b = is_letter b || is_digit b || b == 46 || b == 95 || b == 126 || b == 45

abbrev some_of : (ℕ → Bool) → Text → Bool
some_of p s = not (bytes_eq s []) && all p s

-- `\S+` to the end.
abbrev no_spaces : Text → Bool
no_spaces s = some_of (λ b. not (is_re_space b)) s

-- Group 2 and group 3 of goIDRE, to the end.
abbrev is_go_name : Text → Bool
is_go_name s =
    (has_prefix s (codes "Test") || has_prefix s (codes "Example") || has_prefix s (codes "Fuzz"))
    && elim (drop_while is_word_byte s) [ [] ↦ true | b ∷ rest ↦ b == 47 && no_spaces rest ]

-- goIDRE: the package and the name.
unfoldable pub go_id : Text → Option (Text × Text)
go_id test = elim (cut_at (codes "::") test) [
  | none ↦ none
  | some (pkg, name) ↦
      if all (some_of is_path_byte) (split_at 47 pkg) && is_go_name name
      then some (pkg, name)
      else none
]

abbrev is_ident : Text → Bool
is_ident [] = false
is_ident (b ∷ s) = (is_letter b || b == 95) && all is_word_byte s

-- swiftIDRE: the target, and the suite with the test.
unfoldable pub swift_id : Text → Option (Text × Text)
swift_id test = elim (cut_at (codes "/") test) [
  | none ↦ none
  | some (target, rest) ↦ elim (cut_at (codes "/") rest) [
    | none ↦ none
    | some (suite, name) ↦
        if is_ident target && is_ident suite && no_spaces name then some (target, rest) else none
  ]
]

-- splitTestID
unfoldable pub split_test_id : Text → Option (Text × Text)
unfolding go_id swift_id
split_test_id test = elim (go_id test) [
  | some id ↦ some id
  | none ↦ if contains_text test (codes "::") then none else swift_id test
]

-- Two segments in a row.
abbrev has_pair : Text → Text → List Text → Bool
has_pair a b [] = false
has_pair a b (x ∷ []) = false
has_pair a b (x ∷ y ∷ rest) = bytes_eq x a && bytes_eq y b || has_pair a b (y ∷ rest)

abbrev pub protected_package : Text
protected_package = codes "k3sm.io/runtimed/pkg/image"

abbrev pub protected_name_keywords : List Text
protected_name_keywords =
    codes "signaturepolicy"
    ∷ codes "sigpolicy"
    ∷ codes "cosign"
    ∷ codes "rbac"
    ∷ codes "k3sminstall"
    ∷ []

-- protectedReason, as whether there is a reason.
unfoldable pub protected_reason : Text → Text → Bool
protected_reason pkg name =
    let segs = split_at 47 pkg in
    has_pair (codes "pkg") (codes "certs") segs
    || has_pair (codes "pkg") (codes "bootstrap") segs
    || has_pair (codes "pkg") (codes "rbac") segs
    || bytes_eq pkg protected_package
    || has_prefix pkg (protected_package ++ 47 ∷ [])
    || has_prefix pkg (codes "K3smInstall")
    || any (contains_text (lower_ascii name)) protected_name_keywords

abbrev digit : ℕ → ℕ
digit b = b - 48

abbrev days_in : ℕ → ℕ → ℕ
days_in y m =
    if m == 2
    then (if y % 4 == 0 && (not (y % 100 == 0) || y % 400 == 0) then 29 else 28)
    else if m == 4 || m == 6 || m == 9 || m == 11
    then 30
    else 31

-- A date as one number: its year, month and day in order. time.Time.Before is `<` of these.
abbrev pub date_of : ℕ → ℕ → ℕ → ℕ
date_of y m d = y * 10000 + m * 100 + d

abbrev checked_date : ℕ → ℕ → ℕ → Option ℕ
checked_date y m d =
    if leb 1 m && leb m 12 && leb 1 d && leb d (days_in y m) then some (date_of y m d) else none

-- parseDate
unfoldable pub parse_date : Text → Option ℕ
parse_date (a ∷ b ∷ c ∷ d ∷ s ∷ e ∷ f ∷ t ∷ g ∷ h ∷ []) =
    if all is_digit (a ∷ b ∷ c ∷ d ∷ e ∷ f ∷ g ∷ h ∷ []) && s == 45 && t == 45
    then checked_date (digit a * 1000 + digit b * 100 + digit c * 10 + digit d)
        (digit e * 10 + digit f) (digit g * 10 + digit h)
    else none
parse_date _ = none
