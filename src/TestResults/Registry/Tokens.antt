-- ===== src/TestResults/Registry/Tokens.antt =====
-- The tokens of a registry line in parseRegistry of hack/lib/testresults.go: keys, values and faults.
use apis.Prelude.{
  ℕ, Bool, not, ◌&&◌, List, [], ◌∷◌, Option, none, some, if◌then◌else◌, leb, ◌==◌, Bytes as Text,
  codes, bytes_eq, is_some,
}
use apis.Prelude.Outcomes.{Outcome, ok, err}
use apis.TestResults.Strings.{trim_space, take_while, drop_while, contains}
use apis.TestResults.Lexer.{LexFault}

-- The errors that parseRegistry reports of one line.
pub data Fault : Type 0 where
  unparseable : LexFault → Fault
  not_a_test_id : Text → Fault
  not_key_value : Text → Fault
  unknown_key : Text → Fault
  key_repeats : Text → Fault
  key_is_empty : Text → Fault
  missing : List Text → Fault
  filed_not_a_date : Text → Fault
  deadline_not_a_date : Text → Fault
  deadline_before_filed : Fault
  sig_too_short : Fault
  sig_is_a_race : Fault
  sig_is_the_harness : Fault
  trust_surface : Fault
  already_listed : ℕ → Fault

abbrev pub required_keys : List Text
required_keys =
    codes "sig"
    ∷ codes "owner"
    ∷ codes "filed"
    ∷ codes "deadline"
    ∷ codes "fix"
    ∷ codes "reason"
    ∷ []

abbrev pub is_lower : ℕ → Bool
is_lower b = leb 97 b && leb b 122

-- keyRE: the key and the value.
unfoldable pub key_value : Text → Option (Text × Text)
key_value t =
    let key = take_while is_lower t in
    elim (drop_while is_lower t) [
      | [] ↦ none
      | b ∷ value ↦ if b == 61 && not (bytes_eq key []) then some (key, value) else none
    ]

-- The map `fields` of one line.
abbrev pub Fields : Type 0
Fields = List (Text × Text)

unfoldable pub field : Fields → Text → Option Text
field [] k = none
field ((j, v) ∷ fields) k = if bytes_eq j k then some v else field fields k

-- fields[k], which is "" where there is none.
abbrev pub value_of : Fields → Text → Text
value_of fields k = elim (field fields k) [ none ↦ [] | some v ↦ v ]

-- One turn of the loop over a line's tokens: the fault it reports, or the fields with one more.
unfoldable pub read_token : Fields → Text → Outcome Fault Fields
read_token fields t = elim (key_value t) [
  | none ↦ err (not_key_value t)
  | some (k, v) ↦
      if not (contains required_keys k)
      then err (unknown_key k)
      else if not (bytes_eq (value_of fields k) [])
      then err (key_repeats k)
      else if bytes_eq (trim_space v) []
      then err (key_is_empty k)
      else ok ((k, v) ∷ fields)
]

-- The loop over the tokens: the fields and the faults.
unfoldable pub read_tokens : Fields → List Text → Fields × List Fault
read_tokens fields [] = (fields, [])
read_tokens fields (t ∷ rest) = elim (read_token fields t) [
  | ok more ↦ read_tokens more rest
  | err e ↦ let (final, faults) = read_tokens fields rest in (final, e ∷ faults)
]

abbrev filter : (Text → Bool) → List Text → List Text
filter p [] = []
filter p (x ∷ xs) = if p x then x ∷ filter p xs else filter p xs

unfoldable pub missing_keys : Fields → List Text
unfolding field
missing_keys fields = filter (λ k. not (is_some (field fields k))) required_keys

abbrev pub missing_fault : List Text → List Fault
missing_fault [] = []
missing_fault (k ∷ ks) = missing (k ∷ ks) ∷ []
