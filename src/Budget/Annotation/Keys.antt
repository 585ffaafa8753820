-- ===== src/Budget/Annotation/Keys.antt =====
-- checkDuplicateKeys and checkExactKeys of budget/v1alpha1/annotationpayload.go. The tokens that
-- encoding/json reads are an argument, and so are the fields of a type that package reflect names.
pub mod Distinct
pub mod Exact
use apis.Prelude.{
  Bool, true, false, ◌&&◌, Option, none, some, List, [], ◌∷◌, String, str_eq, if◌then◌else◌,
}
use apis.Prelude.Outcomes.{Outcome, ok, err, ◌>>=◌, ◌>>◌}
use apis.Budget.Vocab.{one_of}
use apis.Budget.Annotation.Tree.{
  Json, array, object, Elements, no_elements, element, Members, no_members, member, Shape, slice,
  struct, StructFields, no_fields, field,
}

-- The errors: of the tokenizer, of a repeated key, and of a key that no field has.
pub data KeyFault : Type 0 where
  malformed repeated_key unknown_field : KeyFault

-- json.Token; `scalar` is a number, a bool or null.
pub data Token : Type 0 where
  open_object close_object open_array close_array scalar : Token
  text : String → Token

pub record Frame : Type 0 where
  pub obj : Bool
  pub expect_key : Bool
  pub keys : List String

-- The innermost frame is first.
abbrev pub Stack : Type 0
Stack = List Frame

-- valueDone
abbrev pub value_done : Stack → Stack
value_done [] = []
value_done (f ∷ fs) =
    (if f.obj then record { obj = true; expect_key = true; keys = f.keys } else f) ∷ fs

abbrev pub pop : Stack → Stack
pop [] = []
pop (f ∷ fs) = fs

abbrev pub expects_key : Stack → Bool
expects_key [] = false
expects_key (f ∷ fs) = f.obj && f.expect_key

-- `k, _ := tok.(string)`
abbrev pub key_of : Token → String
key_of open_object = ""
key_of close_object = ""
key_of open_array = ""
key_of close_array = ""
key_of scalar = ""
key_of (text k) = k

abbrev pub take_key : String → Stack → Outcome KeyFault Stack
take_key k [] = ok []
take_key k (f ∷ fs) =
    if one_of k f.keys
    then err repeated_key
    else ok (record { obj = f.obj; expect_key = false; keys = k ∷ f.keys } ∷ fs)

abbrev pub is_close_object : Token → Bool
is_close_object open_object = false
is_close_object close_object = true
is_close_object open_array = false
is_close_object close_array = false
is_close_object scalar = false
is_close_object (text k) = false

-- A token in the key position.
abbrev pub key_token : Stack → Token → Outcome KeyFault Stack
key_token stack t =
    if is_close_object t then ok (value_done (pop stack)) else take_key (key_of t) stack

-- A token elsewhere.
abbrev pub value_token : Stack → Token → Stack
value_token stack open_object = record { obj = true; expect_key = true; keys = [] } ∷ stack
value_token stack open_array = record { obj = false; expect_key = false; keys = [] } ∷ stack
value_token stack close_array = value_done (pop stack)
value_token stack close_object = value_done (pop stack)
value_token stack scalar = value_done stack
value_token stack (text s) = value_done stack

-- `if len(stack) == 0 { return nil }`
abbrev pub or_later : Stack → Outcome KeyFault (Unit {0}) → Outcome KeyFault (Unit {0})
or_later [] later = ok tt
or_later (f ∷ fs) later = later

-- The loop over the tokens: an error of the tokenizer ends it, and so does its end. A token in the key
-- position continues past the test of the stack, so that the loop reads on after an outermost '}'.
unfoldable pub check_tokens : Stack → List (Outcome KeyFault Token) → Outcome KeyFault (Unit {0})
check_tokens stack [] = ok tt
check_tokens stack (err e ∷ ts) = err e
check_tokens stack (ok t ∷ ts) = elim (expects_key stack) [
  | true ↦ key_token stack t >>= λ s. check_tokens s ts
  | false ↦ or_later (value_token stack t) (check_tokens (value_token stack t) ts)
]

-- checkDuplicateKeys
unfoldable pub check_duplicate_keys : List (Outcome KeyFault Token) → Outcome KeyFault (Unit {0})
check_duplicate_keys ts = check_tokens [] ts

unfoldable pub find_field : String → StructFields → Option Shape
find_field k no_fields = none
find_field k (field name t fs) =
    let later = find_field k fs in if str_eq name k then some t else later

-- checkExactKeys. Go walks a map in any order; each of its errors is an unknown field.
unfoldable mutual
  pub check_exact_keys : Json → Shape → Outcome KeyFault (Unit {0})
  check_exact_keys (object ms) (struct fs) = check_members ms fs
  check_exact_keys (array es) (slice t) = check_elements es t
  check_exact_keys _ _ = ok tt

  pub check_elements : Elements → Shape → Outcome KeyFault (Unit {0})
  check_elements no_elements t = ok tt
  check_elements (element j es) t = check_exact_keys j t >> check_elements es t

  pub check_members : Members → StructFields → Outcome KeyFault (Unit {0})
  check_members no_members fs = ok tt
  check_members (member k j ms) fs =
      elim (find_field k fs) [ none ↦ err unknown_field | some t ↦ check_exact_keys j t ]
      >> check_members ms fs
