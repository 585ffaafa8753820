-- ===== src/Budget/Annotation/Keys/Distinct.antt =====
-- checkDuplicateKeys of budget/v1alpha1/annotationpayload.go on the tokens of a JSON value.
use apis.Prelude.{
  ◌≡◌, refl, ap, ◌∙◌, Bool, true, false, not, ◌&&◌, List, [], ◌∷◌, String, if◌then◌else◌,
  Bool-cases, inl, inr,
}
use apis.Prelude.Outcomes.{Outcome, ok, err, ◌>>=◌}
use apis.Budget.Vocab.{one_of}
use apis.Budget.Annotation.Tree.{
  Json, null, number, string, array, object, Elements, no_elements, element, Members, no_members,
  member,
}
use apis.Budget.Annotation.Keys.{
  KeyFault, repeated_key, Token, open_object, close_object, open_array, close_array, scalar, text,
  Frame, Stack, value_done, expects_key, key_token, value_token, or_later, check_tokens,
  check_duplicate_keys,
}

-- No object of the value, at any depth, names a key twice.
unfoldable mutual
  pub has_distinct_keys : Json → Bool
  has_distinct_keys null = true
  has_distinct_keys number = true
  has_distinct_keys (string s) = true
  has_distinct_keys (array es) = are_distinct es
  has_distinct_keys (object ms) = are_new [] ms

  pub are_distinct : Elements → Bool
  are_distinct no_elements = true
  are_distinct (element j es) = has_distinct_keys j && are_distinct es

  pub are_new : List String → Members → Bool
  are_new seen no_members = true
  are_new seen (member k j ms) =
      not (one_of k seen) && (has_distinct_keys j && are_new (k ∷ seen) ms)

-- The tokens of a value, before those that follow it.
unfoldable mutual
  pub value_tokens : Json → List (Outcome KeyFault Token) → List (Outcome KeyFault Token)
  value_tokens null rest = ok scalar ∷ rest
  value_tokens number rest = ok scalar ∷ rest
  value_tokens (string s) rest = ok (text s) ∷ rest
  value_tokens (array es) rest = ok open_array ∷ element_tokens es (ok close_array ∷ rest)
  value_tokens (object ms) rest = ok open_object ∷ member_tokens ms (ok close_object ∷ rest)

  pub element_tokens : Elements → List (Outcome KeyFault Token) → List (Outcome KeyFault Token)
  element_tokens no_elements rest = rest
  element_tokens (element j es) rest = value_tokens j (element_tokens es rest)

  pub member_tokens : Members → List (Outcome KeyFault Token) → List (Outcome KeyFault Token)
  member_tokens no_members rest = rest
  member_tokens (member k j ms) rest = ok (text k) ∷ value_tokens j (member_tokens ms rest)

abbrev pub is_object : Json → Bool
is_object null = false
is_object number = false
is_object (string s) = false
is_object (array es) = false
is_object (object ms) = true

-- The loop after a value: after an object it does not test the stack.
abbrev go_on : Bool → Stack → List (Outcome KeyFault Token) → Outcome KeyFault (Unit {0})
go_on true stack rest = check_tokens (value_done stack) rest
go_on false stack rest = or_later (value_done stack) (check_tokens (value_done stack) rest)

go_on-nested :
    (b : Bool) (f : Frame) (stack : Stack) (rest : List (Outcome KeyFault Token))
    → go_on b (f ∷ stack) rest ≡ check_tokens (value_done (f ∷ stack)) rest
go_on-nested true f stack rest = refl
go_on-nested false f stack rest = refl

abbrev pub if_distinct : Bool → Outcome KeyFault (Unit {0}) → Outcome KeyFault (Unit {0})
if_distinct false later = err repeated_key
if_distinct true later = later

if_distinct-if_distinct :
    (a b : Bool) (later : Outcome KeyFault (Unit {0}))
    → if_distinct a (if_distinct b later) ≡ if_distinct (a && b) later
if_distinct-if_distinct false b later = refl
if_distinct-if_distinct true b later = refl

abbrev array_frame : Frame
array_frame = record { obj = false; expect_key = false; keys = [] }

abbrev object_frame : Bool → List String → Frame
object_frame expects keys = record { obj = true; expect_key = expects; keys = keys }

check_tokens-value_token :
    (stack : Stack) (t : Token) (ts : List (Outcome KeyFault Token))
    → expects_key stack ≡ false
    → check_tokens stack (ok t ∷ ts)
      ≡ or_later (value_token stack t) (check_tokens (value_token stack t) ts)
unfolding check_tokens
check_tokens-value_token stack t ts h =
    ap
      (λ b. elim b [
        | true ↦ key_token stack t >>= λ s. check_tokens s ts
        | false ↦ or_later (value_token stack t) (check_tokens (value_token stack t) ts)
      ])
      h

check_tokens-take_key :
    (seen : List String) (k : String) (stack : Stack) (ts : List (Outcome KeyFault Token))
    → check_tokens (object_frame true seen ∷ stack) (ok (text k) ∷ ts)
      ≡ if_distinct (not (one_of k seen)) (check_tokens (object_frame false (k ∷ seen) ∷ stack) ts)
unfolding check_tokens
check_tokens-take_key seen k stack ts = elim (Bool-cases (one_of k seen)) [
  | inl again ↦ rw again refl
  | inr new ↦ rw new refl
]

check_tokens-close_object :
    (seen : List String) (stack : Stack) (rest : List (Outcome KeyFault Token))
    → check_tokens (object_frame true seen ∷ stack) (ok close_object ∷ rest)
      ≡ check_tokens (value_done stack) rest
unfolding check_tokens
check_tokens-close_object seen stack rest = refl

mutual
  unfolding has_distinct_keys value_tokens

  walk_value :
      (j : Json) (stack : Stack) (rest : List (Outcome KeyFault Token))
      → expects_key stack ≡ false
      → check_tokens stack (value_tokens j rest)
        ≡ if_distinct (has_distinct_keys j) (go_on (is_object j) stack rest)
  walk_value null stack rest h = check_tokens-value_token stack scalar rest h
  walk_value number stack rest h = check_tokens-value_token stack scalar rest h
  walk_value (string s) stack rest h = check_tokens-value_token stack (text s) rest h
  walk_value (array es) stack rest h =
      check_tokens-value_token stack open_array _ h ∙ walk_elements es stack rest
  walk_value (object ms) stack rest h =
      check_tokens-value_token stack open_object _ h ∙ walk_members ms [] stack rest

  walk_elements :
      (es : Elements) (stack : Stack) (rest : List (Outcome KeyFault Token))
      → check_tokens (array_frame ∷ stack) (element_tokens es (ok close_array ∷ rest))
        ≡ if_distinct (are_distinct es) (go_on false stack rest)
  walk_elements no_elements stack rest =
      check_tokens-value_token (array_frame ∷ stack) close_array rest refl
  walk_elements (element j es) stack rest =
      walk_value j (array_frame ∷ stack) (element_tokens es (ok close_array ∷ rest)) refl
      ∙ ap (if_distinct (has_distinct_keys j)) (
          go_on-nested (is_object j) array_frame stack (element_tokens es (ok close_array ∷ rest))
          ∙ walk_elements es stack rest)
      ∙ if_distinct-if_distinct (has_distinct_keys j) (are_distinct es) (go_on false stack rest)

  walk_members :
      (ms : Members) (seen : List String) (stack : Stack) (rest : List (Outcome KeyFault Token))
      → check_tokens (object_frame true seen ∷ stack) (member_tokens ms (ok close_object ∷ rest))
        ≡ if_distinct (are_new seen ms) (check_tokens (value_done stack) rest)
  walk_members no_members seen stack rest = check_tokens-close_object seen stack rest
  walk_members (member k j ms) seen stack rest =
      check_tokens-take_key seen k stack
        (value_tokens j (member_tokens ms (ok close_object ∷ rest)))
      ∙ ap (if_distinct (not (one_of k seen))) (
          walk_value j (object_frame false (k ∷ seen) ∷ stack)
            (member_tokens ms (ok close_object ∷ rest)) refl
          ∙ ap (if_distinct (has_distinct_keys j)) (
              go_on-nested (is_object j) (object_frame false (k ∷ seen)) stack
                (member_tokens ms (ok close_object ∷ rest))
              ∙ walk_members ms (k ∷ seen) stack rest)
          ∙ if_distinct-if_distinct (has_distinct_keys j) (are_new (k ∷ seen) ms)
              (check_tokens (value_done stack) rest))
      ∙ if_distinct-if_distinct (not (one_of k seen)) (has_distinct_keys j && are_new (k ∷ seen) ms)
          (check_tokens (value_done stack) rest)

-- On the tokens of a JSON value and those that follow it, checkDuplicateKeys reports a repeated key if
-- an object of the value, at any depth, names a key twice. Otherwise it succeeds, except that after an
-- object it goes on with the tokens that follow as if it began there.
pub check_duplicate_keys-value_tokens :
    (j : Json) (rest : List (Outcome KeyFault Token))
    → check_duplicate_keys (value_tokens j rest) ≡ (
        if not (has_distinct_keys j)
        then err repeated_key
        else if is_object j
        then check_duplicate_keys rest
        else ok tt)
unfolding check_duplicate_keys
check_duplicate_keys-value_tokens j rest =
    walk_value j [] rest refl ∙ answer (has_distinct_keys j) (is_object j)
  where
    answer :
        (b o : Bool)
        → if_distinct b (go_on o [] rest)
          ≡ (if not b then err repeated_key else if o then check_tokens [] rest else ok tt)
    answer false o = refl
    answer true false = refl
    answer true true = refl
