-- ===== src/TestResults/Lexer.antt =====
-- stripComment and shellSplit of hack/lib/testresults.go.
pub mod Words
use apis.Prelude.{
  ℕ, Bool, true, false, not, ◌&&◌, ◌||◌, List, [], ◌∷◌, ◌++◌, if◌then◌else◌, ◌==◌, Bytes as Text,
}
use apis.Prelude.Outcomes.{Outcome, ok, err, ◌>>=◌}

-- What sets prevSpace: the six ASCII blanks, fewer than unicode.IsSpace.
abbrev pub is_ascii_blank : ℕ → Bool
is_ascii_blank b = b == 32 || b == 9 || b == 13 || b == 10 || b == 11 || b == 12

-- stripComment from its state on: the open quote, 0 for none, and whether a space came before.
unfoldable pub strip_from : ℕ → Bool → Text → Text
strip_from quote prev_space [] = []
strip_from quote prev_space (b ∷ line) =
    elim (quote == 0 && not (b == 34 || b == 39) && (b == 35 && prev_space)) [
      | true ↦ []
      | false ↦
          let next =
            if not (quote == 0)
            then (if b == quote then 0 else quote)
            else if b == 34 || b == 39
            then b
            else 0 in
          b ∷ strip_from next (is_ascii_blank b) line
    ]

-- stripComment
unfoldable pub strip_comment : Text → Text
strip_comment line = strip_from 0 true line

pub data LexFault : Type 0 where
  no_escaped_character no_closing_quotation : LexFault

-- The cases of the loop.
pub data Class : Type 0 where
  blank backslash single_quote double_quote plain : Class

unfoldable pub class_of : ℕ → Class
class_of b =
    if b == 32 || b == 9 || b == 13 || b == 10
    then blank
    else if b == 92
    then backslash
    else if b == 39
    then single_quote
    else if b == 34
    then double_quote
    else plain

pub data Quote : Type 0 where
  unquoted in_single in_double : Quote

-- A word before the words that follow.
abbrev pub and_then : Text → Outcome LexFault (List Text) → Outcome LexFault (List Text)
and_then word (ok words) = ok (word ∷ words)
and_then word (err e) = err e

-- shellSplit from its state on: the quote it is in, the word so far, and whether there is a word.
unfoldable pub lex : Quote → Text → Bool → Text → Outcome LexFault (List Text)
lex unquoted cur in_word [] = ok (if in_word then cur ∷ [] else [])
lex in_single cur in_word [] = err no_closing_quotation
lex in_double cur in_word [] = err no_closing_quotation
lex unquoted cur in_word (b ∷ []) = elim (class_of b) [
  | blank ↦ ok (if in_word then cur ∷ [] else [])
  | backslash ↦ err no_escaped_character
  | single_quote ↦ err no_closing_quotation
  | double_quote ↦ err no_closing_quotation
  | plain ↦ ok ((cur ++ b ∷ []) ∷ [])
]
lex unquoted cur in_word (b ∷ c ∷ s) = elim (class_of b) [
  | blank ↦ elim in_word [
    | true ↦ and_then cur (lex unquoted [] false (c ∷ s))
    | false ↦ lex unquoted cur false (c ∷ s)
  ]
  | backslash ↦ lex unquoted (cur ++ c ∷ []) true s
  | single_quote ↦ lex in_single cur true (c ∷ s)
  | double_quote ↦ lex in_double cur true (c ∷ s)
  | plain ↦ lex unquoted (cur ++ b ∷ []) true (c ∷ s)
]
lex in_single cur in_word (b ∷ s) = elim (b == 39) [
  | true ↦ lex unquoted cur true s
  | false ↦ lex in_single (cur ++ b ∷ []) true s
]
lex in_double cur in_word (b ∷ []) = elim (b == 34) [
  | true ↦ ok (cur ∷ [])
  | false ↦ err no_closing_quotation
]
lex in_double cur in_word (b ∷ c ∷ s) = elim (b == 34) [
  | true ↦ lex unquoted cur true (c ∷ s)
  | false ↦ elim (b == 92 && (c == 34 || c == 92)) [
    | true ↦ lex in_double (cur ++ c ∷ []) true s
    | false ↦ lex in_double (cur ++ b ∷ []) true (c ∷ s)
  ]
]

-- shellSplit
unfoldable pub shell_split : Text → Outcome LexFault (List Text)
shell_split s = lex unquoted [] false s
