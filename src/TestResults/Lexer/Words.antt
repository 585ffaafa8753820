-- ===== src/TestResults/Lexer/Words.antt =====
-- What shellSplit (hack/lib/testresults.go) makes of a line: the first word that parseRegistry takes.
use apis.Prelude.{
  ℕ, true, false, ◌≡◌, ◌≢◌, refl, List, [], ◌∷◌, ◌++◌, Bytes as Text, arith, ◌⊎◌, inl, inr,
}
use apis.Prelude.Outcomes.{Outcome, ok, err}
use apis.TestResults.Strings.{is_space}
use apis.TestResults.Lexer.{
  LexFault, Class, Quote, class_of, and_then, lex, shell_split, blank, backslash, single_quote,
  double_quote, plain, unquoted, in_single, in_double,
}

Class-cases :
    (k : Class)
    → (k ≡ blank) ⊎ (k ≡ backslash) ⊎ (k ≡ single_quote) ⊎ (k ≡ double_quote) ⊎ (k ≡ plain)
Class-cases blank = inl refl
Class-cases backslash = inr (inl refl)
Class-cases single_quote = inr (inr (inl refl))
Class-cases double_quote = inr (inr (inr (inl refl)))
Class-cases plain = inr (inr (inr (inr refl)))

-- A list of words is not empty, if there is one.
abbrev pub HasWord : Outcome LexFault (List Text) → Type 0
HasWord (err e) = Unit
HasWord (ok []) = ⊥
HasWord (ok (w ∷ ws)) = Unit

and_then-HasWord : (w : Text) (o : Outcome LexFault (List Text)) → HasWord (and_then w o)
and_then-HasWord w (ok ws) = tt
and_then-HasWord w (err e) = tt

-- A word once begun is in the result, and so is a quoted one.
lex-HasWord : (q : Quote) (cur s : Text) → HasWord (lex q cur true s)
unfolding lex
lex-HasWord unquoted cur [] = tt
lex-HasWord in_single cur [] = tt
lex-HasWord in_double cur [] = tt
lex-HasWord unquoted cur (b ∷ []) = elim (Class-cases (class_of b)) [
  | inl k ↦ rw (k, lex) tt
  | inr (inl k) ↦ rw (k, lex) tt
  | inr (inr (inl k)) ↦ rw (k, lex) tt
  | inr (inr (inr (inl k))) ↦ rw (k, lex) tt
  | inr (inr (inr (inr k))) ↦ rw (k, lex) tt
]
lex-HasWord unquoted cur (b ∷ c ∷ s) = elim (Class-cases (class_of b)) [
  | inl k ↦ rw (k, lex) (and_then-HasWord _ _)
  | inr (inl k) ↦ rw (k, lex) (lex-HasWord unquoted (cur ++ c ∷ []) s)
  | inr (inr (inl k)) ↦ rw (k, lex) (lex-HasWord in_single cur (c ∷ s))
  | inr (inr (inr (inl k))) ↦ rw (k, lex) (lex-HasWord in_double cur (c ∷ s))
  | inr (inr (inr (inr k))) ↦ rw (k, lex) (lex-HasWord unquoted (cur ++ b ∷ []) (c ∷ s))
]
lex-HasWord in_single cur (b ∷ s) =
    ground (arith, lex-HasWord unquoted cur s, lex-HasWord in_single (cur ++ b ∷ []) s)
lex-HasWord in_double cur (b ∷ []) = ground arith
lex-HasWord in_double cur (b ∷ c ∷ s) = ground (
  arith,
  lex-HasWord unquoted cur (c ∷ s),
  lex-HasWord in_double (cur ++ c ∷ []) s,
  lex-HasWord in_double (cur ++ b ∷ []) (c ∷ s),
)

not-blank : (b : ℕ) → is_space b ≡ false → class_of b ≢ blank
unfolding class_of
not-blank b h = ground arith

-- A line that starts with no space either fails to split or has a first word, which parseRegistry
-- takes as `toks[0]`.
pub shell_split-HasWord : (b : ℕ) (s : Text) → is_space b ≡ false → HasWord (shell_split (b ∷ s))
unfolding shell_split lex
shell_split-HasWord b [] h = ground (arith, not-blank b h)
shell_split-HasWord b (c ∷ s) h = ground (
  arith,
  not-blank b h,
  lex-HasWord unquoted (c ∷ []) s,
  lex-HasWord in_single [] (c ∷ s),
  lex-HasWord in_double [] (c ∷ s),
  lex-HasWord unquoted (b ∷ []) (c ∷ s),
)
