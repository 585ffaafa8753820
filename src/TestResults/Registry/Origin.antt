-- ===== src/TestResults/Registry/Origin.antt =====
-- Where the fields of a registry line come from (parseRegistry of hack/lib/testresults.go): the tokens
-- of the line.
use apis.Prelude.{
  ℕ, ◌≡◌, ◌≢◌, refl, sym, ap, ◌∙◌, subst, Bool, true, false, not, ◌&&◌, List, [], ◌∷◌, ◌++◌, Option,
  none, some, if◌then◌else◌, ◌==◌, Bytes as Text, bytes_eq, bytes_eq_iff, All, Among, Bool-cases,
  Option-cases, inl, inr, arith,
}
use apis.Prelude.Outcomes.{Outcome, ok, err}
use apis.TestResults.Strings.{take_while, drop_while}
use apis.TestResults.Registry.{
  Fault, Fields, is_lower, key_value, field, value_of, read_token, read_tokens,
}

take_while-drop_while : (p : ℕ → Bool) (s : Text) → take_while p s ++ drop_while p s ≡ s
take_while-drop_while p [] = refl
take_while-drop_while p (b ∷ s) =
    elim (p b)
      as (λ c.
        (elim c [ true ↦ b ∷ take_while p s | false ↦ [] ])
          ++ (elim c [ true ↦ drop_while p s | false ↦ b ∷ s ])
        ≡ b ∷ s) [ true ↦ ap (λ l. b ∷ l) (take_while-drop_while p s) | false ↦ refl ]

-- A token that keyRE matches is its key, the sign and its value.
key_value-eq : (t k v : Text) → key_value t ≡ some (k, v) → k ++ 61 ∷ v ≡ t
unfolding key_value
key_value-eq t k v h =
    cut (take_while is_lower t) (drop_while is_lower t) h ∙ take_while-drop_while is_lower t
  where
    cut_of : Text → Text → Option (Text × Text)
    cut_of key rest = elim rest [
      | [] ↦ none
      | b ∷ value ↦ if b == 61 && not (bytes_eq key []) then some (key, value) else none
    ]

    cut : (key rest : Text) → cut_of key rest ≡ some (k, v) → k ++ 61 ∷ v ≡ key ++ rest
    cut key [] g = absurd (cc)
    cut key (b ∷ value) g = ground arith

-- The field is a token of the line.
abbrev pub IsToken : List Text → Text × Text → Type 0
IsToken toks p = Among (p.0 ++ 61 ∷ p.1) toks

read_token-All :
    (toks : List Text) (fields : Fields) (t : Text) (more : Fields)
    → Among t toks
    → All (IsToken toks) fields
    → read_token fields t ≡ ok more
    → All (IsToken toks) more
unfolding read_token
read_token-All toks fields t more m h r = elim (Option-cases (key_value t)) [
  | inl none_there ↦ absurd (ground arith)
  | inr ((k, v), there) ↦
      let same : more ≡ (k, v) ∷ fields = ground arith in
      rw same (subst (λ x. Among x toks) (sym (key_value-eq t k v there)) m, h)
]

read_tokens-All :
    (toks : List Text) (fields : Fields) (rest : List Text)
    → ((t : Text) → Among t rest → Among t toks)
    → All (IsToken toks) fields
    → All (IsToken toks) (read_tokens fields rest).0
unfolding read_tokens
read_tokens-All toks fields [] inside h = h
read_tokens-All toks fields (t ∷ rest) inside h =
    turn (λ more. read_tokens-All toks more rest later) (read_tokens-All toks fields rest later h)
      (read_token fields t)
      (λ more read. read_token-All toks fields t more (inside t (inl refl)) h read)
  where
    later : (u : Text) → Among u rest → Among u toks
    later u m = inside u (inr m)

    after : Outcome Fault Fields → Fields × List Fault
    after o = elim o [
      | ok more ↦ read_tokens more rest
      | err e ↦ let (final, faults) = read_tokens fields rest in (final, e ∷ faults)
    ]

    turn :
        ((more : Fields) → All (IsToken toks) more → All (IsToken toks) (read_tokens more rest).0)
        → All (IsToken toks) (read_tokens fields rest).0
        → (o : Outcome Fault Fields) → ((more : Fields) → o ≡ ok more → All (IsToken toks) more)
        → All (IsToken toks) (after o).0
    turn read kept_rest (ok more) kept = read more (kept more refl)
    turn read kept_rest (err e) kept = kept_rest

field-IsToken :
    (toks : List Text) (fields : Fields) (k v : Text)
    → All (IsToken toks) fields
    → field fields k ≡ some v
    → IsToken toks (k, v)
unfolding field
field-IsToken toks [] k v h found = absurd (cc)
field-IsToken toks ((j, w) ∷ fields) k v h found = elim (Bool-cases (bytes_eq j k)) [
  | inr other ↦ field-IsToken toks fields k v h.1 (ground arith)
  | inl same ↦
      let key : j ≡ k = (bytes_eq_iff j k).0 same in
      let value : w ≡ v = ground arith in subst (IsToken toks) (cc) h.0
]

-- A value that is there is that of a token `key=value`.
pub value_of-IsToken :
    (rest : List Text) (k : Text)
    → value_of (read_tokens [] rest).0 k ≢ []
    → IsToken rest (k, value_of (read_tokens [] rest).0 k)
value_of-IsToken rest k there = found (field (read_tokens [] rest).0 k) refl there
  where
    found :
        (o : Option Text)
        → field (read_tokens [] rest).0 k ≡ o
        → (elim o [ none ↦ [] | some v ↦ v ]) ≢ []
        → IsToken rest (k, elim o [ none ↦ [] | some v ↦ v ])
    found none e empty = absurd (empty refl)
    found (some v) e empty =
        field-IsToken rest (read_tokens [] rest).0 k v (read_tokens-All rest [] rest (λ t m. m) tt)
          e
