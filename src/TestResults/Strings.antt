-- ===== src/TestResults/Strings.antt =====
-- What hack/lib/testresults.go uses of package strings. A text of the runner is a list of code
-- points: for valid UTF-8, prefixes, parts and searches are the same over these as over bytes.
use apis.Prelude.{
  ℕ, ◌+◌, Bool, true, false, ◌&&◌, ◌||◌, List, [], ◌∷◌, map, Option, none, some, if◌then◌else◌, leb,
  ◌==◌, any, all, Bytes as Text, bytes_eq, has_prefix, length, drop,
}

-- unicode.IsSpace
abbrev pub is_space : ℕ → Bool
is_space b =
    b == 32
    || leb 9 b && leb b 13
    || b == 0x85
    || b == 0xa0
    || b == 0x1680
    || leb 0x2000 b && leb b 0x200a
    || b == 0x2028
    || b == 0x2029
    || b == 0x202f
    || b == 0x205f
    || b == 0x3000

-- The class \s of package regexp.
abbrev pub is_re_space : ℕ → Bool
is_re_space b = b == 32 || b == 9 || b == 10 || b == 12 || b == 13

abbrev pub is_digit : ℕ → Bool
is_digit b = leb 48 b && leb b 57

abbrev pub is_letter : ℕ → Bool
is_letter b = leb 97 b && leb b 122 || leb 65 b && leb b 90

-- The class [A-Za-z0-9_].
abbrev pub is_word_byte : ℕ → Bool
is_word_byte b = is_letter b || is_digit b || b == 95

-- The longest prefix of bytes that pass, and the rest.
abbrev pub take_while : (ℕ → Bool) → Text → Text
take_while p [] = []
take_while p (b ∷ s) = elim (p b) [ true ↦ b ∷ take_while p s | false ↦ [] ]

abbrev pub drop_while : (ℕ → Bool) → Text → Text
drop_while p [] = []
drop_while p (b ∷ s) = elim (p b) [ true ↦ drop_while p s | false ↦ b ∷ s ]

-- Without the trailing bytes that pass.
abbrev pub trim_end : (ℕ → Bool) → Text → Text
trim_end p [] = []
trim_end p (b ∷ s) = if p b && all p s then [] else b ∷ trim_end p s

-- strings.TrimSpace
unfoldable pub trim_space : Text → Text
trim_space s = trim_end is_space (drop_while is_space s)

-- strings.Contains
unfoldable pub contains_text : Text → Text → Bool
contains_text [] t = has_prefix [] t
contains_text (b ∷ s) t = has_prefix (b ∷ s) t || contains_text s t

-- A byte before the first of the parts.
abbrev pub onto_head : ℕ → List Text → List Text
onto_head b [] = (b ∷ []) ∷ []
onto_head b (part ∷ parts) = (b ∷ part) ∷ parts

-- strings.Split at one byte.
unfoldable pub split_at : ℕ → Text → List Text
split_at sep [] = [] ∷ []
split_at sep (b ∷ s) =
    let parts = split_at sep s in if b == sep then [] ∷ parts else onto_head b parts

-- strings.Cut at a separator: what is before it and after it.
unfoldable pub cut_at : Text → Text → Option (Text × Text)
cut_at sep [] = none
cut_at sep (b ∷ s) =
    let rest = cut_at sep s in
    if has_prefix (b ∷ s) sep
    then some ([], drop (length sep) (b ∷ s))
    else elim rest [ none ↦ none | some (before, after) ↦ some (b ∷ before, after) ]

-- The ASCII that unicode.ToLower makes: of a capital, of the Kelvin sign and of a dotted capital I. A
-- rune that becomes another is left as it is.
abbrev lower_rune : ℕ → ℕ
lower_rune b =
    if leb 65 b && leb b 90
    then b + 32
    else if b == 0x212a
    then 107
    else if b == 0x130
    then 105
    else b

-- strings.ToLower, where only ASCII is looked for.
unfoldable pub lower_ascii : Text → Text
lower_ascii s = map lower_rune s

-- contains
unfoldable pub contains : List Text → Text → Bool
contains list s = any (λ x. bytes_eq x s) list
