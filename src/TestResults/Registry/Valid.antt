-- ===== src/TestResults/Registry/Valid.antt =====
-- What the entries of a registry satisfy (parseRegistry of hack/lib/testresults.go).
use apis.Prelude.{
  ℕ, zero, suc, ◌≤◌, ◌≡◌, ◌≢◌, refl, sym, ap, ◌∙◌, subst, map, drop, get_elem?, some, Bool, true,
  false, List, [], ◌∷◌, ◌++◌, none, Bytes as Text, length, All, All-append, length-append, bytes_eq,
  bytes_eq_refl, if◌then◌else◌, Bool-cases, Option-cases, inl, inr, arith, is_some,
}
use mathlib.Core.List.{append_assoc, append-nil, map-append}
use apis.Prelude.Outcomes.{Outcome, ok, err}
use apis.TestResults.Strings.{is_space, trim_space, split_at, drop_while, trim_end}
use apis.TestResults.Lines.{newline}
use apis.TestResults.Lexer.{shell_split, strip_comment}
use apis.TestResults.Lexer.Words.{HasWord, shell_split-HasWord}
use apis.TestResults.Registry.{
  enter, Entry, Fault, Registry, read_line, add_entry, fail_line, line_of_test, at_line,
  read_listed, read_lines, limit_entries, parse_registry, unix_lines, empty_registry, max_entries,
  unparseable, too_many_entries, already_listed,
}
use apis.TestResults.Registry.Sound.{IsSound, read_line-IsSound, read_line-eq-err}

-- No two entries have one test.
abbrev pub Distinct : List Entry → Type 0
Distinct [] = Unit
Distinct (e ∷ es) = All (λ o. o.test ≢ e.test) es × Distinct es

Distinct-snoc :
    (es : List Entry) (e : Entry)
    → Distinct es
    → All (λ o. o.test ≢ e.test) es
    → Distinct (es ++ e ∷ [])
Distinct-snoc [] e h fresh = (tt, tt)
Distinct-snoc (o ∷ es) e h fresh =
    (All-append _ es (e ∷ []) h.0 (λ same. fresh.0 (sym same), tt), Distinct-snoc es e h.1 fresh.1)

-- An entry of the lines: the one that its number names splits into tokens that make it.
pub record IsOfLine (lines : List Text) (e : Entry) : Type 0 where
  pub place : ℕ
  pub raw : Text
  pub toks : List Text
  pub numbered : e.line ≡ suc place
  pub there : get_elem? lines place ≡ some raw
  pub split : shell_split (trim_space (strip_comment raw)) ≡ ok toks
  pub sound : IsSound toks e

-- The numbers, from n on, of the lines that hold more than space and comment.
abbrev pub content_lines : ℕ → List Text → List ℕ
content_lines n [] = []
content_lines n (raw ∷ rest) =
    if bytes_eq (trim_space (strip_comment raw)) []
    then content_lines (suc n) rest
    else n ∷ content_lines (suc n) rest

-- The invariant of the loop over the lines: `seen` has the tests of the entries, and without an error
-- the entries are those of the lines read.
record Holds (lines : List Text) (read : List ℕ) (r : Registry) : Type 0 where
  sound : All (IsOfLine lines) r.entries
  distinct : Distinct r.entries
  known : All (λ e. is_some (line_of_test r.seen e.test) ≡ true) r.entries
  bounded : length r.entries ≤ r.listed
  complete : r.errs ≡ [] → map (λ e. e.line) r.entries ≡ read

fresh_of :
    (seen : List (Text × ℕ)) (e : Entry) (es : List Entry)
    → line_of_test seen e.test ≡ none
    → All (λ o. is_some (line_of_test seen o.test) ≡ true) es
    → All (λ o. o.test ≢ e.test) es
fresh_of seen e [] h k = tt
fresh_of seen e (o ∷ es) h k = (
  λ same. cc (ap (λ t. is_some (line_of_test seen t)) same, ap is_some h, k.0),
  fresh_of seen e es h k.1,
)

known-cons :
    (seen : List (Text × ℕ)) (t : Text) (n : ℕ) (es : List Entry)
    → All (λ o. is_some (line_of_test seen o.test) ≡ true) es
    → All (λ o. is_some (line_of_test ((t, n) ∷ seen) o.test) ≡ true) es
unfolding line_of_test
known-cons seen t n [] k = tt
known-cons seen t n (o ∷ es) k = (ground arith, known-cons seen t n es k.1)

known-head :
    (seen : List (Text × ℕ)) (t : Text) (n : ℕ) → is_some (line_of_test ((t, n) ∷ seen) t) ≡ true
unfolding line_of_test
known-head seen t n = rw (bytes_eq_refl t)

length-at_line : (n : ℕ) (fs : List Fault) → length (at_line n fs) ≡ length fs
length-at_line n [] = refl
length-at_line n (f ∷ fs) = ap suc (length-at_line n fs)

module _ (lines : List Text) where
  fail_line-Holds :
      (n : ℕ) (f : Fault) (fs : List Fault) {read : List ℕ} {r : Registry}
      → Holds lines read r
      → Holds lines (read ++ n ∷ []) (fail_line n (f ∷ fs) r)
  unfolding fail_line
  fail_line-Holds n f fs {read} {r} h = record {
    sound = h.sound;
    distinct = h.distinct;
    known = h.known;
    bounded = omega (arith, h.bounded);
    complete = λ none_there.
        absurd (omega (arith, ap length none_there, length-append r.errs (at_line n (f ∷ fs))));
  }

  add_entry-Holds :
      (e : Entry) {read : List ℕ} {r : Registry}
      → IsOfLine lines e
      → Holds lines read r
      → Holds lines (read ++ e.line ∷ []) (add_entry e r)
  unfolding add_entry
  add_entry-Holds e {read} {r} s h = elim (Option-cases (line_of_test r.seen e.test)) [
    | inr (prev, old) ↦ rw (old, add_entry) (fail_line-Holds e.line (already_listed prev) [] h)
    | inl new ↦
        rw (new, add_entry)
          (record {
            sound = All-append (IsOfLine lines) r.entries (e ∷ []) h.sound (s, tt);
            distinct =
                Distinct-snoc r.entries e h.distinct (fresh_of r.seen e r.entries new h.known);
            known =
                All-append _ r.entries (e ∷ []) (known-cons r.seen e.test e.line r.entries h.known)
                  (known-head r.seen e.test e.line, tt);
            bounded = omega (arith, h.bounded, length-append r.entries (e ∷ []));
            complete = λ valid.
                map-append (λ o. o.line) r.entries (e ∷ [])
                ∙ ap (λ ns. ns ++ e.line ∷ []) (h.complete valid);
          })
  ]

  enter-Holds :
      (n : ℕ) (o : Outcome (List Fault) Entry) {read : List ℕ} {r : Registry}
      → ((e : Entry) → o ≡ ok e → (e.line ≡ n) × IsOfLine lines e)
      → o ≢ err []
      → Holds lines read r
      → Holds lines (read ++ n ∷ []) (enter n o r)
  enter-Holds n (ok e) {read} {r} sound some_fault h =
      let (same, of_line) = sound e refl in
      subst (λ m. Holds lines (read ++ m ∷ []) (add_entry e r)) same (add_entry-Holds e of_line h)
  enter-Holds n (err []) sound some_fault h = absurd (some_fault refl)
  enter-Holds n (err (f ∷ fs)) sound some_fault h = fail_line-Holds n f fs h

  -- The line that parseRegistry splits starts with no space, so it has a first word.
  read_listed-Holds :
      (k b : ℕ) (s raw : Text) {read : List ℕ} {r : Registry}
      → is_space b ≡ false
      → get_elem? lines k ≡ some raw
      → trim_space (strip_comment raw) ≡ b ∷ s
      → Holds lines read r
      → Holds lines (read ++ suc k ∷ []) (read_listed (suc k) (b ∷ s) r)
  unfolding read_listed
  read_listed-Holds k b s raw {read} {r} solid at same h =
      (elim (shell_split (b ∷ s))
          as (λ o.
            HasWord o
            → shell_split (b ∷ s) ≡ o
            → Holds lines (read ++ suc k ∷ []) (elim o [
              | err e ↦ fail_line (suc k) (unparseable e ∷ []) r
              | ok toks ↦ enter (suc k) (read_line (suc k) toks) r
            ])) [
              | err e ↦ λ _. λ _. fail_line-Holds (suc k) (unparseable e) [] h
              | ok toks ↦ λ word. λ split. first toks word split
            ])
        (shell_split-HasWord b s solid) refl
    where
      first :
          (toks : List Text)
          → HasWord (ok toks)
          → shell_split (b ∷ s) ≡ ok toks
          → Holds lines (read ++ suc k ∷ []) (enter (suc k) (read_line (suc k) toks) r)
      first [] word split = absurd word
      first (test ∷ rest) word split =
          enter-Holds (suc k) (read_line (suc k) (test ∷ rest))
            (λ e made.
              let (numbered, sound) = read_line-IsSound (suc k) (test ∷ rest) made in
              (
                numbered,
                record {
                  place = k;
                  raw = raw;
                  toks = test ∷ rest;
                  numbered = numbered;
                  there = at;
                  split = ap shell_split same ∙ split;
                  sound = sound;
                },
              ))
            (read_line-eq-err (suc k) test rest) h

trim_solid :
    (p : ℕ → Bool) (s : Text) (b : ℕ) (t : Text) → trim_end p (drop_while p s) ≡ b ∷ t → p b ≡ false
trim_solid p [] b t h = absurd (cc)
trim_solid p (c ∷ s) b t h = elim (Bool-cases (p c)) [
  | inl blank ↦ trim_solid p s b t (ground arith)
  | inr solid ↦ let same : c ≡ b = ground arith in rw (← same) solid
]

drop-cons :
    {A : Type 0} (k : ℕ) (xs : List A) {x : A} {rest : List A}
    → drop k xs ≡ x ∷ rest
    → (get_elem? xs k ≡ some x) × (drop (suc k) xs ≡ rest)
drop-cons zero [] h = absurd (cc)
drop-cons zero (y ∷ xs) h = (cc, cc)
drop-cons (suc k) [] h = absurd (cc)
drop-cons (suc k) (y ∷ xs) h = drop-cons k xs h

module _ (lines : List Text) where
  read_raw-Holds :
      (k : ℕ) (line raw : Text) {read : List ℕ} {r : Registry}
      → ((b : ℕ) (t : Text) → line ≡ b ∷ t → is_space b ≡ false)
      → get_elem? lines k ≡ some raw
      → trim_space (strip_comment raw) ≡ line
      → Holds lines read r
      → Holds lines
          (read ++ (if bytes_eq line [] then [] else suc k ∷ []))
          (if bytes_eq line [] then r else read_listed (suc k) line r)
  unfolding bytes_eq
  read_raw-Holds k [] raw {read} {r} solid at same h =
      subst (λ done. Holds lines done r) (sym (append-nil read)) h
  read_raw-Holds k (b ∷ t) raw solid at same h =
      read_listed-Holds lines k b t raw (solid b t refl) at same h

  content-step :
      (n : ℕ) (raw : Text) (rest : List Text)
      → (if bytes_eq (trim_space (strip_comment raw)) [] then [] else n ∷ [])
          ++ content_lines (suc n) rest
        ≡ content_lines n (raw ∷ rest)
  content-step n raw rest = ground arith

  read_lines-Holds :
      (k : ℕ) (rest : List Text) {read : List ℕ} {r : Registry}
      → drop k lines ≡ rest
      → Holds lines read r
      → Holds lines (read ++ content_lines (suc k) rest) (read_lines (suc k) rest r)
  unfolding read_lines trim_space
  read_lines-Holds k [] {read} {r} at h =
      subst (λ done. Holds lines done r) (sym (append-nil read)) h
  read_lines-Holds k (raw ∷ rest) {read} {r} at h =
      let (here, later) = drop-cons k lines at in
      let one = if bytes_eq (trim_space (strip_comment raw)) [] then [] else suc k ∷ [] in
      let done : (read ++ one) ++ content_lines (suc (suc k)) rest
          ≡ read ++ content_lines (suc k) (raw ∷ rest) =
        append_assoc read one (content_lines (suc (suc k)) rest)
        ∙ ap (λ ns. read ++ ns) (content-step (suc k) raw rest) in
      subst (λ ns. Holds lines ns (read_lines (suc k) (raw ∷ rest) r)) done
        (read_lines-Holds (suc k) rest later (
          read_raw-Holds k (trim_space (strip_comment raw)) raw
            (trim_solid is_space (strip_comment raw)) here refl h))

-- The test of the limit changes only the errors, and adds to them.
limit_entries-entries : (r : Registry) → (limit_entries r).entries ≡ r.entries
unfolding limit_entries
limit_entries-entries r = ground arith

limit_entries-errs :
    (r : Registry)
    → (limit_entries r).errs ≡ []
    → (r.errs ≡ []) × (r.listed ≤ max_entries) × ((limit_entries r).listed ≡ r.listed)
unfolding limit_entries
limit_entries-errs r h =
    let ends = length-append r.errs (too_many_entries r.listed ∷ []) in
    (ground arith, ground (arith, ap length h), ground arith)

-- The lines of a registry, as parseRegistry takes them from its text.
abbrev pub lines_of : Text → List Text
lines_of text = split_at newline (unix_lines text)

empty-Holds : (lines : List Text) → Holds lines [] empty_registry
empty-Holds lines = record {
  sound = tt;
  distinct = tt;
  known = tt;
  bounded = omega arith;
  complete = λ valid. refl;
}

all_lines-Holds :
    (text : Text)
    → Holds
        (lines_of text)
        (content_lines 1 (lines_of text))
        (read_lines 1 (lines_of text) empty_registry)
all_lines-Holds text =
    read_lines-Holds (lines_of text) 0 (lines_of text) refl (empty-Holds (lines_of text))

-- The entries that parseRegistry returns have distinct tests. Each stands on the line of its number:
-- the first token there is its test id, outside the trust surfaces; tokens there hold its deadline, a
-- date, the date filed, which is not after it, and its signature, which has 12 runes or more, holds no
-- race marker and does not match the harness's own lines.
pub parse_registry-IsSound :
    (text : Text)
    → All (IsOfLine (lines_of text)) (parse_registry text).entries
      × Distinct (parse_registry text).entries
unfolding parse_registry
parse_registry-IsSound text =
    let h = all_lines-Holds text in
    rw (limit_entries-entries (read_lines 1 (lines_of text) empty_registry)) (h.sound, h.distinct)

-- If parseRegistry returns no error, its entries stand, in order, for every line of the text that
-- holds more than space and comment, and there are ten at most.
pub parse_registry_complete :
    (text : Text)
    → (parse_registry text).errs ≡ []
    → (map (λ e. e.line) (parse_registry text).entries ≡ content_lines 1 (lines_of text))
      × (length (parse_registry text).entries ≤ 10)
unfolding parse_registry
parse_registry_complete text valid =
    let r = read_lines 1 (lines_of text) empty_registry in
    let h = all_lines-Holds text in
    let (no_errs, few, same) = limit_entries-errs r valid in
    (
      ap (map (λ e. e.line)) (limit_entries-entries r) ∙ h.complete no_errs,
      omega (arith, h.bounded, ap length (limit_entries-entries r), few),
    )
