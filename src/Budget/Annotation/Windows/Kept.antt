-- ===== src/Budget/Annotation/Windows/Kept.antt =====
-- mergeUnknownWindows of budget/v1alpha1/annotationpayload.go on windowed counts that
-- BandCounters.validate of budget/v1alpha1/nodebudget.go accepts.
use apis.Prelude.{
  ℕ, ◌≡◌, refl, sym, ap, ◌∙◌, Bool, true, false, ◌&&◌, none, List, [], ◌∷◌, ◌++◌, String, any,
  is_some, str_eq, str_eq_iff, Bool-cases, Option-cases, inl, inr, length, arith,
}
use mathlib.Core.List.{append_assoc, append-nil}
use apis.Prelude.Outcomes.{ok, >>-eq-ok}
use apis.Budget.Observation.{WindowCount, BandCounters}
use apis.Budget.Validate.{
  first_error, repeated, window_checks, check_windows, counters_checks, validate_counters,
}
use apis.Budget.Validate.Facts.{refuse-eq-ok, first_error-All}
use apis.Budget.Annotation.Windows.{
  Merge, find_at, merge_window, merge_windows, merge_unknown_windows,
}

abbrev is_seen : String → String → List (String × String) → Bool
is_seen window reason seen = any (λ p. str_eq p.0 window && str_eq p.1 reason) seen

-- Every window that has an entry of the unknown reason was seen with it.
abbrev IsSeen : List (String × ℕ) → List (String × String) → Type 0
IsSeen at seen =
    (window : String) → is_some (find_at window at) ≡ true → is_seen window "unknown" seen ≡ true

check_windows-new :
    (seen : List (String × String)) (w : WindowCount) (ws : List WindowCount)
    → check_windows seen (w ∷ ws) ≡ ok tt
    → (is_seen w.window w.reason seen ≡ false)
      × (check_windows ((w.window, w.reason) ∷ seen) ws ≡ ok tt)
unfolding check_windows
check_windows-new seen w ws h =
    let (here, rest) =
      >>-eq-ok (first_error (window_checks seen w)) (check_windows ((w.window, w.reason) ∷ seen) ws)
        h in
    let (known, (counted, (once, more))) = first_error-All (window_checks seen w) here in
    (refuse-eq-ok (is_seen w.window w.reason seen) repeated once, rest)

find_at-none :
    (at : List (String × ℕ)) (seen : List (String × String)) (window : String)
    → IsSeen at seen
    → is_seen window "unknown" seen ≡ false
    → find_at window at ≡ none
find_at-none at seen window is new = elim (Option-cases (find_at window at)) [
  | inl absent ↦ absent
  | inr (i, found) ↦ absurd (cc (is window (rw found refl), new))
]

merge_window-known :
    (m : Merge) (w : WindowCount)
    → str_eq w.reason "unknown" ≡ false
    → merge_window m w ≡ record m { out = m.out ++ (w ∷ []) }
unfolding merge_window
merge_window-known m w known = rw known refl

merge_window-new :
    (m : Merge) (w : WindowCount)
    → str_eq w.reason "unknown" ≡ true
    → find_at w.window m.at ≡ none
    → merge_window m w ≡ record { out = m.out ++ (w ∷ []); at = (w.window, length m.out) ∷ m.at }
unfolding merge_window
merge_window-new m w unknown new = rw (unknown, new) refl

IsSeen-nil : IsSeen [] []
unfolding find_at
IsSeen-nil window found = absurd (cc)

IsSeen-cons :
    (at : List (String × ℕ)) (seen : List (String × String)) (window reason : String)
    → IsSeen at seen
    → IsSeen at ((window, reason) ∷ seen)
IsSeen-cons at seen window reason is other found = ground (arith, is other found)

IsSeen-new :
    (at : List (String × ℕ)) (seen : List (String × String)) (window : String) (i : ℕ)
    → IsSeen at seen
    → IsSeen ((window, i) ∷ at) ((window, "unknown") ∷ seen)
unfolding find_at
IsSeen-new at seen window i is other found = elim (Bool-cases (str_eq window other)) [
  | inl same ↦ rw same refl
  | inr different ↦ ground (arith, is other (rw different at found))
]

merge_windows-kept :
    (ws : List WindowCount) (m : Merge) (seen : List (String × String))
    → IsSeen m.at seen
    → check_windows seen ws ≡ ok tt
    → (merge_windows m ws).out ≡ m.out ++ ws
unfolding merge_windows
merge_windows-kept [] m seen is h = sym (append-nil m.out)
merge_windows-kept (w ∷ ws) m seen is h =
    let (new, rest) = check_windows-new seen w ws h in
    elim (Bool-cases (str_eq w.reason "unknown")) [
      | inr known ↦
          ap (λ s. (merge_windows s ws).out) (merge_window-known m w known)
          ∙ (merge_windows-kept ws (record m { out = m.out ++ (w ∷ []) })
                ((w.window, w.reason) ∷ seen) (IsSeen-cons m.at seen w.window w.reason is) rest
              ∙ append_assoc m.out (w ∷ []) ws)
      | inl unknown ↦
          let same : w.reason ≡ "unknown" = (str_eq_iff w.reason "unknown").0 unknown in
          let m' : Merge = record {
            out = m.out ++ (w ∷ []);
            at = (w.window, length m.out) ∷ m.at;
          } in
          ap (λ s. (merge_windows s ws).out)
            (merge_window-new m w unknown (find_at-none m.at seen w.window is (rw same at new)))
          ∙ (merge_windows-kept ws m' ((w.window, "unknown") ∷ seen)
                (IsSeen-new m.at seen w.window (length m.out) is) (rw same at rest)
              ∙ append_assoc m.out (w ∷ []) ws)
    ]

-- Where BandCounters.validate accepts a band's counters, mergeUnknownWindows answers its windowed
-- counts as they are.
pub merge_unknown_windows-validate_counters :
    (c : BandCounters) → validate_counters c ≡ ok tt → merge_unknown_windows c.windows ≡ c.windows
unfolding merge_unknown_windows validate_counters
merge_unknown_windows-validate_counters c h =
    let (band, (totals, (few, (windows, more)))) = first_error-All (counters_checks c) h in
    merge_windows-kept c.windows (record { out = []; at = [] }) [] IsSeen-nil windows
