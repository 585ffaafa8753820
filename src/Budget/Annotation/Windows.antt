-- ===== src/Budget/Annotation/Windows.antt =====
-- mergeUnknownWindows of budget/v1alpha1/annotationpayload.go.
pub mod Kept
use apis.Prelude.{
  ℕ, zero, suc, ◌+◌, ◌-◌, ◌%◌, ◌^◌, ℤ, pos, negsuc, Bool, false, not, ◌&&◌, Option, none, some,
  List, [], ◌∷◌, ◌++◌, String, if◌then◌else◌, ltb, ltb_ℤ, int64, uint64, length, str_eq,
}
use apis.Budget.Observation.{WindowCount}

-- `out`, and where each window's entry of the unknown reason stands in it.
pub record Merge : Type 0 where
  pub out : List WindowCount
  pub at : List (String × ℕ)

unfoldable pub find_at : String → List (String × ℕ) → Option ℕ
find_at w [] = none
find_at w (p ∷ ps) = let later = find_at w ps in if str_eq p.0 w then some p.1 else later

-- `w.Count > 0 && out[i].Count > math.MaxInt64-w.Count`
abbrev pub overflows : ℤ → ℤ → Bool
overflows (pos n) c = ltb 0 n && ltb_ℤ (pos (2 ^ 63 - 1 - n)) c
overflows (negsuc n) c = false

abbrev pub add_count : ℤ → ℤ → ℤ
add_count n c = if overflows n c then pos (2 ^ 63 - 1) else int64 ((uint64 c + uint64 n) % 2 ^ 64)

unfoldable pub add_at : ℕ → ℤ → List WindowCount → List WindowCount
add_at i n [] = []
add_at zero n (w ∷ ws) = record w { count = add_count n w.count } ∷ ws
add_at (suc i) n (w ∷ ws) = w ∷ add_at i n ws

-- One round of the loop.
unfoldable pub merge_window : Merge → WindowCount → Merge
merge_window m w =
    if not (str_eq w.reason "unknown")
    then record m { out = m.out ++ (w ∷ []) }
    else elim (find_at w.window m.at) [
      | none ↦ record { out = m.out ++ (w ∷ []); at = (w.window, length m.out) ∷ m.at }
      | some i ↦ record m { out = add_at i w.count m.out }
    ]

unfoldable pub merge_windows : Merge → List WindowCount → Merge
merge_windows m [] = m
merge_windows m (w ∷ ws) = merge_windows (merge_window m w) ws

-- mergeUnknownWindows
unfoldable pub merge_unknown_windows : List WindowCount → List WindowCount
merge_unknown_windows ws = (merge_windows (record { out = []; at = [] }) ws).out
