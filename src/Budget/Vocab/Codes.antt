-- ===== src/Budget/Vocab/Codes.antt =====
-- The page codes of budget/v1alpha1/vocab.go and page_codes.go are decoded to what was encoded.
use apis.Prelude.{
  ℕ, zero, suc, ◌-◌, ◌≤◌, ◌≡◌, ◌≢◌, refl, ◌∙◌, ap, sym, subst, true, not, ◌||◌, none, some, List,
  [], ◌∷◌, String, arith, get_elem?, length, Bool-cases, inl, inr, str_eq, str_eq_iff,
  if◌then◌else◌, ◌==◌, ltb,
}
use apis.Budget.Vocab.{
  SignalId, position, signal_codes, signal_page_code, signal_valid, signal_for_page_code, page_code,
}

-- A position is that of the value.
position-get_elem? :
    (v : String) (table : List String) (i j : ℕ)
    → position v table i ≡ suc j
    → (i ≤ j) × (get_elem? table (j - i) ≡ some v)
unfolding position
position-get_elem? v [] i j h = absurd (omega arith)
position-get_elem? v (w ∷ table) i j h = elim (Bool-cases (str_eq w v)) [
  | inl hit ↦
      let at : suc i ≡ suc j = rw (hit, position) at h in
      let here : j - i ≡ zero = omega arith in
      (omega arith, rw here (ap some ((str_eq_iff w v).0 hit)))
  | inr miss ↦
      let (le, found) = position-get_elem? v table (suc i) j (rw (miss, position) at h) in
      let next : j - i ≡ suc (j - suc i) = omega arith in (omega arith, rw next found)
]

-- SignalForPageCode of the page code of a known signal is the signal.
pub signal_for_page_code-signal_page_code :
    (s : SignalId) → signal_valid s ≡ true → signal_for_page_code (signal_page_code s) ≡ some s
unfolding signal_valid signal_page_code signal_for_page_code
signal_for_page_code-signal_page_code s h = go (position s signal_codes 0) refl h
  where
    within :
        (j : ℕ)
        → get_elem? signal_codes j ≡ some s
        → (if suc j == 0 || ltb (length signal_codes) (suc j)
            then none
            else get_elem? signal_codes (suc j - 1))
          ≡ some s
    within zero f = f
    within (suc zero) f = f
    within (suc (suc zero)) f = f
    within (suc (suc (suc zero))) f = f
    within (suc (suc (suc (suc zero)))) f = f
    within (suc (suc (suc (suc (suc zero))))) f = f
    within (suc (suc (suc (suc (suc (suc zero)))))) f = f
    within (suc (suc (suc (suc (suc (suc (suc j))))))) f = absurd (cc)

    go :
        (c : ℕ)
        → position s signal_codes 0 ≡ c
        → not (c == 0) ≡ true
        → (if c == 0 || ltb (length signal_codes) c then none else get_elem? signal_codes (c - 1))
          ≡ some s
    go zero e h = absurd (ground arith)
    go (suc j) e h =
        let found = (position-get_elem? s signal_codes 0 j e).1 in
        let same : j - 0 ≡ j = omega arith in
        let found' : get_elem? signal_codes j ≡ some s = rw same at found in within j found'

-- The page code of what SignalForPageCode answers for a code is the code.
pub signal_page_code-signal_for_page_code :
    (c : ℕ) {s : SignalId} → signal_for_page_code c ≡ some s → signal_page_code s ≡ c
unfolding signal_page_code signal_for_page_code position
signal_page_code-signal_for_page_code c {s} h = go c h
  where
    code_of :
        (v : SignalId) (n : ℕ)
        → some v ≡ some s
        → position v signal_codes 0 ≡ n
        → position s signal_codes 0 ≡ n
    code_of v n e at = let same : v ≡ s = cc in subst (λ x. position x signal_codes 0 ≡ n) same at

    go :
        (c : ℕ)
        → (if c == 0 || ltb (length signal_codes) c then none else get_elem? signal_codes (c - 1))
          ≡ some s
        → position s signal_codes 0 ≡ c
    go zero h = absurd (cc)
    go (suc zero) h = code_of _ 1 h refl
    go (suc (suc zero)) h = code_of _ 2 h refl
    go (suc (suc (suc zero))) h = code_of _ 3 h refl
    go (suc (suc (suc (suc zero)))) h = code_of _ 4 h refl
    go (suc (suc (suc (suc (suc zero))))) h = code_of _ 5 h refl
    go (suc (suc (suc (suc (suc (suc zero)))))) h = code_of _ 6 h refl
    go (suc (suc (suc (suc (suc (suc (suc zero))))))) h = code_of _ 7 h refl
    go (suc (suc (suc (suc (suc (suc (suc (suc c)))))))) h = absurd (ground arith)

code-position :
    (table : List String) (x unknown : String) (j : ℕ)
    → page_code table x unknown ≡ some (suc j)
    → position x table 0 ≡ suc j
unfolding page_code
code-position table x unknown j h = ground arith

-- In one table two values with the same code other than 0 are equal.
pub page_code_injective :
    (table : List String) (v w unknown : String) (c : ℕ)
    → page_code table v unknown ≡ some c
    → page_code table w unknown ≡ some c
    → c ≢ 0
    → v ≡ w
page_code_injective table v w unknown zero e f nonzero = absurd (nonzero refl)
page_code_injective table v w unknown (suc j) e f nonzero =
    let a = (position-get_elem? v table 0 j (code-position table v unknown j e)).1 in
    let b = (position-get_elem? w table 0 j (code-position table w unknown j f)).1 in
    let same : some v ≡ some w = sym a ∙ b in cc
