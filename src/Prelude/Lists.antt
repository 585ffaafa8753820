-- ===== src/Prelude/Lists.antt =====
-- Lists measured and indexed by native numbers, under the library's names, with Boolean tests.
use Prim.Native.Nat.{ℕ, zero, suc, ◌+◌, ◌<◌}
use mathlib.Core.Path.{◌≡◌, sym, ap, ◌∙◌, subst}
use mathlib.Core.Bool.{Bool, true, false, ◌&&◌, ◌||◌}
use mathlib.Core.List.{List, [], ◌∷◌, ◌++◌, map}
use mathlib.Core.Logic.{◌⊎◌, inl, inr}
use mathlib.Core.Option.{Option, none, some}
use native.Mathlib.Omega.{arith}

module _ {ℓ} {A : Type ℓ} where
  abbrev pub length : List A → ℕ
  length [] = 0
  length (x ∷ xs) = suc (length xs)

  abbrev pub get_elem? : List A → ℕ → Option A
  get_elem? [] i = none
  get_elem? (x ∷ xs) zero = some x
  get_elem? (x ∷ xs) (suc i) = get_elem? xs i

  abbrev pub get_or : List A → ℕ → A → A
  get_or [] i d = d
  get_or (x ∷ xs) zero d = x
  get_or (x ∷ xs) (suc i) d = get_or xs i d

  abbrev pub take : ℕ → List A → List A
  take zero xs = []
  take (suc n) [] = []
  take (suc n) (x ∷ xs) = x ∷ take n xs

  abbrev pub drop : ℕ → List A → List A
  drop zero xs = xs
  drop (suc n) [] = []
  drop (suc n) (x ∷ xs) = drop n xs

  abbrev pub all : (A → Bool) → List A → Bool
  all p [] = true
  all p (x ∷ xs) = p x && all p xs

  abbrev pub any : (A → Bool) → List A → Bool
  any p [] = false
  any p (x ∷ xs) = p x || any p xs

  pub length-append : (xs ys : List A) → length (xs ++ ys) ≡ length xs + length ys
  length-append [] ys = omega arith
  length-append (x ∷ xs) ys = omega (arith, length-append xs ys)

  pub get_elem?-of_all :
      (p : A → Bool) (xs : List A) (i : ℕ) {x : A}
      → all p xs ≡ true
      → get_elem? xs i ≡ some x
      → p x ≡ true
  get_elem?-of_all p [] i h e = cc
  get_elem?-of_all p (y ∷ xs) zero h e = ground arith
  get_elem?-of_all p (y ∷ xs) (suc i) h e = get_elem?-of_all p xs i (ground arith) e

abbrev pub flat_map {ℓ κ} : {A : Type ℓ} {B : Type κ} → (A → List B) → List A → List B
flat_map f [] = []
flat_map f (x ∷ xs) = f x ++ flat_map f xs

-- The first n numbers, in order: Go's `range n`.
abbrev pub range_from : ℕ → ℕ → List ℕ
range_from zero i = []
range_from (suc n) i = i ∷ range_from n (suc i)

abbrev pub range : ℕ → List ℕ
range n = range_from n 0

get_elem?-range_from : (n j i : ℕ) → i < n → get_elem? (range_from n j) i ≡ some (j + i)
get_elem?-range_from zero j i h = absurd (omega arith)
get_elem?-range_from (suc n) j zero h = ap some (omega arith)
get_elem?-range_from (suc n) j (suc i) h =
    let e : suc j + i ≡ j + suc i = omega arith in
    get_elem?-range_from n (suc j) i (omega arith) ∙ ap some e

pub get_elem?-range : (n i : ℕ) → i < n → get_elem? (range n) i ≡ some i
get_elem?-range n i h = let e : 0 + i ≡ i = omega arith in get_elem?-range_from n 0 i h ∙ ap some e

module _ {ℓ κ} {A : Type ℓ} {B : Type κ} where
  -- Equal images of one list have equal values at each of its items.
  pub map-eq-at :
      (f g : A → B) (xs : List A) (i : ℕ) {x : A}
      → map f xs ≡ map g xs
      → get_elem? xs i ≡ some x
      → f x ≡ g x
  map-eq-at f g [] i e at = cc
  map-eq-at f g (y ∷ xs) zero {x} e at =
      let same : y ≡ x = cc in let here : f y ≡ g y = cc in rw (← same) here
  map-eq-at f g (y ∷ xs) (suc i) e at =
      let rest : map f xs ≡ map g xs = cc in map-eq-at f g xs i rest at

module _ {ℓ κ} {A : Type ℓ} (P : A → Type κ) where
  abbrev pub All : List A → Type κ
  All [] = Unit
  All (x ∷ xs) = P x × All xs

  pub All-append : (xs ys : List A) → All xs → All ys → All (xs ++ ys)
  All-append [] ys hx hy = hy
  All-append (x ∷ xs) ys hx hy = (hx.0, All-append xs ys hx.1 hy)

  pub All-get_elem? : (xs : List A) (i : ℕ) {x : A} → All xs → get_elem? xs i ≡ some x → P x
  All-get_elem? [] i h e = cc
  All-get_elem? (y ∷ xs) zero {x} h e = let same : y ≡ x = cc in subst P same h.0
  All-get_elem? (y ∷ xs) (suc i) h e = All-get_elem? xs i h.1 e

abbrev pub zip {ℓ κ} : {A : Type ℓ} {B : Type κ} → List A → List B → List (A × B)
zip [] ys = []
zip (x ∷ xs) [] = []
zip (x ∷ xs) (y ∷ ys) = (x, y) ∷ zip xs ys

module _ {A : Type 0} where
  -- An item of a list, with its place kept.
  abbrev pub Among : A → List A → Type 0
  Among a [] = ⊥
  Among a (x ∷ xs) = (a ≡ x) ⊎ Among a xs

  pub Among-append_left : (a : A) (xs ys : List A) → Among a xs → Among a (xs ++ ys)
  Among-append_left a [] ys h = absurd h
  Among-append_left a (x ∷ xs) ys (inl e) = inl e
  Among-append_left a (x ∷ xs) ys (inr h) = inr (Among-append_left a xs ys h)

  pub Among-append_right : (a : A) (xs ys : List A) → Among a ys → Among a (xs ++ ys)
  Among-append_right a [] ys h = h
  Among-append_right a (x ∷ xs) ys h = inr (Among-append_right a xs ys h)

  pub All-Among : (P : A → Type 0) (a : A) (xs : List A) → All P xs → Among a xs → P a
  All-Among P a [] h m = absurd m
  All-Among P a (x ∷ xs) h (inl e) = subst P (sym e) h.0
  All-Among P a (x ∷ xs) h (inr m) = All-Among P a xs h.1 m

  pub any-at-false :
      (p : A → Bool) (a : A) (xs : List A) → any p xs ≡ false → Among a xs → p a ≡ false
  any-at-false p a [] h m = absurd m
  any-at-false p a (x ∷ xs) h (inl here) = ap p here ∙ ground arith
  any-at-false p a (x ∷ xs) h (inr later) = any-at-false p a xs (ground arith) later

pub Among-map :
    {A : Type 0} {B : Type 0} (f : A → B) (a : A) (xs : List A)
    → Among a xs
    → Among (f a) (map f xs)
Among-map f a [] h = absurd h
Among-map f a (x ∷ xs) (inl e) = inl (ap f e)
Among-map f a (x ∷ xs) (inr h) = inr (Among-map f a xs h)
