-- ===== src/Runtime/Handler/Resolve.antt =====
-- What HandlerConfig (runtime/v1/handler.go) resolves a handler to.
use apis.Prelude.{
  ◌≡◌, refl, ◌∙◌, ap, sym, ℤ, Bool, true, false, not, ◌&&◌, Option, none, some, [], ◌∷◌, ◌++◌,
  String, if◌then◌else◌, all, str_eq, str_eq_iff, arith, is_some, Bool-cases, Option-cases, inl,
  inr, subst, and-eq-true,
}
use apis.Runtime.Handler.{
  Handlers, HandlerConfig, lookup, entries, default_handlers, backend, add_default, add_defaults,
  with_defaults, valid_backend, valid_entry, validate,
}

-- The first answer that there is.
abbrev pub or_else : Option ℤ → Option ℤ → Option ℤ
or_else (some b) other = some b
or_else none other = other

lookup-append :
    (name : String) (xs ys : Handlers)
    → lookup name (xs ++ ys) ≡ or_else (lookup name xs) (lookup name ys)
unfolding lookup
lookup-append name [] ys = refl
lookup-append name ((k, b) ∷ xs) ys = go (str_eq k name) (lookup-append name xs ys)
  where
    go :
        (hit : Bool)
        → lookup name (xs ++ ys) ≡ or_else (lookup name xs) (lookup name ys)
        → (if hit then some b else lookup name (xs ++ ys))
          ≡ or_else (if hit then some b else lookup name xs) (lookup name ys)
    go true e = refl
    go false e = e

lookup-missed : (name k : String) (b : ℤ) → str_eq k name ≡ false → lookup name ((k, b) ∷ []) ≡ none
unfolding lookup
lookup-missed name k b other = rw other refl

or_else-none : (o : Option ℤ) → o ≡ or_else o none
or_else-none none = refl
or_else-none (some b) = refl

-- What an entry adds to a map that has its key already.
lookup-kept :
    (name k : String) (b : ℤ) (hs : Handlers) {c : ℤ}
    → lookup k hs ≡ some c
    → lookup name hs ≡ or_else (lookup name hs) (lookup name ((k, b) ∷ []))
lookup-kept name k b hs {c} found = elim (Bool-cases (str_eq k name)) [
  | inl same ↦
      let here : lookup name hs ≡ some c =
        subst (λ n. lookup n hs ≡ some c) ((str_eq_iff k name).0 same) found in
      rw here refl
  | inr other ↦ rw (lookup-missed name k b other) (or_else-none (lookup name hs))
]

lookup-add_default :
    (name k : String) (b : ℤ) (hs : Handlers)
    → lookup name (add_default (k, b) hs) ≡ or_else (lookup name hs) (lookup name ((k, b) ∷ []))
unfolding add_default
lookup-add_default name k b hs = elim (Option-cases (lookup k hs)) [
  | inl missing ↦ rw missing (lookup-append name hs ((k, b) ∷ []))
  | inr (c, found) ↦ rw found (lookup-kept name k b hs found)
]

or_else_assoc : (x y z : Option ℤ) → or_else (or_else x y) z ≡ or_else x (or_else y z)
or_else_assoc none y z = refl
or_else_assoc (some b) y z = refl

lookup-add_defaults :
    (name : String) (ds hs : Handlers)
    → lookup name (add_defaults ds hs) ≡ or_else (lookup name hs) (lookup name ds)
unfolding add_defaults lookup
lookup-add_defaults name [] hs = or_else-none (lookup name hs)
lookup-add_defaults name ((k, b) ∷ ds) hs =
    lookup-add_defaults name ds (add_default (k, b) hs)
    ∙ (ap (λ o. or_else o (lookup name ds)) (lookup-add_default name k b hs)
        ∙ (or_else_assoc (lookup name hs) (lookup name ((k, b) ∷ [])) (lookup name ds)
            ∙ ap (or_else (lookup name hs)) (sym (lookup-append name ((k, b) ∷ []) ds))))

-- After WithDefaults a handler resolves as before where it did, and else to the backend of the
-- built-in table: a mapping of the config is never replaced.
pub backend-with_defaults :
    (c : HandlerConfig) (handler : String)
    → backend (with_defaults c) handler
      ≡ or_else (backend c handler) (lookup handler default_handlers)
unfolding backend with_defaults
backend-with_defaults c handler = elim (Bool-cases (str_eq handler "")) [
  | inl unnamed ↦ rw unnamed refl
  | inr named ↦ rw named (lookup-add_defaults handler default_handlers (entries c.handlers))
]

lookup-valid :
    (hs : Handlers) (name : String) {b : ℤ}
    → all valid_entry hs ≡ true
    → lookup name hs ≡ some b
    → valid_backend b ≡ true
unfolding lookup
lookup-valid [] name h e = absurd (cc)
lookup-valid ((k, v) ∷ hs) name {b} h e =
    let (here, rest) = and-eq-true (valid_entry (k, v)) (all valid_entry hs) h in
    let known : valid_backend v ≡ true =
      (and-eq-true (not (str_eq k "")) (valid_backend v) here).1 in
    elim (Bool-cases (str_eq k name)) [
      | inl hit ↦
          let same : ◌≡◌ {A = Option ℤ} (some v) (some b) = rw (hit, lookup) at e in
          let eq : v ≡ b = cc in subst (λ x. valid_backend x ≡ true) eq known
      | inr miss ↦ lookup-valid hs name rest (rw (miss, lookup) at e)
    ]

-- Of a config that Validate accepts every handler that resolves has a defined backend.
pub validate-backend :
    (c : HandlerConfig) (handler : String) {b : ℤ}
    → validate c ≡ true
    → backend c handler ≡ some b
    → valid_backend b ≡ true
unfolding validate backend
validate-backend c handler {b} h e =
    let (fallback, table) =
      and-eq-true (valid_backend c.default_backend) (all valid_entry (entries c.handlers)) h in
    elim (Bool-cases (str_eq handler "")) [
      | inl unnamed ↦
          let same : ◌≡◌ {A = Option ℤ} (some c.default_backend) (some b) =
            rw (unnamed, backend) at e in
          let eq : c.default_backend ≡ b = cc in subst (λ x. valid_backend x ≡ true) eq fallback
      | inr named ↦ lookup-valid (entries c.handlers) handler table (rw (named, backend) at e)
    ]

all-append :
    (xs ys : Handlers) → all valid_entry (xs ++ ys) ≡ (all valid_entry xs && all valid_entry ys)
all-append [] ys = refl
all-append (x ∷ xs) ys = let rest = all-append xs ys in ground (arith, rest)

all-add_defaults :
    (ds hs : Handlers)
    → all valid_entry ds ≡ true
    → all valid_entry (add_defaults ds hs) ≡ all valid_entry hs
unfolding add_defaults add_default
all-add_defaults [] hs h = refl
all-add_defaults ((k, b) ∷ ds) hs h =
    let (here, rest) = and-eq-true (valid_entry (k, b)) (all valid_entry ds) h in
    all-add_defaults ds (add_default (k, b) hs) rest ∙ go here (is_some (lookup k hs))
  where
    go :
        valid_entry (k, b) ≡ true
        → (there : Bool)
        → all valid_entry (if there then hs else hs ++ ((k, b) ∷ [])) ≡ all valid_entry hs
    go here true = refl
    go here false = all-append hs ((k, b) ∷ []) ∙ ground (arith, here)

defaults-valid : all valid_entry default_handlers ≡ true
unfolding default_handlers valid_backend
defaults-valid = refl

-- WithDefaults neither mends nor breaks a config: Validate answers the same.
pub validate-with_defaults : (c : HandlerConfig) → validate (with_defaults c) ≡ validate c
unfolding validate with_defaults
validate-with_defaults c =
    ap (λ b. valid_backend c.default_backend && b)
      (all-add_defaults default_handlers (entries c.handlers) defaults-valid)
