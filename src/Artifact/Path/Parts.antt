-- ===== src/Artifact/Path/Parts.antt =====
-- The components of a path (artifact/v1/path.go) and the path that they join to.
use apis.Prelude.{
  ℕ, suc, ◌≡◌, refl, ap, ◌∙◌, Bool, true, false, not, ◌&&◌, List, [], ◌∷◌, ◌++◌, if◌then◌else◌,
  ◌==◌, length, all, Bytes, All, Bool-cases, inl, inr, arith,
}
use apis.Artifact.Path.{slash, path_byte, slashes, onto_first, split, last_of}

-- The directories and the file name, with a slash between.
abbrev pub joined : List Bytes → Bytes → Bytes
joined [] name = name
joined (d ∷ dirs) name = d ++ slash ∷ joined dirs name

-- A byte that a component may hold.
abbrev pub name_byte : ℕ → Bool
name_byte b = path_byte b && not (b == slash)

-- The components of a path, cut into directories and name.
pub record Parts (p : Bytes) : Type 0 where
  pub dirs : List Bytes
  pub name : Bytes
  pub cut : split p ≡ dirs ++ name ∷ []
  pub path : p ≡ joined dirs name

onto_first-Parts :
    (b : ℕ) (p : Bytes) (dirs : List Bytes) (name : Bytes)
    → split p ≡ dirs ++ name ∷ []
    → p ≡ joined dirs name
    → b == slash ≡ false
    → Parts (b ∷ p)
unfolding split onto_first
onto_first-Parts b p [] name cut path other = record {
  dirs = [];
  name = b ∷ name;
  cut = ap (λ c. if c then [] ∷ split p else onto_first b (split p)) other ∙ ap (onto_first b) cut;
  path = ap (λ q. b ∷ q) path;
}
onto_first-Parts b p (d ∷ dirs) name cut path other = record {
  dirs = (b ∷ d) ∷ dirs;
  name = name;
  cut = ap (λ c. if c then [] ∷ split p else onto_first b (split p)) other ∙ ap (onto_first b) cut;
  path = ap (λ q. b ∷ q) path;
}

pub split-Parts : (p : Bytes) → Parts p
unfolding split
split-Parts [] = record { dirs = []; name = []; cut = refl; path = refl }
split-Parts (b ∷ p) =
    let rest = split-Parts p in
    elim (Bool-cases (b == slash)) [
      | inr other ↦ onto_first-Parts b p rest.dirs rest.name rest.cut rest.path other
      | inl here ↦ record {
        dirs = [] ∷ rest.dirs;
        name = rest.name;
        cut =
            ap (λ c. if c then [] ∷ split p else onto_first b (split p)) here
            ∙ ap (λ cs. [] ∷ cs) rest.cut;
        path = let same : b ≡ slash = ground arith in rw same (ap (λ q. slash ∷ q) rest.path);
      }
    ]

-- A component without a slash is cut off whole.
split-name : (c : Bytes) → all name_byte c ≡ true → split c ≡ c ∷ []
unfolding split onto_first
split-name [] h = refl
split-name (b ∷ c) h =
    let other : b == slash ≡ false = ground arith in
    let rest : all name_byte c ≡ true = ground arith in
    ap (λ t. if t then [] ∷ split c else onto_first b (split c)) other
    ∙ ap (onto_first b) (split-name c rest)

split-append : (c q : Bytes) → all name_byte c ≡ true → split (c ++ slash ∷ q) ≡ c ∷ split q
unfolding split onto_first
split-append [] q h = refl
split-append (b ∷ c) q h =
    let other : b == slash ≡ false = ground arith in
    let rest : all name_byte c ≡ true = ground arith in
    ap (λ t. if t then [] ∷ split (c ++ slash ∷ q) else onto_first b (split (c ++ slash ∷ q))) other
    ∙ ap (onto_first b) (split-append c q rest)

pub split-joined :
    (dirs : List Bytes) (name : Bytes)
    → All (λ c. all name_byte c ≡ true) dirs
    → all name_byte name ≡ true
    → split (joined dirs name) ≡ dirs ++ name ∷ []
split-joined [] name h k = split-name name k
split-joined (d ∷ dirs) name h k =
    split-append d (joined dirs name) h.0 ∙ ap (λ cs. d ∷ cs) (split-joined dirs name h.1 k)

-- strings.Count and strings.Split agree.
length-onto_first :
    (b : ℕ) (cs : List Bytes) (n : ℕ) → length cs ≡ suc n → length (onto_first b cs) ≡ suc n
unfolding onto_first
length-onto_first b [] n h = absurd (omega (arith, h))
length-onto_first b (c ∷ cs) n h = h

pub length-split : (p : Bytes) → length (split p) ≡ suc (slashes p)
unfolding split slashes
length-split [] = refl
length-split (b ∷ p) =
    let rest = length-split p in
    ground (arith, rest, length-onto_first b (split p) (slashes p) rest)

pub last_of-append : (dirs : List Bytes) (name : Bytes) → last_of (dirs ++ name ∷ []) ≡ name
unfolding last_of
last_of-append [] name = refl
last_of-append (c ∷ []) name = refl
last_of-append (c ∷ d ∷ dirs) name = last_of-append (d ∷ dirs) name

-- The bytes of the components, from those of the path and back.
onto_first-All :
    (b : ℕ) (cs : List Bytes)
    → name_byte b ≡ true
    → All (λ c. all name_byte c ≡ true) cs
    → All (λ c. all name_byte c ≡ true) (onto_first b cs)
unfolding onto_first
onto_first-All b [] h k = (ground arith, tt)
onto_first-All b (c ∷ cs) h k = (let here = k.0 in ground arith, k.1)

pub split-All : (p : Bytes) → all path_byte p ≡ true → All (λ c. all name_byte c ≡ true) (split p)
unfolding split
split-All [] h = (refl, tt)
split-All (b ∷ p) h =
    let rest = split-All p (ground arith) in
    elim (b == slash)
        as (λ t.
          (b == slash) ≡ t
          → All (λ c. all name_byte c ≡ true)
              (if t then [] ∷ split p else onto_first b (split p))) [
                | true ↦ λ _. (refl, rest)
                | false ↦ λ other. onto_first-All b (split p) (ground arith) rest
              ]
      refl

name_byte-path_byte : (c : Bytes) → all name_byte c ≡ true → all path_byte c ≡ true
name_byte-path_byte [] h = refl
name_byte-path_byte (b ∷ c) h = let rest = name_byte-path_byte c (ground arith) in ground arith

all-append :
    (c q : Bytes) → all path_byte c ≡ true → all path_byte q ≡ true → all path_byte (c ++ q) ≡ true
all-append [] q h k = k
all-append (b ∷ c) q h k = let rest = all-append c q (ground arith) k in ground arith

pub joined-all :
    (dirs : List Bytes) (name : Bytes)
    → All (λ c. all name_byte c ≡ true) dirs
    → all name_byte name ≡ true
    → all path_byte (joined dirs name) ≡ true
unfolding path_byte
joined-all [] name h k = name_byte-path_byte name k
joined-all (d ∷ dirs) name h k =
    all-append d (slash ∷ joined dirs name) (name_byte-path_byte d h.0) (joined-all dirs name h.1 k)
