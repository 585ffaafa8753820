-- ===== src/Artifact/Path/Conflicts.antt =====
-- What ValidatePathSet (artifact/v1/path.go) guarantees of a set of paths.
use apis.Prelude.{
  ℕ, zero, suc, ◌<◌, ◌≡◌, ◌≢◌, refl, ◌∙◌, ap, Bool, true, false, ◌||◌, List, [], ◌∷◌, ◌++◌, map,
  some, ◌==◌, any, get_elem?, Bytes, bytes_eq, bytes_eq_iff, arith, if◌then◌else◌, subst,
}
use apis.Prelude.Outcomes.{ok, >>-eq-ok}
use apis.Artifact.Path.{
  slash, to_lower, validate_path, check_each, directories, check_directories, validate_path_set,
}
use apis.Artifact.Path.Checks.{refuse-ok}
use apis.Artifact.Path.Valid.{IsArtifactPath, validate_path_iff}

any-get_elem? :
    (p : Bytes → Bool) (xs : List Bytes) (i : ℕ) {x : Bytes}
    → get_elem? xs i ≡ some x
    → p x ≡ true
    → any p xs ≡ true
any-get_elem? p [] i at h = absurd (cc)
any-get_elem? p (y ∷ xs) zero {x} at h =
    let same : y ≡ x = cc in let here : p y ≡ true = ap p same ∙ h in ground arith
any-get_elem? p (y ∷ xs) (suc i) at h = let rest = any-get_elem? p xs i at h in ground arith

any-map :
    (p : Bytes → Bool) (f : Bytes → Bytes) (xs : List Bytes)
    → any p (map f xs) ≡ any (λ x. p (f x)) xs
any-map p f [] = refl
any-map p f (x ∷ xs) = ap (λ b. p (f x) || b) (any-map p f xs)

-- The prefix before a slash is one of the directories.
any-directories :
    (d rest : Bytes) (p : Bytes → Bool)
    → p d ≡ true
    → any p (directories (d ++ slash ∷ rest)) ≡ true
unfolding directories
any-directories [] rest p h = rw h refl
any-directories (b ∷ d) rest p h =
    let deeper =
      any-map p (λ e. b ∷ e) (directories (d ++ slash ∷ rest))
      ∙ any-directories d rest (λ e. p (b ∷ e)) h in
    go (b == slash) deeper
  where
    go :
        (here : Bool)
        → any p (map (λ e. b ∷ e) (directories (d ++ slash ∷ rest))) ≡ true
        → any p (
            if here
            then [] ∷ map (λ e. b ∷ e) (directories (d ++ slash ∷ rest))
            else map (λ e. b ∷ e) (directories (d ++ slash ∷ rest)))
          ≡ true
    go true e = ground arith
    go false e = e

each-valid :
    (seen ps : List Bytes) (i : ℕ) {p : Bytes}
    → check_each seen ps ≡ ok tt
    → get_elem? ps i ≡ some p
    → validate_path p ≡ ok tt
unfolding check_each
each-valid seen [] i h at = absurd (cc)
each-valid seen (q ∷ ps) zero {p} h at =
    let same : q ≡ p = cc in
    subst (λ x. validate_path x ≡ ok tt) same (>>-eq-ok (validate_path q) _ h).0
each-valid seen (q ∷ ps) (suc i) h at =
    let (_, h1) = >>-eq-ok (validate_path q) _ h in
    let (_, h2) = >>-eq-ok _ _ h1 in
    let (_, h3) = >>-eq-ok _ (check_each (q ∷ seen) ps) h2 in each-valid (q ∷ seen) ps i h3 at

-- No path seen before folds to a path of the list.
each-fresh :
    (seen ps : List Bytes) (i : ℕ) {p : Bytes}
    → check_each seen ps ≡ ok tt
    → get_elem? ps i ≡ some p
    → any (λ q. bytes_eq (to_lower q) (to_lower p)) seen ≡ false
unfolding check_each
each-fresh seen [] i h at = absurd (cc)
each-fresh seen (q ∷ ps) zero {p} h at =
    let (_, h1) = >>-eq-ok (validate_path q) _ h in
    let (_, h2) = >>-eq-ok _ _ h1 in
    let (c, _) = >>-eq-ok _ (check_each (q ∷ seen) ps) h2 in
    let same : q ≡ p = cc in
    subst (λ x. any (λ y. bytes_eq (to_lower y) (to_lower x)) seen ≡ false) same (refuse-ok _ _ c)
each-fresh seen (q ∷ ps) (suc i) {p} h at =
    let (_, h1) = >>-eq-ok (validate_path q) _ h in
    let (_, h2) = >>-eq-ok _ _ h1 in
    let (_, h3) = >>-eq-ok _ (check_each (q ∷ seen) ps) h2 in
    let more : (bytes_eq (to_lower q) (to_lower p)
          || any (λ y. bytes_eq (to_lower y) (to_lower p)) seen)
        ≡ false =
      each-fresh (q ∷ seen) ps i h3 at in
    ground arith

each-distinct :
    (seen ps : List Bytes) (i j : ℕ) {p q : Bytes}
    → check_each seen ps ≡ ok tt
    → i < j
    → get_elem? ps i ≡ some p
    → get_elem? ps j ≡ some q
    → to_lower p ≢ to_lower q
unfolding check_each
each-distinct seen [] i j h lt at at' = absurd (cc)
each-distinct seen (r ∷ ps) i zero h lt at at' = absurd (omega arith)
each-distinct seen (r ∷ ps) zero (suc j) {p} {q} h lt at at' =
    let (_, h1) = >>-eq-ok (validate_path r) _ h in
    let (_, h2) = >>-eq-ok _ _ h1 in
    let (_, h3) = >>-eq-ok _ (check_each (r ∷ seen) ps) h2 in
    let more : (bytes_eq (to_lower r) (to_lower q)
          || any (λ y. bytes_eq (to_lower y) (to_lower q)) seen)
        ≡ false =
      each-fresh (r ∷ seen) ps j h3 at' in
    let here : r ≡ p = cc in
    λ same.
      let hit : bytes_eq (to_lower r) (to_lower q) ≡ true =
        (bytes_eq_iff (to_lower r) (to_lower q)).1 (ap to_lower here ∙ same) in
      ground arith
each-distinct seen (r ∷ ps) (suc i) (suc j) h lt at at' =
    let (_, h1) = >>-eq-ok (validate_path r) _ h in
    let (_, h2) = >>-eq-ok _ _ h1 in
    let (_, h3) = >>-eq-ok _ (check_each (r ∷ seen) ps) h2 in
    each-distinct (r ∷ seen) ps i j h3 (omega arith) at at'

directories-free :
    (folded ps : List Bytes) (i : ℕ) {p : Bytes}
    → check_directories folded ps ≡ ok tt
    → get_elem? ps i ≡ some p
    → any (λ d. any (λ q. bytes_eq q d) folded) (directories (to_lower p)) ≡ false
unfolding check_directories
directories-free folded [] i h at = absurd (cc)
directories-free folded (q ∷ ps) zero {p} h at =
    let (a, _) = >>-eq-ok _ (check_directories folded ps) h in
    let same : q ≡ p = cc in
    subst (λ x. any (λ d. any (λ q. bytes_eq q d) folded) (directories (to_lower x)) ≡ false) same
      (refuse-ok _ _ a)
directories-free folded (q ∷ ps) (suc i) h at =
    let (_, rest) = >>-eq-ok _ (check_directories folded ps) h in
    directories-free folded ps i rest at

loops :
    (ps : List Bytes)
    → validate_path_set ps ≡ ok tt
    → (check_each [] ps ≡ ok tt) × (check_directories (map to_lower ps) ps ≡ ok tt)
unfolding validate_path_set
loops ps h = let (_, rest) = >>-eq-ok _ _ h in >>-eq-ok (check_each [] ps) _ rest

-- Every path of a set that ValidatePathSet accepts is an artifact path.
pub validate_path_set-IsArtifactPath :
    (ps : List Bytes) (i : ℕ) {p : Bytes}
    → validate_path_set ps ≡ ok tt
    → get_elem? ps i ≡ some p
    → IsArtifactPath p
validate_path_set-IsArtifactPath ps i {p} h at =
    (validate_path_iff p).0 (each-valid [] ps i (loops ps h).0 at)

-- Two paths at different places of a set that ValidatePathSet accepts differ, and differ after ASCII
-- case folding.
pub validate_path_set-distinct :
    (ps : List Bytes) (i j : ℕ) {p q : Bytes}
    → validate_path_set ps ≡ ok tt
    → i < j
    → get_elem? ps i ≡ some p
    → get_elem? ps j ≡ some q
    → to_lower p ≢ to_lower q
validate_path_set-distinct ps i j h lt at at' = each-distinct [] ps i j (loops ps h).0 lt at at'

get_elem?-map :
    (f : Bytes → Bytes) (xs : List Bytes) (i : ℕ) {x : Bytes}
    → get_elem? xs i ≡ some x
    → get_elem? (map f xs) i ≡ some (f x)
get_elem?-map f [] i at = absurd (cc)
get_elem?-map f (y ∷ xs) zero {x} at = let same : y ≡ x = cc in ap (λ z. some (f z)) same
get_elem?-map f (y ∷ xs) (suc i) at = get_elem?-map f xs i at

-- In a set that ValidatePathSet accepts no path is a directory of another, after ASCII case folding:
-- no folded path is a folded path followed by a slash and something.
pub validate_path_set-directory :
    (ps : List Bytes) (i j : ℕ) {p q : Bytes} (rest : Bytes)
    → validate_path_set ps ≡ ok tt
    → get_elem? ps i ≡ some p
    → get_elem? ps j ≡ some q
    → to_lower q ≢ to_lower p ++ slash ∷ rest
validate_path_set-directory ps i j {p} {q} rest h at at' e =
    let free = directories-free (map to_lower ps) ps j (loops ps h).1 at' in
    let listed : any (λ r. bytes_eq r (to_lower p)) (map to_lower ps) ≡ true =
      any-get_elem? (λ r. bytes_eq r (to_lower p)) (map to_lower ps) i
        (get_elem?-map to_lower ps i at) ((bytes_eq_iff (to_lower p) (to_lower p)).1 refl) in
    let hit =
      any-directories (to_lower p) rest (λ d. any (λ r. bytes_eq r d) (map to_lower ps)) listed in
    let hit' : any (λ d. any (λ r. bytes_eq r d) (map to_lower ps)) (directories (to_lower q))
        ≡ true =
      rw e hit in
    cc
