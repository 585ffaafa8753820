-- ===== src/Artifact/Path/Names.antt =====
-- The names of a path (artifact/v1/path.go): a component, and a file name that is not that of code.
use apis.Prelude.{
  ℕ, suc, zero, ◌-◌, ◌≤◌, ◌≡◌, ◌≢◌, ◌⊎◌, inl, inr, refl, ap, ◌∙◌, subst, Bool, true, false, ◌||◌,
  List, [], ◌∷◌, ◌++◌, map, length, length-append, take, drop, all, any, any-at-false, All, Among,
  Bytes, codes, bytes_eq, bytes_eq_iff, bytes_eq_refl, has_prefix, has_suffix, leb, arith,
}
use mathlib.Core.List.{map-append}
use apis.Artifact.Path.{is_dots, to_lower, path_byte, code_extensions}
use apis.Artifact.Path.Checks.{PassesComponent}
use apis.Artifact.Path.Parts.{name_byte}

-- A letter, a digit, a dot, an underscore or a dash.
abbrev pub IsNameByte : ℕ → Type 0
IsNameByte b =
    ((97 ≤ b) × (b ≤ 122))
    ⊎ ((65 ≤ b) × (b ≤ 90))
    ⊎ ((48 ≤ b) × (b ≤ 57))
    ⊎ (b ≡ 46)
    ⊎ (b ≡ 95)
    ⊎ (b ≡ 45)

-- A name of 1 to 255 such bytes that is not "." and starts neither with ".." nor with "._".
pub record IsComponent (c : Bytes) : Type 0 where
  pub bytes : All IsNameByte c
  pub nonempty : c ≢ []
  pub not_dot : c ≢ codes "."
  pub no_dots : (s : Bytes) → c ≢ codes ".." ++ s
  pub no_fork : (s : Bytes) → c ≢ codes "._" ++ s
  pub short : length c ≤ 255

abbrev pub refused_extensions : List Bytes
refused_extensions =
    codes ".py"
    ∷ codes ".pyc"
    ∷ codes ".bin"
    ∷ codes ".pt"
    ∷ codes ".pth"
    ∷ codes ".pkl"
    ∷ codes ".pickle"
    ∷ codes ".ckpt"
    ∷ codes ".so"
    ∷ codes ".dylib"
    ∷ []

-- No end of the name is one of the extensions, in any case of its letters.
abbrev pub IsData : Bytes → Type 0
IsData name =
    (stem tail ext : Bytes)
    → Among ext refused_extensions
    → name ≡ stem ++ tail
    → to_lower tail ≢ ext

name_byte-IsNameByte : (b : ℕ) → name_byte b ≡ true → IsNameByte b
unfolding path_byte
name_byte-IsNameByte b h = ground arith

IsNameByte-name_byte : (b : ℕ) → IsNameByte b → name_byte b ≡ true
unfolding path_byte
IsNameByte-name_byte b h = ground arith

bytes-IsNameByte : (c : Bytes) → all name_byte c ≡ true → All IsNameByte c
bytes-IsNameByte [] h = tt
bytes-IsNameByte (b ∷ c) h =
    (name_byte-IsNameByte b (ground arith), bytes-IsNameByte c (ground arith))

pub bytes-name_byte : (c : Bytes) → All IsNameByte c → all name_byte c ≡ true
bytes-name_byte [] h = refl
bytes-name_byte (b ∷ c) h =
    let here = IsNameByte-name_byte b h.0 in
    let rest = bytes-name_byte c h.1 in rw (here, rest) refl

has_prefix-eq : (s p : Bytes) → has_prefix s p ≡ true → s ≡ p ++ drop (length p) s
unfolding has_prefix
has_prefix-eq s [] h = refl
has_prefix-eq [] (a ∷ p) h = absurd (cc)
has_prefix-eq (b ∷ s) (a ∷ p) h =
    let rest = has_prefix-eq s p (ground arith) in
    let same : b ≡ a = ground arith in cc (rest, same)

refute : (b : Bool) → (b ≡ true → ⊥) → b ≡ false
refute true h = absurd (h refl)
refute false h = refl

pub PassesComponent-IsComponent :
    (c : Bytes) → PassesComponent c → all name_byte c ≡ true → IsComponent c
unfolding has_prefix bytes_eq
PassesComponent-IsComponent c h bytes = record {
  bytes = bytes-IsNameByte c bytes;
  nonempty = λ e. let bad = subst (λ x. is_dots x ≡ false) e h.named in absurd (cc bad);
  not_dot = λ e. let bad = subst (λ x. is_dots x ≡ false) e h.named in absurd (cc bad);
  no_dots = λ s e.
      let bad =
        subst (λ x. (has_prefix x (codes "..") || has_prefix x (codes "._")) ≡ false) e h.free in
      absurd (cc bad);
  no_fork = λ s e.
      let bad =
        subst (λ x. (has_prefix x (codes "..") || has_prefix x (codes "._")) ≡ false) e h.free in
      absurd (cc bad);
  short = h.short;
}

pub IsComponent-PassesComponent : (c : Bytes) → IsComponent c → PassesComponent c
IsComponent-PassesComponent c h =
    let empty = refute (bytes_eq c []) (λ e. h.nonempty ((bytes_eq_iff c []).0 e)) in
    let dot = refute (bytes_eq c (codes ".")) (λ e. h.not_dot ((bytes_eq_iff c (codes ".")).0 e)) in
    let dots =
      refute (bytes_eq c (codes "..")) (λ e. h.no_dots [] ((bytes_eq_iff c (codes "..")).0 e)) in
    let up =
      refute (has_prefix c (codes "..")) (λ e. h.no_dots _ (has_prefix-eq c (codes "..") e)) in
    let fork =
      refute (has_prefix c (codes "._")) (λ e. h.no_fork _ (has_prefix-eq c (codes "._") e)) in
    record { named = rw (empty, dot, dots) refl; free = rw (up, fork) refl; short = h.short }

drop-append : (s t : Bytes) → drop (length s) (s ++ t) ≡ t
drop-append [] t = refl
drop-append (b ∷ s) t = drop-append s t

has_suffix-append : (s t : Bytes) → has_suffix (s ++ t) t ≡ true
unfolding has_suffix
has_suffix-append s t =
    let long = length-append s t in
    let at : length (s ++ t) - length t ≡ length s = omega (arith, long) in
    let fits : leb (length t) (length (s ++ t)) ≡ true = ground (arith, long) in
    let same : drop (length (s ++ t) - length t) (s ++ t) ≡ t =
      ap (λ n. drop n (s ++ t)) at ∙ drop-append s t in
    rw (fits, same) (bytes_eq_refl t)

has_suffix-drop : (s t : Bytes) → has_suffix s t ≡ true → drop (length s - length t) s ≡ t
unfolding has_suffix
has_suffix-drop s t h = (bytes_eq_iff (drop (length s - length t) s) t).0 (ground arith)

take-drop : (n : ℕ) (s : Bytes) → s ≡ take n s ++ drop n s
take-drop zero s = refl
take-drop (suc n) [] = refl
take-drop (suc n) (b ∷ s) = ap (λ q. b ∷ q) (take-drop n s)

drop-map : (f : ℕ → ℕ) (n : ℕ) (s : Bytes) → map f (drop n s) ≡ drop n (map f s)
drop-map f zero s = refl
drop-map f (suc n) [] = refl
drop-map f (suc n) (b ∷ s) = drop-map f n s

any-Among :
    (p : Bytes → Bool) (xs : List Bytes)
    → ((x : Bytes) → Among x xs → p x ≡ false)
    → any p xs ≡ false
any-Among p [] h = refl
any-Among p (x ∷ xs) h =
    let here = h x (inl refl) in
    let rest = any-Among p xs (λ y m. h y (inr m)) in rw (here, rest) refl

pub extensions-IsData :
    (name : Bytes) → any (has_suffix (to_lower name)) code_extensions ≡ false → IsData name
unfolding to_lower
extensions-IsData name h stem tail ext m cut low =
    let free = any-at-false (has_suffix (to_lower name)) ext code_extensions h m in
    let whole : to_lower name ≡ to_lower stem ++ ext =
      ap to_lower cut ∙ map-append _ stem tail ∙ ap (λ t. to_lower stem ++ t) low in
    let bad : has_suffix (to_lower name) ext ≡ true =
      rw whole (has_suffix-append (to_lower stem) ext) in
    absurd (cc (free, bad))

pub IsData-extensions :
    (name : Bytes) → IsData name → any (has_suffix (to_lower name)) code_extensions ≡ false
unfolding to_lower
IsData-extensions name h = any-Among (has_suffix (to_lower name)) code_extensions (λ ext m.
    refute (has_suffix (to_lower name) ext) (λ e.
      let n = length (to_lower name) - length ext in
      h (take n name) (drop n name) ext m (take-drop n name)
        (drop-map _ n name ∙ has_suffix-drop (to_lower name) ext e)))
