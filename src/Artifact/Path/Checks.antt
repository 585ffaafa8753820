-- ===== src/Artifact/Path/Checks.antt =====
-- The tests of ValidatePath (artifact/v1/path.go), one by one.
use apis.Prelude.{
  ◌+◌, ◌≤◌, ◌≡◌, refl, Bool, true, false, not, ◌||◌, List, [], ◌∷◌, ltb, length, all, any, Bytes,
  codes, bytes_eq, has_prefix, has_suffix, All, arith, ◌↔◌,
}
use apis.Prelude.Outcomes.{ok, >>-eq-ok}
use apis.Artifact.Path.{
  PathFault, refuse, is_dots, check_component, check_components, last_of, split, slashes, path_byte,
  to_lower, code_extensions, starts_absolute, validate_path, max_path_bytes, max_path_depth,
  max_component_bytes,
}

-- The tests of one component.
pub record PassesComponent (c : Bytes) : Type 0 where
  pub named : is_dots c ≡ false
  pub free : (has_prefix c (codes "..") || has_prefix c (codes "._")) ≡ false
  pub short : length c ≤ max_component_bytes

-- The tests of a path.
pub record Passes (p : Bytes) : Type 0 where
  pub short : length p ≤ max_path_bytes
  pub relative : starts_absolute p ≡ false
  pub charset : all path_byte p ≡ true
  pub shallow : slashes p + 1 ≤ max_path_depth
  pub components : All PassesComponent (split p)
  pub data_file : any (has_suffix (to_lower (last_of (split p)))) code_extensions ≡ false

refuse_iff : (b : Bool) (e : PathFault) → (refuse b e ≡ ok tt) ↔ (b ≡ false)
refuse_iff true e = (λ h. absurd (cc), λ h. absurd (cc))
refuse_iff false e = (λ h. refl, λ h. refl)

pub refuse-ok : (b : Bool) (e : PathFault) → refuse b e ≡ ok tt → b ≡ false
refuse-ok b e h = (refuse_iff b e).0 h

check_component-ok : (c : Bytes) → check_component c ≡ ok tt → PassesComponent c
unfolding check_component
check_component-ok c h =
    let (a, rest) = >>-eq-ok _ _ h in
    let (b, d) = >>-eq-ok _ _ rest in
    let long = refuse-ok (ltb max_component_bytes (length c)) _ d in
    record { named = refuse-ok (is_dots c) _ a; free = refuse-ok _ _ b; short = ground arith }

check_component_complete : (c : Bytes) → PassesComponent c → check_component c ≡ ok tt
unfolding check_component
check_component_complete c h =
    let long : ltb max_component_bytes (length c) ≡ false = let s = h.short in ground arith in
    rw (h.named, h.free, long) refl

check_components-ok : (cs : List Bytes) → check_components cs ≡ ok tt → All PassesComponent cs
unfolding check_components
check_components-ok [] h = tt
check_components-ok (c ∷ cs) h =
    let (a, b) = >>-eq-ok (check_component c) (check_components cs) h in
    (check_component-ok c a, check_components-ok cs b)

check_components_complete : (cs : List Bytes) → All PassesComponent cs → check_components cs ≡ ok tt
unfolding check_components
check_components_complete [] h = refl
check_components_complete (c ∷ cs) h =
    rw (check_component_complete c h.0) (check_components_complete cs h.1)

validate_path-ok : (p : Bytes) → validate_path p ≡ ok tt → Passes p
unfolding validate_path
validate_path-ok p h =
    let (a, h1) = >>-eq-ok _ _ h in
    let (b, h2) = >>-eq-ok _ _ h1 in
    let (c, h3) = >>-eq-ok _ _ h2 in
    let (d, h4) = >>-eq-ok _ _ h3 in
    let (e, h5) = >>-eq-ok _ _ h4 in
    let (f, g) = >>-eq-ok (check_components (split p)) _ h5 in
    let long = refuse-ok (ltb max_path_bytes (length p)) _ a in
    let strange = refuse-ok (not (all path_byte p)) _ d in
    let deep = refuse-ok (ltb max_path_depth (slashes p + 1)) _ e in
    record {
      short = ground arith;
      relative = refuse-ok (starts_absolute p) _ c;
      charset = ground arith;
      shallow = ground arith;
      components = check_components-ok (split p) f;
      data_file = refuse-ok _ _ g;
    }

-- The empty path has an empty component.
nonempty : (p : Bytes) → All PassesComponent (split p) → bytes_eq p [] ≡ false
unfolding split bytes_eq
nonempty [] h = let named = h.0.named in absurd (cc)
nonempty (b ∷ p) h = refl

validate_path_complete : (p : Bytes) → Passes p → validate_path p ≡ ok tt
unfolding validate_path
validate_path_complete p h =
    let long : ltb max_path_bytes (length p) ≡ false = let s = h.short in ground arith in
    let deep : ltb max_path_depth (slashes p + 1) ≡ false = let s = h.shallow in ground arith in
    rw
      (
        long,
        nonempty p h.components,
        h.relative,
        h.charset,
        deep,
        check_components_complete (split p) h.components,
        h.data_file,
      )
      refl

pub validate_path-Passes : (p : Bytes) → (validate_path p ≡ ok tt) ↔ Passes p
validate_path-Passes p = (validate_path-ok p, validate_path_complete p)
