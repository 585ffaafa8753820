-- ===== src/Artifact/Path/Valid.antt =====
-- What ValidatePath (artifact/v1/path.go) accepts.
use apis.Prelude.{
  ◌≤◌, ◌≡◌, ◌≢◌, ◌↔◌, refl, sym, ap, ◌∙◌, subst, true, false, List, [], ◌∷◌, ◌++◌, length,
  length-append, all, any, All, All-append, Bytes, has_suffix, arith,
}
use apis.Prelude.Outcomes.{ok}
use apis.Artifact.Path.{
  slash, split, path_byte, last_of, to_lower, code_extensions, starts_absolute, validate_path,
}
use apis.Artifact.Path.Checks.{Passes, PassesComponent, validate_path-Passes}
use apis.Artifact.Path.Parts.{
  joined, name_byte, split-Parts, split-joined, length-split, last_of-append, split-All, joined-all,
}
use apis.Artifact.Path.Names.{
  IsComponent, IsData, bytes-name_byte, PassesComponent-IsComponent, IsComponent-PassesComponent,
  extensions-IsData, IsData-extensions,
}

-- At most seven directories and a name joined by slashes, each a component, in 2048 bytes at most; the
-- name ends in no extension of code.
pub record IsArtifactPath (p : Bytes) : Type 0 where
  pub dirs : List Bytes
  pub name : Bytes
  pub path : p ≡ joined dirs name
  pub directories : All IsComponent dirs
  pub file : IsComponent name
  pub shallow : length dirs ≤ 7
  pub short : length p ≤ 2048
  pub data_file : IsData name

All-front :
    (P : Bytes → Type 0) (xs : List Bytes) (y : Bytes) → All P (xs ++ y ∷ []) → All P xs × P y
All-front P [] y h = (tt, h.0)
All-front P (x ∷ xs) y h = let (front, last) = All-front P xs y h.1 in ((h.0, front), last)

components-IsComponent :
    (cs : List Bytes)
    → All PassesComponent cs
    → All (λ c. all name_byte c ≡ true) cs
    → All IsComponent cs
components-IsComponent [] h k = tt
components-IsComponent (c ∷ cs) h k =
    (PassesComponent-IsComponent c h.0 k.0, components-IsComponent cs h.1 k.1)

components-Passes : (cs : List Bytes) → All IsComponent cs → All PassesComponent cs
components-Passes [] h = tt
components-Passes (c ∷ cs) h = (IsComponent-PassesComponent c h.0, components-Passes cs h.1)

components-name_byte : (cs : List Bytes) → All IsComponent cs → All (λ c. all name_byte c ≡ true) cs
components-name_byte [] h = tt
components-name_byte (c ∷ cs) h = (bytes-name_byte c h.0.bytes, components-name_byte cs h.1)

Passes-IsArtifactPath : (p : Bytes) → Passes p → IsArtifactPath p
Passes-IsArtifactPath p h =
    let parts = split-Parts p in
    let all_components : All IsComponent (parts.dirs ++ parts.name ∷ []) =
      subst (All IsComponent) parts.cut
        (components-IsComponent (split p) h.components (split-All p h.charset)) in
    let (dirs, name) = All-front IsComponent parts.dirs parts.name all_components in
    let last : last_of (split p) ≡ parts.name =
      ap last_of parts.cut ∙ last_of-append parts.dirs parts.name in
    record {
      dirs = parts.dirs;
      name = parts.name;
      path = parts.path;
      directories = dirs;
      file = name;
      shallow = omega (
        arith,
        h.shallow,
        length-split p,
        ap length parts.cut,
        length-append parts.dirs (parts.name ∷ []),
      );
      short = omega (arith, h.short);
      data_file =
          extensions-IsData parts.name
            (subst (λ n. any (has_suffix (to_lower n)) code_extensions ≡ false) last h.data_file);
    }

relative_name : (c q : Bytes) → c ≢ [] → all name_byte c ≡ true → starts_absolute (c ++ q) ≡ false
relative_name [] q some h = absurd (some refl)
relative_name (b ∷ c) q some h = ground arith

relative_joined :
    (dirs : List Bytes) (name : Bytes)
    → All IsComponent dirs
    → IsComponent name
    → starts_absolute (joined dirs name) ≡ false
relative_joined [] [] h k = refl
relative_joined [] (b ∷ name) h k = let bytes = bytes-name_byte (b ∷ name) k.bytes in ground arith
relative_joined (d ∷ dirs) name h k =
    relative_name d (slash ∷ joined dirs name) h.0.nonempty (bytes-name_byte d h.0.bytes)

IsArtifactPath-Passes : (p : Bytes) → IsArtifactPath p → Passes p
IsArtifactPath-Passes p h =
    let bytes = components-name_byte h.dirs h.directories in
    let name_bytes = bytes-name_byte h.name h.file.bytes in
    let cut : split p ≡ h.dirs ++ h.name ∷ [] =
      ap split h.path ∙ split-joined h.dirs h.name bytes name_bytes in
    let last : last_of (split p) ≡ h.name = ap last_of cut ∙ last_of-append h.dirs h.name in
    record {
      short = omega (arith, h.short);
      relative = ap starts_absolute h.path ∙ relative_joined h.dirs h.name h.directories h.file;
      charset = ap (all path_byte) h.path ∙ joined-all h.dirs h.name bytes name_bytes;
      shallow =
          omega
            (arith, h.shallow, length-split p, ap length cut, length-append h.dirs (h.name ∷ []));
      components = subst (All PassesComponent) (sym cut) (
          All-append PassesComponent h.dirs (h.name ∷ []) (components-Passes h.dirs h.directories)
            (IsComponent-PassesComponent h.name h.file, tt));
      data_file =
          subst (λ n. any (has_suffix (to_lower n)) code_extensions ≡ false) (sym last)
            (IsData-extensions h.name h.data_file);
    }

-- ValidatePath accepts exactly the paths of at most 2048 bytes that join, by single slashes, at most
-- eight components of 1 to 255 letters, digits, dots, underscores and dashes, where no component is "."
-- or starts with ".." or "._", and the last one does not end, in any case of its letters, in one of
-- the ten extensions of code.
pub validate_path_iff : (p : Bytes) → (validate_path p ≡ ok tt) ↔ IsArtifactPath p
validate_path_iff p = (
  λ h. Passes-IsArtifactPath p ((validate_path-Passes p).0 h),
  λ h. (validate_path-Passes p).1 (IsArtifactPath-Passes p h),
)
