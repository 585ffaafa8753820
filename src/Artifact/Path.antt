-- ===== src/Artifact/Path.antt =====
-- ValidatePath and ValidatePathSet of artifact/v1/path.go. A path is its bytes; an error is its
-- sentinel. strings.ToLower meets ASCII only, since the bytes are checked first.
pub mod Checks
pub mod Parts
pub mod Names
pub mod Valid
pub mod Conflicts
use apis.Prelude.{
  ℕ, suc, ◌+◌, ◌*◌, Bool, true, false, not, ◌&&◌, ◌||◌, List, [], ◌∷◌, map, if◌then◌else◌, ltb, leb,
  ◌==◌, length, all, any, Bytes, codes, bytes_eq, has_prefix, has_suffix,
}
use apis.Prelude.Outcomes.{Outcome, ok, err, ◌>>=◌, ◌>>◌}

pub data PathFault : Type 0 where
  empty_path absolute_path path_charset path_component reserved_component : PathFault
  path_too_long path_depth component_too_long code_file : PathFault
  duplicate_path case_collision file_dir_conflict too_many_paths : PathFault

abbrev pub max_path_depth : ℕ
max_path_depth = 8

abbrev pub max_component_bytes : ℕ
max_component_bytes = 255

abbrev pub max_path_bytes : ℕ
max_path_bytes = max_path_depth * (max_component_bytes + 1)

abbrev pub max_paths : ℕ
max_paths = 4096

abbrev pub code_extensions : List Bytes
code_extensions =
    codes ".py"
    ∷ codes ".pyc"
    ∷ codes ".bin"
    ∷ codes ".pt"
    ∷ codes ".pth"
    ∷ codes ".pkl"
    ∷ codes ".pickle"
    ∷ codes ".ckpt"
    ∷ codes ".so"
    ∷ codes ".dylib"
    ∷ []

-- The byte '/'.
abbrev pub slash : ℕ
slash = 47

-- pathByte
unfoldable pub path_byte : ℕ → Bool
path_byte b =
    leb 97 b && leb b 122
    || leb 65 b && leb b 90
    || leb 48 b && leb b 57
    || (b == 46 || b == 95 || b == 45 || b == slash)

-- strings.ToLower
unfoldable pub to_lower : Bytes → Bytes
to_lower s = map (λ b. if leb 65 b && leb b 90 then b + 32 else b) s

-- strings.Count(p, "/")
unfoldable pub slashes : Bytes → ℕ
slashes [] = 0
slashes (b ∷ s) = if b == slash then suc (slashes s) else slashes s

-- A byte before the first of the components.
unfoldable pub onto_first : ℕ → List Bytes → List Bytes
onto_first b [] = (b ∷ []) ∷ []
onto_first b (c ∷ rest) = (b ∷ c) ∷ rest

-- strings.SplitSeq(p, "/")
unfoldable pub split : Bytes → List Bytes
unfolding onto_first
split [] = [] ∷ []
split (b ∷ s) = if b == slash then [] ∷ split s else onto_first b (split s)

abbrev pub refuse : Bool → PathFault → Outcome PathFault (Unit {0})
refuse b e = if b then err e else ok tt

abbrev pub is_dots : Bytes → Bool
is_dots c = bytes_eq c [] || bytes_eq c (codes ".") || bytes_eq c (codes "..")

-- The cases of the loop over the components.
unfoldable pub check_component : Bytes → Outcome PathFault (Unit {0})
check_component c = do
  refuse (is_dots c) path_component
  refuse (has_prefix c (codes "..") || has_prefix c (codes "._")) reserved_component
  refuse (ltb max_component_bytes (length c)) component_too_long

unfoldable pub check_components : List Bytes → Outcome PathFault (Unit {0})
check_components [] = ok tt
check_components (c ∷ rest) = check_component c >> check_components rest

-- The last component.
unfoldable pub last_of : List Bytes → Bytes
last_of [] = []
last_of (c ∷ []) = c
last_of (_ ∷ c ∷ rest) = last_of (c ∷ rest)

abbrev pub starts_absolute : Bytes → Bool
starts_absolute [] = false
starts_absolute (b ∷ _) = b == slash

-- ValidatePath
unfoldable pub validate_path : Bytes → Outcome PathFault (Unit {0})
validate_path p = do
  refuse (ltb max_path_bytes (length p)) path_too_long
  refuse (bytes_eq p []) empty_path
  refuse (starts_absolute p) absolute_path
  refuse (not (all path_byte p)) path_charset
  refuse (ltb max_path_depth (slashes p + 1)) path_depth
  check_components (split p)
  refuse (any (has_suffix (to_lower (last_of (split p)))) code_extensions) code_file

-- The first loop of ValidatePathSet; `seen` are the paths of the rounds before.
unfoldable pub check_each : List Bytes → List Bytes → Outcome PathFault (Unit {0})
check_each seen [] = ok tt
check_each seen (p ∷ rest) = do
  validate_path p
  refuse (any (λ q. bytes_eq q p) seen) duplicate_path
  refuse (any (λ q. bytes_eq (to_lower q) (to_lower p)) seen) case_collision
  check_each (p ∷ seen) rest

-- The prefixes of f that end before a slash.
unfoldable pub directories : Bytes → List Bytes
directories [] = []
directories (b ∷ f) =
    let rest = map (λ d. b ∷ d) (directories f) in if b == slash then [] ∷ rest else rest

-- The second loop; `folded` are the folded paths of the set.
unfoldable pub check_directories : List Bytes → List Bytes → Outcome PathFault (Unit {0})
check_directories folded [] = ok tt
check_directories folded (p ∷ rest) =
    refuse (any (λ d. any (λ q. bytes_eq q d) folded) (directories (to_lower p))) file_dir_conflict
    >> check_directories folded rest

-- ValidatePathSet
unfoldable pub validate_path_set : List Bytes → Outcome PathFault (Unit {0})
validate_path_set paths = do
  refuse (ltb max_paths (length paths)) too_many_paths
  check_each [] paths
  check_directories (map to_lower paths) paths
