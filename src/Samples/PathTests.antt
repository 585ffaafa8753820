-- ===== src/Samples/PathTests.antt =====
-- The theorems on artifact paths (artifact/v1) and link addresses (net/v1alpha1) at concrete values.
use apis.Artifact.MediaType
use apis.Artifact.Allow.{
  allow_set_for, allows_layer, allows_type, rule, rule_among, image_volume_allow_set,
  guest_allow_set,
}
use apis.Artifact.Allow.Closed.{allows_layer-allow_set_for}
use apis.Prelude.{
  false, str_eq, ◌≡◌, ◌≢◌, ◌↔◌, refl, pos, none, List, [], ◌∷◌, ◌++◌, Bytes, codes, arith,
  if◌then◌else◌, leb_ℤ, bytes_eq, has_prefix, has_suffix,
}
use apis.Prelude.Outcomes.{ok}
use apis.Artifact.Path.{
  validate_path, validate_path_set, to_lower, slash, path_byte, slashes, split, check_component,
  check_components, last_of, check_each, directories, check_directories,
}
use apis.Artifact.Path.Valid.{IsArtifactPath, validate_path_iff}
use apis.Artifact.Path.Conflicts.{validate_path_set-distinct, validate_path_set-directory}
use apis.Net.Link.{link_ip, interconnect_slot_address, reserved, low_half_max_index}
use apis.Net.Link.Distinct.{link_ip_injective, interconnect_slot_address-link_ip}

abbrev weights : Bytes
weights = codes "model/weights.safetensors"

abbrev config : Bytes
config = codes "Config.json"

abbrev paths : List Bytes
paths = weights ∷ config ∷ []

paths-ok : validate_path_set paths ≡ ok tt
unfolding validate_path_set check_each validate_path check_directories bytes_eq path_byte slashes
    check_components split check_component has_prefix has_suffix to_lower last_of directories
paths-ok = refl

validate_path_iff_example : (validate_path weights ≡ ok tt) ↔ IsArtifactPath weights
validate_path_iff_example = validate_path_iff weights

validate_path_set-distinct_example : to_lower weights ≢ to_lower config
validate_path_set-distinct_example =
    validate_path_set-distinct paths 0 1 paths-ok (omega arith) refl refl

validate_path_set-directory_example : to_lower weights ≢ to_lower config ++ slash ∷ codes "x"
validate_path_set-directory_example =
    validate_path_set-directory paths 1 0 (codes "x") paths-ok refl refl

link_ip_injective_example : (pos 40 ≡ pos 40) × (pos 3 ≡ pos 3)
unfolding link_ip
link_ip_injective_example =
    link_ip_injective (pos 40) (pos 3) (pos 40) (pos 3) {a = reserved 255 76} refl refl

interconnect_slot_address-link_ip_example :
    interconnect_slot_address (pos 30) (pos 7)
    ≡ (if leb_ℤ (pos 30) (pos low_half_max_index) then link_ip (pos 30) (pos 7) else none)
interconnect_slot_address-link_ip_example = interconnect_slot_address-link_ip (pos 30) (pos 7)

allows_layer-allow_set_for_example :
    (str_eq MediaType.wasm_layer MediaType.model_code ≡ false)
    × (allows_type guest_allow_set MediaType.wasm_config ≡ false)
    × (str_eq MediaType.wasm_config MediaType.oci_image_config ≡ false)
unfolding allow_set_for allows_layer rule rule_among image_volume_allow_set
allows_layer-allow_set_for_example =
    allows_layer-allow_set_for (pos 1) image_volume_allow_set MediaType.wasm_config
      MediaType.wasm_layer refl refl
