-- ===== src/Artifact/MediaType.antt =====
-- artifact/v1/mediatypes.go: the media types, and the artifact type of a manifest.
use apis.Prelude.{String, str_eq, if◌then◌else◌}

abbrev pub model : String
model = "application/vnd.cncf.model.manifest.v1+json"

abbrev pub model_weight : String
model_weight = "application/vnd.cncf.model.weight.v1.raw"

abbrev pub model_weight_config : String
model_weight_config = "application/vnd.cncf.model.weight.config.v1.raw"

abbrev pub model_doc : String
model_doc = "application/vnd.cncf.model.doc.v1.raw"

abbrev pub model_code : String
model_code = "application/vnd.cncf.model.code.v1.raw"

abbrev pub wasm_config : String
wasm_config = "application/vnd.wasm.config.v0+json"

abbrev pub wasm_layer : String
wasm_layer = "application/wasm"

abbrev pub guest : String
guest = "application/vnd.k3sm.guest.v1"

abbrev pub guest_kernel : String
guest_kernel = "application/vnd.k3sm.guest.kernel.v1.raw"

abbrev pub guest_initramfs : String
guest_initramfs = "application/vnd.k3sm.guest.initramfs.v1.raw"

abbrev pub oci_image_config : String
oci_image_config = "application/vnd.oci.image.config.v1+json"

-- ArtifactType
unfoldable pub artifact_type : String → String → String
artifact_type manifest config = if str_eq manifest "" then config else manifest
