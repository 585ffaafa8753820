-- ===== src/Artifact/Allow.antt =====
-- artifact/v1/allowset.go: the closed set of artifact types and
-- layers that each consumer accepts.
pub mod Closed
use apis.Prelude.{
  ℤ, pos, Bool, true, false, Option, none, some, List, [], ◌∷◌, String, str_eq, any, map,
  if◌then◌else◌, eqb_ℤ, is_some,
}
use apis.Prelude.Outcomes.{Outcome, ok, err}
use apis.Artifact.MediaType

pub record TypeRule : Type 0 where
  pub artifact_type : String
  pub layers : List String

pub record AllowSet : Type 0 where
  pub name : String
  pub rules : List TypeRule

abbrev pub model_layers : List String
model_layers = MediaType.model_weight ∷ MediaType.model_weight_config ∷ MediaType.model_doc ∷ []

unfoldable pub image_volume_allow_set : AllowSet
image_volume_allow_set = record {
  name = "image-volume";
  rules =
      record { artifact_type = MediaType.model; layers = model_layers }
      ∷ record { artifact_type = MediaType.wasm_config; layers = MediaType.wasm_layer ∷ [] }
      ∷ [];
}

unfoldable pub guest_allow_set : AllowSet
guest_allow_set = record {
  name = "guest";
  rules =
      record {
        artifact_type = MediaType.guest;
        layers = MediaType.guest_kernel ∷ MediaType.guest_initramfs ∷ [];
      }
      ∷ [];
}

pub data AllowFault : Type 0 where
  unknown_policy : AllowFault

-- AllowSetFor; ARTIFACT_POLICY_IMAGE_VOLUME is 1.
unfoldable pub allow_set_for : ℤ → Outcome AllowFault AllowSet
allow_set_for policy =
    if eqb_ℤ policy (pos 1) then ok image_volume_allow_set else err unknown_policy

unfoldable pub rule_among : String → List TypeRule → Option TypeRule
rule_among t [] = none
rule_among t (r ∷ rs) =
    let later = rule_among t rs in if str_eq r.artifact_type t then some r else later

-- AllowSet.rule
unfoldable pub rule : AllowSet → String → Option TypeRule
unfolding rule_among
rule a t = rule_among t a.rules

-- AllowSet.AllowsType
unfoldable pub allows_type : AllowSet → String → Bool
allows_type a t = is_some (rule a t)

abbrev pub contains : List String → String → Bool
contains xs x = any (λ y. str_eq y x) xs

abbrev layers_of : Option TypeRule → List String
layers_of none = []
layers_of (some r) = r.layers

-- AllowSet.AllowsLayer
unfoldable pub allows_layer : AllowSet → String → String → Bool
allows_layer a t layer = elim (rule a t) [ none ↦ false | some r ↦ contains r.layers layer ]

-- AllowSet.ArtifactTypes
unfoldable pub artifact_types : AllowSet → List String
artifact_types a = map (λ r. r.artifact_type) a.rules

-- AllowSet.LayerMediaTypes
unfoldable pub layer_media_types : AllowSet → String → List String
layer_media_types a t = layers_of (rule a t)
