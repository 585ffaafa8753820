-- ===== src/Artifact/Allow/Closed.antt =====
-- What the allow-sets of artifact/v1/allowset.go never admit.
use apis.Prelude.{
  ℤ, pos, ◌≡◌, refl, sym, ap, ◌∙◌, Bool, true, false, String, str_eq, str_eq_iff, eqb_ℤ, Bool-cases,
  inl, inr, subst, arith,
}
use apis.Prelude.Outcomes.{ok}
use apis.Artifact.MediaType
use apis.Artifact.Allow.{
  AllowSet, image_volume_allow_set, guest_allow_set, allow_set_for, rule_among, rule, allows_type,
  allows_layer,
}

allow_set_for-eq-ok :
    (policy : ℤ) (set : AllowSet) → allow_set_for policy ≡ ok set → set ≡ image_volume_allow_set
unfolding allow_set_for
allow_set_for-eq-ok policy set h = elim (Bool-cases (eqb_ℤ policy (pos 1))) [
  | inl volume ↦ cc (h, volume)
  | inr other ↦ absurd (cc (h, other))
]

image_volume-no_code :
    (t : String) → allows_layer image_volume_allow_set t MediaType.model_code ≡ false
unfolding allows_layer rule rule_among image_volume_allow_set
image_volume-no_code t = ground arith

image_volume-no_guest :
    (layer : String) → allows_layer image_volume_allow_set MediaType.guest layer ≡ false
unfolding allows_layer rule rule_among image_volume_allow_set
image_volume-no_guest layer = refl

image_volume-no_image :
    (layer : String) → allows_layer image_volume_allow_set MediaType.oci_image_config layer ≡ false
unfolding allows_layer rule rule_among image_volume_allow_set
image_volume-no_image layer = refl

guest-only : (t : String) → allows_type guest_allow_set t ≡ true → MediaType.guest ≡ t
unfolding allows_type rule rule_among guest_allow_set
guest-only t h = elim (Bool-cases (str_eq MediaType.guest t)) [
  | inl guest ↦ (str_eq_iff MediaType.guest t).0 guest
  | inr other ↦ ground arith
]

apart : (b : Bool) → (b ≡ true → true ≡ false) → b ≡ false
apart false refute = refl
apart true refute = refute refl

-- Whatever policy a request names, a layer that the allow-set of AllowSetFor admits is not model code,
-- and its artifact type is neither one that GuestAllowSet has nor the type of an OCI image.
pub allows_layer-allow_set_for :
    (policy : ℤ) (set : AllowSet) (t layer : String)
    → allow_set_for policy ≡ ok set
    → allows_layer set t layer ≡ true
    → (str_eq layer MediaType.model_code ≡ false)
      × (allows_type guest_allow_set t ≡ false)
      × (str_eq t MediaType.oci_image_config ≡ false)
allows_layer-allow_set_for policy set t layer chosen h =
    let admitted : allows_layer image_volume_allow_set t layer ≡ true =
      subst (λ a. allows_layer a t layer ≡ true) (allow_set_for-eq-ok policy set chosen) h in
    (
      apart (str_eq layer MediaType.model_code) (λ code.
          sym admitted
          ∙ ap (allows_layer image_volume_allow_set t)
              ((str_eq_iff layer MediaType.model_code).0 code)
          ∙ image_volume-no_code t),
      apart (allows_type guest_allow_set t) (λ guest.
          sym admitted
          ∙ ap (λ u. allows_layer image_volume_allow_set u layer) (sym (guest-only t guest))
          ∙ image_volume-no_guest layer),
      apart (str_eq t MediaType.oci_image_config) (λ image.
          sym admitted
          ∙ ap (λ u. allows_layer image_volume_allow_set u layer)
              ((str_eq_iff t MediaType.oci_image_config).0 image)
          ∙ image_volume-no_image layer),
    )
