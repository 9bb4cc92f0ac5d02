-- ===== src/Triggers/Admitted.antt =====
-- controllers/duck_controller.go: the container image of a trigger at the webhook of container images.
use wa8s.Prelude.{◌≡◌, ◌≢◌, refl, sym, String, [], arith, eq_iff}
use mathlib.Core.Path.{subst}
use wa8s.Field.{new_path, child}
use wa8s.Apis.Meta.{Context, ObjectMeta, stash_resource, lookup, validate_common_annotations}
use wa8s.Apis.Registries.Laws.{default_repository_reference_valid}
use wa8s.Apis.Registries.Image.{default_image_reference}
use wa8s.Apis.Components.{default_generic_component_spec}
use wa8s.Apis.Containers.{
  Trigger, GenericContainerSpec, default_trigger, validate_create_trigger,
  default_generic_container_spec, default_container_image, default_container_image_spec,
  validate_container_image, validate_create_container_image,
}
use wa8s.Apis.Containers.Laws.{
  IsValidContainerSpec, validate_trigger-nil_iff, validate_container_image_spec-nil_of,
}
use wa8s.Services.Lifecycle.Children.{MergeMaps, child_namespace}
use wa8s.Services.Lifecycle.Children.Admitted.{IsValidComponentReference-child}
use wa8s.Triggers.{Container, desired_image}
use wa8s.Triggers.Steps.{base_image}

-- The container image of a trigger is admitted by its webhook if the webhook of triggers admitted the
-- trigger, the trigger has a namespace, and the base image has a name.
pub desired_image-admitted :
    (merge_maps : MergeMaps) (key name : String) (ctx : Context) (r : Container)
    (given : GenericContainerSpec)
    → name ≢ ""
    → r.metadata.namespace ≢ ""
    → r.spec ≡ default_generic_container_spec (stash_resource ctx r.metadata) given
    → validate_create_trigger ctx (record { metadata = r.metadata; spec = given }) ≡ []
    → validate_create_container_image ctx (desired_image merge_maps key (base_image name) r).image
      ≡ []
unfolding lookup desired_image validate_create_trigger default_trigger
    validate_create_container_image default_container_image default_container_image_spec
    validate_container_image default_image_reference default_generic_component_spec
    validate_common_annotations
desired_image-admitted merge_maps key name ctx r given named placed d h =
    let owner = stash_resource ctx r.metadata in
    let made : ObjectMeta = record {
      namespace = r.metadata.namespace;
      name = "";
      annotations = [];
    } in
    let ctx' = stash_resource ctx made in
    let asked : Trigger = record { metadata = r.metadata; spec = given } in
    let valid : IsValidContainerSpec owner r.spec =
      subst (λ (s : GenericContainerSpec). IsValidContainerSpec owner s) (sym d)
        ((validate_trigger-nil_iff owner (new_path "") (default_trigger ctx asked)).0 h).1 in
    let place : made.namespace ≡ child_namespace ctx r.metadata.namespace =
      ground (arith, eq_iff r.metadata.namespace "") in
    let image =
      default_container_image ctx (desired_image merge_maps key (base_image name) r).image in
    let ref = IsValidComponentReference-child ctx r.metadata made r.spec.ref place valid.0.0.1 in
    let spec =
      validate_container_image_spec-nil_of ctx' (child (new_path "") "spec") image.spec
        (default_repository_reference_valid r.spec.generic.repository_ref) ref
        (refl, ground (arith, named, eq_iff name "")) in
    rw spec refl
