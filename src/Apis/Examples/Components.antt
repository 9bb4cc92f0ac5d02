-- ===== src/Apis/Examples/Components.antt =====
-- Components, configurations and compositions of a namespace `apps`.
use wa8s.Prelude.{
  ◌≡◌, ◌≢◌, ◌↔◌, refl, String, true, false, [], ◌∷◌, none, some, starts_with, arith, eq_iff, ◌==◌,
  nonempty,
}
use wa8s.Field.{new_path, pick_one}
use wa8s.Apis.Meta.{
  ObjectMeta, Context, HasValidAnnotations, lookup, api_version_for_kind,
  validate_common_annotations,
}
use wa8s.Apis.Registries.{validate_repository_reference, validate_service_account_reference}
use wa8s.Apis.Components.{
  ComponentReference, OciReference, Component, default_component_reference, default_component,
  validate_component, validate_component_spec, validate_generic_component_spec,
  validate_oci_reference, validate_component_reference, validate_create_component,
}
use wa8s.Apis.Components.Laws.{IsValidComponentSpec, validate_component-nil_iff}
use wa8s.Apis.Components.Admission.{validate_create_component-isolates_ref}
use wa8s.Apis.Components.ConfigStore.{GenericConfigStoreSpec}
use wa8s.Apis.Components.Composition.{
  Sources, GenericCompositionSpec, spec, plain, nested, nil, cons,
  validate_generic_composition_spec,
}
use wa8s.Apis.Components.Composition.Laws.{
  IsValidComposition, validate_generic_composition_spec-nil_iff,
}

abbrev app : ObjectMeta
app = record { namespace = "apps"; name = "app"; annotations = [] }

abbrev ctx : Context
ctx = record { resource = app; env_namespace = "" }

abbrev to_lib : ComponentReference
to_lib = record { api_version = ""; kind = "Composition"; namespace = ""; name = "lib" }

abbrev referring : Component
referring = record {
  metadata = app;
  spec = record {
    generic = record { repository_ref = record { kind = ""; name = "" } };
    oci = none;
    ref = some to_lib;
  };
}

abbrev to_image : OciReference
to_image = record {
  image = "ghcr.io/app";
  service_account_ref = record { namespace = ""; name = "" };
}

abbrev copied : Component
copied = record {
  metadata = app;
  spec = record {
    generic = record { repository_ref = record { kind = ""; name = "" } };
    oci = some to_image;
    ref = none;
  };
}

-- The webhook, run on the two of them.
referring_admitted : validate_create_component ctx referring ≡ []
unfolding validate_create_component validate_component validate_common_annotations lookup
    default_component validate_component_spec validate_generic_component_spec
    validate_repository_reference validate_component_reference api_version_for_kind pick_one
referring_admitted = refl

copied_admitted : validate_create_component ctx copied ≡ []
unfolding validate_create_component validate_component validate_common_annotations lookup
    default_component validate_component_spec validate_generic_component_spec
    validate_repository_reference validate_oci_reference validate_service_account_reference pick_one
copied_admitted = refl

different : (s t : String) → (s == t) ≡ false → s ≢ t
different s t h e = ground (arith, eq_iff s t)

scoped : starts_with (default_component_reference ctx to_lib).kind "Cluster" ≡ false
unfolding default_component_reference
scoped = refl

validate_create_component-isolates_ref_example :
    (default_component_reference ctx to_lib).namespace ≡ "apps"
validate_create_component-isolates_ref_example =
    validate_create_component-isolates_ref ctx referring to_lib referring_admitted refl
      (nonempty "apps" refl) (different "apps" "wa8s-system" refl) scoped

known_kind : api_version_for_kind (default_component_reference ctx to_lib).kind ≢ ""
unfolding default_component_reference api_version_for_kind lookup
known_kind = nonempty "wa8s.reconciler.io/v1alpha1" refl

validate_component-nil_iff_example :
    (validate_component ctx (new_path "") copied ≡ [])
    ↔ (HasValidAnnotations app × IsValidComponentSpec ctx copied.spec)
validate_component-nil_iff_example = validate_component-nil_iff ctx (new_path "") copied

abbrev config : GenericConfigStoreSpec
config = record {
  values_from = record { name = "settings"; prefix = "" } ∷ [];
  values = record { name = "level"; value = "debug"; value_from = none } ∷ [];
}

abbrev configured : Sources
configured = record { ref = none; config = some config; oci = none }

abbrev referred : Sources
referred = record { ref = some to_lib; config = none; oci = none }

abbrev composition : GenericCompositionSpec
composition = spec "" true (
    cons (plain "app" referred) (
      cons
        (nested "parts" (record { ref = none; config = none; oci = none })
          (spec "let a = new b {};" false
            (cons (plain "x" configured) (cons (plain "y" referred) nil))))
        nil))

validate_generic_composition_spec-nil_iff_example :
    (validate_generic_composition_spec ctx (new_path "spec") composition ≡ [])
    ↔ IsValidComposition ctx composition
validate_generic_composition_spec-nil_iff_example =
    validate_generic_composition_spec-nil_iff ctx (new_path "spec") composition
