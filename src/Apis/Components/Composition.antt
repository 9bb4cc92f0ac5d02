-- ===== src/Apis/Components/Composition.antt =====
-- apis/components/v1alpha1/composition_webhook.go. A dependency may hold a whole composition, so the
-- two types are mutual; `Dependencies` is the slice of dependencies.
pub mod Laws
use wa8s.Prelude.{
  ℕ, suc, String, Bool, not, ◌&&◌, List, [], ◌∷◌, ◌++◌, Option, none, some, if◌then◌else◌, ◌==◌,
  is_some, ltb, true, false,
}
use wa8s.Field.{
  FieldPath, ErrorList, new_path, child, index, require, when_error, invalid, pick_one,
}
use wa8s.Apis.Meta.{ObjectMeta, Context, stash_resource, validate_common_annotations}
use wa8s.Apis.Components.{
  GenericComponentSpec, ComponentReference, OciReference, default_generic_component_spec,
  validate_generic_component_spec, default_component_reference, validate_component_reference,
  default_oci_reference, validate_oci_reference, default_present, validate_present,
}
use wa8s.Apis.Components.ConfigStore.{
  GenericConfigStoreSpec, default_generic_config_store_spec, validate_generic_config_store_spec,
}

-- The pointer fields of a dependency but `composition`.
pub record Sources : Type 0 where
  pub ref : Option ComponentReference
  pub config : Option GenericConfigStoreSpec
  pub oci : Option OciReference

mutual
  -- `spec wac plug dependencies`, where `plug` says that the pointer to the empty struct is set.
  pub data GenericCompositionSpec : Type 0 where
    spec : String → Bool → Dependencies → GenericCompositionSpec

  pub data Dependencies : Type 0 where
    nil : Dependencies
    cons : CompositionDependency → Dependencies → Dependencies

  -- `plain` has a nil `composition`, `nested` has one.
  pub data CompositionDependency : Type 0 where
    plain : String → Sources → CompositionDependency
    nested : String → Sources → GenericCompositionSpec → CompositionDependency

abbrev pub count : Dependencies → ℕ
count nil = 0
count (cons d ds) = suc (count ds)

unfoldable pub default_sources : Context → Sources → Sources
unfolding default_component_reference default_generic_config_store_spec default_oci_reference
default_sources ctx s = record {
  ref = default_present (default_component_reference ctx) s.ref;
  config = default_present (default_generic_config_store_spec ctx) s.config;
  oci = default_present (default_oci_reference ctx) s.oci;
}

-- A composition with neither a script nor a plug is plugged.
unfoldable mutual
  pub default_generic_composition_spec : Context → GenericCompositionSpec → GenericCompositionSpec
  default_generic_composition_spec ctx (spec wac plug ds) =
      spec wac (if not plug && wac == "" then true else plug) (default_dependencies ctx ds)

  pub default_dependencies : Context → Dependencies → Dependencies
  default_dependencies ctx nil = nil
  default_dependencies ctx (cons d ds) =
      cons (default_composition_dependency ctx d) (default_dependencies ctx ds)

  pub default_composition_dependency : Context → CompositionDependency → CompositionDependency
  default_composition_dependency ctx (plain name s) = plain name (default_sources ctx s)
  default_composition_dependency ctx (nested name s c) =
      nested name (default_sources ctx s) (default_generic_composition_spec ctx c)

-- The errors of the three pointers that precede `composition`.
unfoldable pub validate_sources : Context → FieldPath → Sources → ErrorList
validate_sources ctx p s =
    validate_present (validate_component_reference ctx (child p "ref")) s.ref
    ++ validate_present (validate_generic_config_store_spec (child p "config")) s.config
    ++ validate_present (validate_oci_reference ctx (child p "oci")) s.oci

abbrev pub members : Sources → Bool → List (String × Bool)
members s composition =
    ("ref", is_some s.ref)
    ∷ ("config", is_some s.config)
    ∷ ("oci", is_some s.oci)
    ∷ ("composition", composition)
    ∷ []

unfoldable mutual
  pub validate_generic_composition_spec : Context → FieldPath → GenericCompositionSpec → ErrorList
  validate_generic_composition_spec ctx p (spec wac plug ds) =
      pick_one p (("plug", plug) ∷ ("wac", not (wac == "")) ∷ [])
      ++ when_error (ltb (count ds) 2)
          (invalid (child p "dependencies") none "at least two dependencies are required")
      ++ validate_dependencies ctx (child p "dependencies") 0 ds

  pub validate_dependencies : Context → FieldPath → ℕ → Dependencies → ErrorList
  validate_dependencies ctx p i nil = []
  validate_dependencies ctx p i (cons d ds) =
      validate_composition_dependency ctx (index p i) d ++ validate_dependencies ctx p (suc i) ds

  pub validate_composition_dependency : Context → FieldPath → CompositionDependency → ErrorList
  validate_composition_dependency ctx p (plain name s) =
      require name (child p "component") ++ validate_sources ctx p s ++ pick_one p (members s false)
  validate_composition_dependency ctx p (nested name s c) =
      require name (child p "component")
      ++ validate_sources ctx p s
      ++ validate_generic_composition_spec ctx (child p "composition") c
      ++ pick_one p (members s true)

pub record CompositionSpec : Type 0 where
  pub generic : GenericComponentSpec
  pub composition : GenericCompositionSpec

unfoldable pub default_composition_spec : Context → CompositionSpec → CompositionSpec
unfolding default_generic_component_spec default_generic_composition_spec
default_composition_spec ctx r = record {
  generic = default_generic_component_spec r.generic;
  composition = default_generic_composition_spec ctx r.composition;
}

unfoldable pub validate_composition_spec : Context → FieldPath → CompositionSpec → ErrorList
validate_composition_spec ctx p r =
    validate_generic_component_spec p r.generic
    ++ validate_generic_composition_spec ctx p r.composition

pub record Composition : Type 0 where
  pub metadata : ObjectMeta
  pub spec : CompositionSpec

unfoldable pub default_composition : Context → Composition → Composition
unfolding default_composition_spec
default_composition ctx r = record r {
  spec = default_composition_spec (stash_resource ctx r.metadata) r.spec;
}

unfoldable pub validate_composition : Context → FieldPath → Composition → ErrorList
validate_composition ctx p r =
    validate_common_annotations p r.metadata
    ++ validate_composition_spec ctx (child p "spec") r.spec
