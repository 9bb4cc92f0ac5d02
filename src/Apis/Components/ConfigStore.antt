-- ===== src/Apis/Components/ConfigStore.antt =====
-- apis/components/v1alpha1/configstore_webhook.go.
pub mod Laws
use wa8s.Prelude.{
  String, not, ◌&&◌, List, [], ◌++◌, Option, none, map, if◌then◌else◌, ◌==◌, is_some,
}
use wa8s.Field.{FieldPath, ErrorList, new_path, child, require, when_error, invalid, validate_each}
use wa8s.Apis.Meta.{ObjectMeta, Context, stash_resource, validate_common_annotations}
use wa8s.Apis.Components.{
  GenericComponentSpec, default_generic_component_spec, validate_generic_component_spec,
  default_present, validate_present,
}

pub record ValuesFrom : Type 0 where
  pub name : String
  pub prefix : String

pub record ValueFrom : Type 0 where
  pub name : String
  pub key : String

pub record Value : Type 0 where
  pub name : String
  pub value : String
  pub value_from : Option ValueFrom

pub record GenericConfigStoreSpec : Type 0 where
  pub values_from : List ValuesFrom
  pub values : List Value

unfoldable pub default_values_from : Context → ValuesFrom → ValuesFrom
default_values_from ctx r = record r { name = if r.name == "" then ctx.resource.name else r.name }

unfoldable pub default_value_from : Context → ValueFrom → ValueFrom
default_value_from ctx r = record r { name = if r.name == "" then ctx.resource.name else r.name }

unfoldable pub default_value : Context → Value → Value
unfolding default_value_from
default_value ctx r = record r {
  value_from = default_present (default_value_from ctx) r.value_from;
}

unfoldable pub default_generic_config_store_spec :
    Context → GenericConfigStoreSpec → GenericConfigStoreSpec
unfolding default_values_from default_value
default_generic_config_store_spec ctx r = record {
  values_from = map (default_values_from ctx) r.values_from;
  values = map (default_value ctx) r.values;
}

unfoldable pub validate_values_from : ValuesFrom → FieldPath → ErrorList
validate_values_from r p = require r.name (child p "name")

unfoldable pub validate_value_from : FieldPath → ValueFrom → ErrorList
validate_value_from p r = require r.name (child p "name") ++ require r.key (child p "key")

unfoldable pub validate_value : Value → FieldPath → ErrorList
unfolding validate_value_from
validate_value r p =
    require r.name (child p "name")
    ++ when_error (not (r.value == "") && is_some r.value_from)
        (invalid p none "value and valueFrom are mutually exclusive")
    ++ validate_present (validate_value_from (child p "valueFrom")) r.value_from

unfoldable pub validate_generic_config_store_spec : FieldPath → GenericConfigStoreSpec → ErrorList
validate_generic_config_store_spec p r =
    validate_each validate_value (child p "values") 0 r.values
    ++ validate_each validate_values_from (child p "valuesFrom") 0 r.values_from

pub record ConfigStoreSpec : Type 0 where
  pub generic : GenericComponentSpec
  pub config : GenericConfigStoreSpec

unfoldable pub default_config_store_spec : Context → ConfigStoreSpec → ConfigStoreSpec
unfolding default_generic_component_spec default_generic_config_store_spec
default_config_store_spec ctx r = record {
  generic = default_generic_component_spec r.generic;
  config = default_generic_config_store_spec ctx r.config;
}

unfoldable pub validate_config_store_spec : FieldPath → ConfigStoreSpec → ErrorList
validate_config_store_spec p r =
    validate_generic_component_spec p r.generic ++ validate_generic_config_store_spec p r.config

pub record ConfigStore : Type 0 where
  pub metadata : ObjectMeta
  pub spec : ConfigStoreSpec

unfoldable pub default_config_store : Context → ConfigStore → ConfigStore
unfolding default_config_store_spec
default_config_store ctx r = record r {
  spec = default_config_store_spec (stash_resource ctx r.metadata) r.spec;
}

unfoldable pub validate_config_store : FieldPath → ConfigStore → ErrorList
validate_config_store p r =
    validate_common_annotations p r.metadata ++ validate_config_store_spec (child p "spec") r.spec

-- `ValidateCreate`, and `ValidateUpdate` of the new object.
unfoldable pub validate_create_config_store : Context → ConfigStore → ErrorList
validate_create_config_store ctx obj =
    validate_config_store (new_path "") (default_config_store ctx obj)
