-- ===== src/Services/Binding/ClientComponent.antt =====
-- integrations/services/internal/controllers/servicebinding_controller.go: `ConfigureClientComponent`,
-- the composition that a bound client imports, and how its status is reflected.
pub mod Admitted
use Prim.Native.String
use wa8s.Prelude.{
  String, Bool, true, false, not, eqb, List, [], ◌∷◌, ◌++◌, Option, none, some, if◌then◌else◌, ◌==◌,
}
use wa8s.Reconcile.{
  Mark, ConditionStatus, is_true, is_false, is_unknown, ApiError, Outcome, done, fails, durable,
  transient, generation_mismatch, Observed, marked,
}
use wa8s.Apis.Meta.{ObjectMeta, services_v1alpha1}
use wa8s.Apis.Components.{ComponentReference, GenericComponentSpec}
use wa8s.Apis.Components.ConfigStore.{GenericConfigStoreSpec, Value}
use wa8s.Apis.Components.Composition.{
  Sources, GenericCompositionSpec, Dependencies, CompositionDependency, spec, nil, cons, plain,
  nested, Composition,
}
use wa8s.Apis.Services.Instance.{ServiceLifecycleReference}
use wa8s.Services.Binding.{Binding}

abbrev pub no_reference : ComponentReference
no_reference = record { api_version = ""; kind = ""; namespace = ""; name = "" }

abbrev pub ref_source : ComponentReference → Sources
ref_source r = record { ref = some r; config = none; oci = none }

abbrev pub lifecycle_reference : ServiceLifecycleReference → ComponentReference
lifecycle_reference ref = record {
  api_version = services_v1alpha1;
  kind = ref.kind;
  namespace = ref.namespace;
  name = ref.name;
}

abbrev pub cluster_component : String → ComponentReference
cluster_component name = record no_reference { kind = "ClusterComponent"; name = name }

abbrev pub binding_id_source : String → Sources
binding_id_source id = record {
  ref = none;
  config = some (record {
    values_from = [];
    values = record { name = "binding-id"; value = id; value_from = none } ∷ [];
  });
  oci = none;
}

abbrev pub no_sources : Sources
no_sources = record { ref = none; config = none; oci = none }

abbrev pub credentials_composition : String → GenericCompositionSpec
credentials_composition id = spec "" false (
    cons
      (plain "componentized:credential-config"
        (ref_source (cluster_component "wa8s-services-credential-config")))
      (cons
        (plain "componentized:credential-store"
          (ref_source (cluster_component "wa8s-services-credential-store")))
        (cons (plain "componentized:binding-id" (binding_id_source id)) nil)))

abbrev pub client_composition : ServiceLifecycleReference → String → GenericCompositionSpec
client_composition ref id = spec "" false (
    cons (plain "componentized:service-lifecycle-client" (ref_source (lifecycle_reference ref))) (
      cons (nested "componentized:service-credentials" no_sources (credentials_composition id))
        nil))

pub record ClientChild : Type 0 where
  pub generate_name : String
  pub labels : List (String × String)
  pub composition : Composition

-- `DesiredChild`, with the reference that `ResolveServiceInstanceId` stashed; `merge_maps` stands
-- for `reconcilers.MergeMaps`.
unfoldable pub desired_client :
    (List (String × String) → List (String × String) → List (String × String))
    → ServiceLifecycleReference
    → Binding
    → ClientChild
desired_client merge_maps ref b = record {
  generate_name = String.◌++◌ b.name "-";
  labels = merge_maps b.labels (("services.wa8s.reconciler.io/service-binding", b.name) ∷ []);
  composition = record {
    metadata = record { namespace = b.namespace; name = ""; annotations = [] };
    spec = record {
      generic = record { repository_ref = record { kind = ""; name = "" } };
      composition = client_composition ref b.service_binding_id;
    };
  };
}

-- The composition as it is read back.
pub record ClientStatus : Type 0 where
  pub observed : Observed
  pub image : String

abbrev mark_client : Binding → ConditionStatus → String → Binding
mark_client b status reason = record b { marks = marked b.marks "ClientReady" status reason }

-- `ReflectChildStatusOnParentWithError`: of the component's status only the image is kept here.
unfoldable pub reflect_client : Binding → Option ApiError → Option ClientStatus → Binding × Outcome
reflect_client b (some e) child = (
  if e.is_invalid then mark_client b is_false "Invalid" else mark_client b is_unknown "Unknown",
  fails (transient e.text),
)
reflect_client b none none = (mark_client b is_false "Missing", fails durable)
reflect_client b none (some child) =
    if not (eqb child.observed.generation child.observed.observed_generation)
    then (mark_client b is_unknown "Blocked", fails generation_mismatch)
    else if not child.observed.ready_is_true
    then (
      mark_client b (if child.observed.ready_is_false then is_false else is_unknown) "NotReady",
      fails durable,
    )
    else if child.image == ""
    then (mark_client b is_false "ImageMissing", fails durable)
    else (record (mark_client b is_true "Ready") { image = child.image }, done)

-- `MergeBeforeUpdate`
abbrev pub merge_client : ClientChild → ClientChild → ClientChild
merge_client current desired = record current {
  labels = desired.labels;
  composition = record current.composition { spec = desired.composition.spec };
}
