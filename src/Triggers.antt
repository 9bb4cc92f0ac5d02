-- ===== src/Triggers.antt =====
-- controllers/duck_controller.go: `ComponentContainerImageChildReconciler`, the child that every
-- trigger starts with, and the resource that the trigger controllers reconcile.
pub mod Workloads
pub mod Steps
pub mod Jobs
pub mod Laws
pub mod Admitted
mod Examples
use Prim.Native.String
use wa8s.Prelude.{
  String, Bool, true, false, not, eqb, List, [], ◌∷◌, ◌++◌, Option, none, some, if◌then◌else◌, ◌==◌,
}
use wa8s.Reconcile.{
  Mark, ConditionStatus, is_true, is_false, is_unknown, ApiError, Outcome, done, fails, durable,
  generation_mismatch, transient, Observed, marked,
}
use wa8s.Apis.Meta.{ObjectMeta}
use wa8s.Apis.Registries.Image.{ImageReference}
use wa8s.Apis.Containers.{GenericContainerSpec, ComponentContainerImage}
use wa8s.Trace.{ComponentSpan, Trace, nil, cons}
use wa8s.Controllers.{Wit}
use wa8s.Services.Lifecycle.Children.{MergeMaps}

abbrev pub Labels : Type 0
Labels = List (String × String)

-- A trigger: `image`, `wit` and `trace` are its status of a component.
pub record Container : Type 0 where
  pub metadata : ObjectMeta
  pub labels : Labels
  pub spec : GenericContainerSpec
  pub image : String
  pub wit : Option Wit
  pub trace : Trace
  pub url : String
  pub marks : List Mark

pub record ImageChild : Type 0 where
  pub generate_name : String
  pub labels : Labels
  pub image : ComponentContainerImage

-- The label that a trigger puts on each of its children, among its own.
abbrev pub child_labels : MergeMaps → String → Container → Labels
child_labels merge_maps key r = merge_maps r.labels ((key, r.metadata.name) ∷ [])

-- `DesiredChild`
unfoldable pub desired_image : MergeMaps → String → ImageReference → Container → ImageChild
desired_image merge_maps key image_ref r = record {
  generate_name = String.◌++◌ r.metadata.name "-";
  labels = child_labels merge_maps key r;
  image = record {
    metadata = record { namespace = r.metadata.namespace; name = ""; annotations = [] };
    spec = record { generic = r.spec.generic; ref = r.spec.ref; image_ref = image_ref };
  };
}

abbrev pub mark_container : Container → String → ConditionStatus → String → Container
mark_container r condition status reason = record r {
  marks = marked r.marks condition status reason;
}

-- A container image as it is read back, with the span that `SynthesizeSpan` makes of it.
pub record ImageStatus : Type 0 where
  pub observed : Observed
  pub image : String
  pub wit : Option Wit
  pub span : ComponentSpan

-- `ReflectChildStatusOnParentWithError`: a child that is not ready and one whose readiness is not
-- known are marked alike. The trace of the child is replaced by its span.
unfoldable pub reflect_image :
    String → Container → Option ApiError → Option ImageStatus → Container × Outcome
reflect_image condition r (some e) child =
    if e.is_invalid
    then (mark_container r condition is_false "Invalid", fails (transient e.text))
    else (mark_container r condition is_unknown "Unknown", fails (transient e.text))
reflect_image condition r none none = (mark_container r condition is_false "Missing", fails durable)
reflect_image condition r none (some child) =
    if not (eqb child.observed.generation child.observed.observed_generation)
    then (mark_container r condition is_unknown "Blocked", fails generation_mismatch)
    else if not child.observed.ready_is_true
    then (mark_container r condition is_unknown "NotReady", fails durable)
    else if child.image == ""
    then (mark_container r condition is_false "ImageMissing", fails durable)
    else (
      record (mark_container r condition is_true "Ready") {
        image = child.image;
        wit = child.wit;
        trace = cons child.span nil;
      },
      done,
    )
