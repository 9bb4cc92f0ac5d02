-- ===== src/Triggers/Steps.antt =====
-- internal/controllers/httptrigger_controller.go and wrpctrigger_controller.go: the three children of
-- a trigger in the order of its reconciler, which stops at the first error.
use wa8s.Prelude.{String, Option, none, some}
use wa8s.Reconcile.{ApiError, Outcome, done, fails, panics}
use wa8s.Apis.Registries.Image.{ImageReference}
use wa8s.Services.Lifecycle.Children.{MergeMaps}
use wa8s.Triggers.{Container, ImageStatus, reflect_image}
use wa8s.Triggers.Workloads.{
  Protocol, Deployment, DeploymentStatus, Service, desired_deployment, reflect_deployment,
  desired_service, reflect_service,
}

-- The base image of a trigger.
abbrev pub base_image : String → ImageReference
base_image name = record { kind = "ClusterImage"; namespace = ""; name = name }

-- The outcomes of creating or updating each child.
pub record Turn : Type 0 where
  pub image_error : Option ApiError
  pub image : Option ImageStatus
  pub deployment_error : Option ApiError
  pub deployment : Option DeploymentStatus
  pub service_error : Option ApiError
  pub service : Option (String × String)

-- `deployed` and `served` are what the steps asked for as their child, if they ran: when they asked
-- for none, a child that exists is deleted.
pub record Run : Type 0 where
  pub container : Container
  pub deployed : Option (Option Deployment)
  pub served : Option (Option Service)
  pub outcome : Outcome

abbrev pub image_condition : String
image_condition = "ComponentContainerImageReady"

module _ (p : Protocol) (merge_maps : MergeMaps) (key : String) (t : Turn) where
  abbrev pub serve : Option Deployment → Container → Run
  serve d r =
      let (r', o) = reflect_service p r t.service_error t.service in
      record {
        container = r';
        deployed = some d;
        served = some (desired_service p merge_maps key r);
        outcome = o;
      }

  abbrev pub after_deployment : Option Deployment → Container × Outcome → Run
  after_deployment d (r, done) = serve d r
  after_deployment d (r, fails e) = record {
    container = r;
    deployed = some d;
    served = none;
    outcome = fails e;
  }
  after_deployment d (r, panics) = record {
    container = r;
    deployed = some d;
    served = none;
    outcome = panics;
  }

  abbrev pub after_image : Container × Outcome → Run
  after_image (r, done) =
      after_deployment (desired_deployment p merge_maps key r)
        (reflect_deployment r t.deployment_error t.deployment)
  after_image (r, fails e) = record {
    container = r;
    deployed = none;
    served = none;
    outcome = fails e;
  }
  after_image (r, panics) = record {
    container = r;
    deployed = none;
    served = none;
    outcome = panics;
  }

  -- `HttpTriggerReconciler` and `WrpcTriggerReconciler`
  unfoldable pub sync_trigger : Container → Run
  sync_trigger r = after_image (reflect_image image_condition r t.image_error t.image)
