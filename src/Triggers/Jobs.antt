-- ===== src/Triggers/Jobs.antt =====
-- internal/controllers/crontrigger_controller.go: the job of a cron trigger.
use Prim.Native.String
use wa8s.Prelude.{String, List, [], ◌∷◌, ◌++◌, Option, none, some, if◌then◌else◌, ◌==◌}
use wa8s.Reconcile.{is_true, is_false, is_unknown, ApiError}
use wa8s.Apis.Containers.Args.{wasmtime_args}
use wa8s.Services.Lifecycle.Children.{MergeMaps}
use wa8s.Triggers.{Labels, Container, child_labels, mark_container}

-- A cron trigger: the resource with the three fields of its spec that are its own.
pub record Cron : Type 0 where
  pub container : Container
  pub schedule : String
  pub time_zone : Option String
  pub restart_policy : String

-- The job, whose labels are those of its template and of its pods too.
pub record CronJob : Type 0 where
  pub namespace : String
  pub generate_name : String
  pub labels : Labels
  pub job_labels : Labels
  pub pod_labels : Labels
  pub schedule : String
  pub time_zone : Option String
  pub restart_policy : String
  pub container : String
  pub image : String
  pub command : List String
  pub args : List String

abbrev pub job_of : MergeMaps → String → Cron → CronJob
job_of merge_maps key r = record {
  namespace = r.container.metadata.namespace;
  generate_name = String.◌++◌ r.container.metadata.name "-";
  labels = child_labels merge_maps key r.container;
  job_labels = child_labels merge_maps key r.container;
  pod_labels = child_labels merge_maps key r.container;
  schedule = r.schedule;
  time_zone = r.time_zone;
  restart_policy = r.restart_policy;
  container = "task";
  image = r.container.image;
  command = "wasmtime" ∷ [];
  args =
      ("run" ∷ [])
      ++ wasmtime_args r.container.spec.host_capabilities
      ++ ("-Opooling-allocator=n" ∷ "/component.wasm" ∷ []);
}

-- `DesiredChild`
unfoldable pub desired_cron_job : MergeMaps → String → Cron → Option CronJob
desired_cron_job merge_maps key r =
    if r.container.image == "" then none else some (job_of merge_maps key r)

-- `ReflectChildStatusOnParent`, which only marks; `child` says whether there is a job.
unfoldable pub reflect_cron_job : Container → Option ApiError → Option (Unit {0}) → Container
reflect_cron_job r (some e) child =
    if e.is_invalid
    then mark_container r "CronJobReady" is_false "Invalid"
    else mark_container r "CronJobReady" is_unknown "Unknown"
reflect_cron_job r none none = mark_container r "CronJobReady" is_false "Missing"
reflect_cron_job r none (some child) = mark_container r "CronJobReady" is_true "Created"
