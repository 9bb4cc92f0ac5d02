-- ===== src/Triggers/Workloads.antt =====
-- internal/controllers/httptrigger_controller.go and wrpctrigger_controller.go: the deployment and
-- the service of a trigger. The two files differ in what `Protocol` names.
use Prim.Native.String
use wa8s.Prelude.{
  ℕ, ltb, String, not, eqb, ◌&&◌, List, [], ◌∷◌, ◌++◌, Option, none, some, if◌then◌else◌, ◌==◌,
}
use wa8s.Reconcile.{
  is_true, is_false, is_unknown, ApiError, Outcome, done, fails, durable, generation_mismatch,
  transient,
}
use wa8s.Apis.Containers.{HostCapabilities}
use wa8s.Apis.Containers.Args.{wasmtime_args, wrpc_wasmtime_args}
use wa8s.Services.Lifecycle.Children.{MergeMaps}
use wa8s.Triggers.{Labels, Container, child_labels, mark_container}

-- What a kind of trigger serves: the name of its container and of its port, the command with its
-- arguments, the ports of the container and of the service, and the address of a service from its
-- name and its namespace.
pub record Protocol : Type 0 where
  pub name : String
  pub command : String
  pub args : HostCapabilities → List String
  pub container_port : ℕ
  pub service_port : ℕ
  pub url : String → String → String

unfoldable pub http : Protocol
http = record {
  name = "http";
  command = "wasmtime";
  args = λ c.
      ("serve" ∷ [])
      ++ wasmtime_args c
      ++ ("-Scli" ∷ "-Opooling-allocator=n" ∷ "--addr=0.0.0.0:8080" ∷ "/component.wasm" ∷ []);
  container_port = 8080;
  service_port = 80;
  url = λ name namespace.
      String.◌++◌ "http://"
        (String.◌++◌ name (String.◌++◌ "." (String.◌++◌ namespace ".svc.cluster.local")));
}

unfoldable pub wrpc : Protocol
wrpc = record {
  name = "wrpc";
  command = "wrpc-wasmtime";
  args = λ c.
      ("tcp" ∷ "serve" ∷ [])
      ++ wrpc_wasmtime_args c
      ++ ("--import=0.0.0.0:7761" ∷ "--export=0.0.0.0:7761" ∷ "/component.wasm" ∷ []);
  container_port = 7761;
  service_port = 7761;
  url = λ name namespace.
      String.◌++◌ name (String.◌++◌ "." (String.◌++◌ namespace ".svc.cluster.local:7761"));
}

pub record Port : Type 0 where
  pub name : String
  pub protocol : String
  pub port : ℕ

-- The one container of a pod, with the ports that its probes connect to.
pub record PodContainer : Type 0 where
  pub name : String
  pub image : String
  pub command : List String
  pub args : List String
  pub ports : List Port
  pub readiness : String
  pub liveness : String
  pub startup : String

pub record Deployment : Type 0 where
  pub namespace : String
  pub generate_name : String
  pub labels : Labels
  pub selector : Labels
  pub pod_labels : Labels
  pub container : PodContainer

abbrev pub deployment_of : Protocol → MergeMaps → String → Container → Deployment
deployment_of p merge_maps key r = record {
  namespace = r.metadata.namespace;
  generate_name = String.◌++◌ r.metadata.name "-";
  labels = child_labels merge_maps key r;
  selector = (key, r.metadata.name) ∷ [];
  pod_labels = (key, r.metadata.name) ∷ [];
  container = record {
    name = p.name;
    image = r.image;
    command = p.command ∷ [];
    args = p.args r.spec.host_capabilities;
    ports = record { name = p.name; protocol = "TCP"; port = p.container_port } ∷ [];
    readiness = p.name;
    liveness = p.name;
    startup = p.name;
  };
}

-- `DesiredChild` of `HttpDeploymentChildReconciler` and `WrpcDeploymentChildReconciler`
unfoldable pub desired_deployment : Protocol → MergeMaps → String → Container → Option Deployment
desired_deployment p merge_maps key r =
    if r.image == "" then none else some (deployment_of p merge_maps key r)

-- A deployment as it is read back. Kubernetes counts no replicas below zero.
pub record DeploymentStatus : Type 0 where
  pub generation : ℕ
  pub observed_generation : ℕ
  pub ready_replicas : ℕ
  pub updated_replicas : ℕ

-- `ReflectChildStatusOnParentWithError`: a deployment that is not ready yet is no error.
unfoldable pub reflect_deployment :
    Container → Option ApiError → Option DeploymentStatus → Container × Outcome
reflect_deployment r (some e) child =
    if e.is_invalid
    then (mark_container r "DeploymentReady" is_false "Invalid", fails (transient e.text))
    else (mark_container r "DeploymentReady" is_unknown "Unknown", fails (transient e.text))
reflect_deployment r none none =
    (mark_container r "DeploymentReady" is_false "Missing", fails durable)
reflect_deployment r none (some child) =
    if not (eqb child.generation child.observed_generation)
    then (mark_container r "DeploymentReady" is_unknown "Blocked", fails generation_mismatch)
    else if ltb 0 child.ready_replicas && ltb 0 child.updated_replicas
    then (mark_container r "DeploymentReady" is_true "Ready", done)
    else (mark_container r "DeploymentReady" is_unknown "NotReady", done)

-- `cluster_ips` is kept from the current service by `HarmonizeImmutableFields`.
pub record Service : Type 0 where
  pub namespace : String
  pub name : String
  pub labels : Labels
  pub type : String
  pub selector : Labels
  pub protocol : String
  pub port : ℕ
  pub target_port : String
  pub cluster_ip : String
  pub cluster_ips : List String

abbrev pub service_of : Protocol → MergeMaps → String → Container → Service
service_of p merge_maps key r = record {
  namespace = r.metadata.namespace;
  name = String.◌++◌ r.metadata.name "-trigger";
  labels = child_labels merge_maps key r;
  type = "ClusterIP";
  selector = (key, r.metadata.name) ∷ [];
  protocol = "TCP";
  port = p.service_port;
  target_port = p.name;
  cluster_ip = "";
  cluster_ips = [];
}

-- `DesiredChild` of `HttpServiceChildReconciler` and `WrpcServiceChildReconciler`
unfoldable pub desired_service : Protocol → MergeMaps → String → Container → Option Service
desired_service p merge_maps key r =
    if r.image == "" then none else some (service_of p merge_maps key r)

-- `HarmonizeImmutableFields`
unfoldable pub harmonize_service : Service → Service → Service
harmonize_service current desired = record desired {
  cluster_ip = current.cluster_ip;
  cluster_ips = current.cluster_ips;
}

-- `MergeBeforeUpdate`: the labels and the spec of the desired service.
unfoldable pub merge_service : Service → Service → Service
merge_service current desired = record desired {
  namespace = current.namespace;
  name = current.name;
}

-- `ReflectChildStatusOnParentWithError`, with the name and the namespace of the service.
unfoldable pub reflect_service :
    Protocol → Container → Option ApiError → Option (String × String) → Container × Outcome
reflect_service p r (some e) child =
    if e.is_invalid
    then (mark_container r "ServiceReady" is_false "Invalid", fails (transient e.text))
    else if e.is_already_exists
    then (mark_container r "ServiceReady" is_false "AlreadyExists", fails durable)
    else (mark_container r "ServiceReady" is_unknown "Unknown", fails (transient e.text))
reflect_service p r none none = (mark_container r "ServiceReady" is_false "Missing", fails durable)
reflect_service p r none (some (name, namespace)) = (
  record (mark_container r "ServiceReady" is_true "Created") { url = p.url name namespace },
  done,
)

-- The sub reconcilers of wrpctrigger_controller.go are those above for its protocol.
abbrev pub desired_wrpc_deployment : MergeMaps → String → Container → Option Deployment
desired_wrpc_deployment = desired_deployment wrpc

abbrev pub desired_wrpc_service : MergeMaps → String → Container → Option Service
desired_wrpc_service = desired_service wrpc

abbrev pub reflect_wrpc_service :
    Container → Option ApiError → Option (String × String) → Container × Outcome
reflect_wrpc_service = reflect_service wrpc
