-- ===== src/Controllers/Examples.antt =====
-- The sub reconcilers on concrete resources, with a keychain that is a number.
mod Steps
mod Configs
mod Registries
use wa8s.Prelude.{
  ℕ, ◌≢◌, ◌↔◌, ◌⊎◌, String, Bool, true, false, List, [], ◌∷◌, ◌++◌, Option, none, some, is_some,
  ◌==◌, nonempty,
}
use wa8s.Reconcile.{Observed, Read, found, Result, ok, err, Outcome, done, panics}
use wa8s.Apis.Meta.{ObjectMeta, Context, lookup, create_child_annotation}
use wa8s.Apis.Registries.{Repository, RepositoryReference, ServiceAccountReference}
use wa8s.Apis.Registries.Image.{ImageReference, Image}
use wa8s.Apis.Components.{
  ComponentReference, ComponentSpec, OciReference, validate_create_component,
}
use wa8s.Apis.Components.Composition.{
  Sources, Dependencies, CompositionDependency, nil, cons, plain,
}
use wa8s.Trace.{Origin, Trace, span}
use wa8s.Controllers.{
  State, Externals, Key, RepositoryRead, Subject, Wit, KeychainError, resolve_repository,
  resolve_keychain, reflect_componentable_status, use_repository,
}
use wa8s.Controllers.Child.{
  ComponentLike, ChildComponent, child_of, child_component_should_exist, desired_child,
}
use wa8s.Controllers.Child.Laws.{child_component_should_exist_iff, desired_child-admitted}
use wa8s.Controllers.Copy.{ComponentDuck, Resolution, component}
use wa8s.Controllers.Copy.Laws.{component_steps-fit}
use wa8s.Controllers.Images.{ImageRead, Request, resolve_image}
use wa8s.Controllers.Composition.{ChildResult, reflect_children, component_of}
use wa8s.Controllers.Composition.Children.{refer_all, last_child, reflect_children_lem}
use wa8s.Controllers.Composition.Resolving.{
  Outside, Composing, Member, or_nil, resolve_dependencies,
}
use wa8s.Controllers.Composition.Resolving.Laws.{
  names, components, resolve_dependencies-names, reflect_children-panics,
}

abbrev wit : Wit
wit = record { imports = []; exports = "wasi:http" ∷ [] }

abbrev externals : Externals ℕ
externals = record {
  keychain_for_repo = λ r. ok 7;
  keychain_for_account = λ r. ok 8;
  account_error = λ e. KeychainError.other e;
  multi = λ a b. a;
  apply_template = λ t. ok "registry/app:latest";
  push = λ tag bytes k. ok ("registry/app@sha256:2", wit);
  copy = λ source tag k. ok "registry/app@sha256:2";
  pull_config = λ digest k. ok wit;
  resolve_digest = λ image k. ok "ghcr.io/app@sha256:1";
  new_digest = λ image. ok image;
  new_strict_digest = λ image. ok image;
  digest_str = λ digest. "sha256:1";
}

abbrev start : State ℕ
start = record {
  marks = [];
  image = "";
  trace = Trace.nil;
  wit = none;
  component = none;
  config = none;
  spans = Trace.nil;
  digest = none;
  tag = none;
  keychain = none;
  remote_image = none;
}

abbrev app : ObjectMeta
app = record { namespace = "apps"; name = "app"; annotations = [] }

abbrev ctx : Context
ctx = record { resource = app; env_namespace = "" }

abbrev ready : Observed
ready = record {
  generation = 1;
  observed_generation = 1;
  ready_is_true = true;
  ready_is_false = false;
}

abbrev repository : RepositoryReference
repository = record { kind = "ClusterRepository"; name = "default" }

abbrev read_repository : Key → Read RepositoryRead
read_repository key = found (record {
  observed = ready;
  repository = record {
    metadata = record { namespace = ""; name = "default"; annotations = [] };
    spec = record {
      template = "registry/{{ .Name }}";
      service_account_ref = record { namespace = ""; name = "" };
    };
  };
})

-- A component whose trace has the uid of the resource that refers to it.
abbrev origin : Origin
origin = record {
  digest = "sha256:1";
  uid = "uid-app";
  group = "wa8s.reconciler.io";
  kind = "Component";
  namespace = "apps";
  name = "app";
}

abbrev lib : Subject
lib = record {
  uid = "uid-lib";
  group = "wa8s.reconciler.io";
  kind = "Component";
  namespace = "apps";
  name = "lib";
  status = some ("registry/lib@sha256:1", Trace.cons (span origin Trace.nil false) Trace.nil);
}

abbrev to_lib : ComponentReference
to_lib = record {
  api_version = "wa8s.reconciler.io/v1alpha1";
  kind = "Component";
  namespace = "apps";
  name = "lib";
}

abbrev referring : ComponentSpec
referring = record {
  generic = record { repository_ref = repository };
  oci = none;
  ref = some to_lib;
}

abbrev duck : ComponentDuck
duck = record {
  subject = lib;
  image = "registry/lib@sha256:1";
  ready_is_false = false;
  ready_is_unknown = false;
}

abbrev keyed : State ℕ
keyed = record start { tag = some "registry/app:latest"; keychain = some 7 }
