-- ===== src/Controllers/Examples/Steps.antt =====
-- The steps of a component, of an image and of a composition, one after the other.
use wa8s.Prelude.{false, ℕ, ◌≡◌, ◌≢◌, inr, refl, String, List, [], ◌∷◌, ◌++◌, none, some}
use wa8s.Reconcile.{Outcome, found, ok, done, panics}
use wa8s.Apis.Meta.{lookup}
use wa8s.Apis.Registries.Image.{ImageReference}
use wa8s.Apis.Components.Composition.{
  CompositionDependency, GenericCompositionSpec, nil, cons, plain, spec,
  default_generic_composition_spec,
}
use wa8s.Trace.{Trace, add_span, detect_trace_cycle}
use wa8s.Controllers.{
  State, push_component, synthesize_span, resolve_repository, resolve_keychain,
  reflect_componentable_status,
}
use wa8s.Controllers.Child.{
  ComponentLike, ChildComponent, child_of, child_component_should_exist, desired_child, none_of,
}
use wa8s.Controllers.Copy.{component, copy_component}
use wa8s.Controllers.Copy.Laws.{component_steps-fit}
use wa8s.Controllers.Images.{ImageRead, Request}
use wa8s.Controllers.Composition.{ChildResult, reflect_children}
use wa8s.Controllers.Composition.Children.{last_child}
use wa8s.Controllers.Composition.Resolving.{
  Outside, Composing, Member, member, or_nil, resolve_dependency, resolve_dependencies,
  compose_components,
}
use wa8s.Controllers.Composition.Resolving.Steps.{composition_steps-fit}
use wa8s.Controllers.Composition.Resolving.Laws.{
  names, components, resolve_dependencies-names, reflect_children-panics,
}
use wa8s.Controllers.Examples.{
  externals, start, app, ctx, ready, repository, read_repository, wit, lib, to_lib, duck, referring,
}

repository_resolved :
    (resolve_repository externals ctx read_repository "RepositoryReady" "apps" repository start).1
    ≡ done
unfolding resolve_repository
repository_resolved = refl

component_steps-fit_example :
    let resolved =
      resolve_repository externals ctx read_repository "RepositoryReady" "apps" repository start in
    let keyed = resolve_keychain externals "ComponentCopied" none resolved.0 in
    let run = copy_component externals (λ ref. component duck) "uid-2" referring keyed.0 in
    (run.outcome ≢ panics)
    × (run.outcome ≡ done → (reflect_componentable_status run.state).1 ≡ done)
component_steps-fit_example =
    component_steps-fit externals ctx read_repository "apps" "uid-2" repository none
      (λ ref. component duck) referring start (inr (refl, refl)) repository_resolved

abbrev image : ImageRead
image = record {
  subject = lib;
  observed = ready;
  image = record {
    metadata = app;
    spec = record {
      image = "ghcr.io/lib";
      repository_ref = repository;
      service_account_ref = record { namespace = ""; name = "" };
    };
  };
  status_image = "registry/lib@sha256:1";
}

abbrev pub request : Request
request = record {
  ctx = ctx;
  condition = "ImageReady";
  uid = "uid-2";
  namespace = "apps";
  get_image = λ key. found image;
  get_repository = read_repository;
}

abbrev pub to_image : ImageReference
to_image = record { kind = "Image"; namespace = "apps"; name = "lib" }

abbrev composition : ComponentLike
composition = record { metadata = app; labels = []; owners = []; generic = none; marks = [] }

abbrev merge_maps : List (String × String) → List (String × String) → List (String × String)
merge_maps xs ys = xs ++ ys

abbrev child : ChildComponent
child = child_of merge_maps "owner" composition ("wa8s.reconciler.io/v1alpha1", "Composition")

child_desired :
    desired_child merge_maps (ok ("wa8s.reconciler.io/v1alpha1", "Composition")) "owner" composition
    ≡ ok (some child)
unfolding desired_child child_component_should_exist lookup none_of
child_desired = refl

abbrev unresolved : CompositionDependency
unresolved =
    plain "ext:config"
      (record { ref = none; config = some (record { values_from = []; values = [] }); oci = none })

abbrev linked : CompositionDependency
linked = plain "ext:lib" (record { ref = some to_lib; config = none; oci = none })

abbrev results : List ChildResult
results =
    record { id = "ext:config"; child = none }
    ∷ record { id = "ext:lib"; child = some ("apps", "lib-1") }
    ∷ []

abbrev pub read_lib : Member
read_lib = record {
  subject = lib;
  observed = ready;
  generic = record { repository_ref = repository };
  image = "registry/lib@sha256:1";
  wit = some wit;
}

abbrev outside : Outside ℕ
outside = record {
  ctx = ctx;
  uid = "uid-2";
  resolve = λ ref. member read_lib;
  get_repository = read_repository;
  externals = externals;
  for_member = λ m. externals;
  pull = λ image k. ok "bytes";
  wac_plug = λ rs. ok "bytes";
  wac_compose = λ wac rs. ok "bytes";
}

abbrev composing : Composing ℕ
composing = record { state = start; resolved = none }

dependencies_resolved :
    (resolve_dependencies outside (cons linked (cons linked nil)) composing).1 ≡ done
unfolding resolve_dependencies resolve_dependency detect_trace_cycle add_span synthesize_span
    resolve_repository
dependencies_resolved = refl

resolve_dependencies-names_example :
    names
      (or_nil (resolve_dependencies outside (cons linked (cons linked nil)) composing).0.resolved)
    ≡ names [] ++ components (cons linked (cons linked nil))
resolve_dependencies-names_example =
    resolve_dependencies-names outside (cons linked (cons linked nil)) composing
      dependencies_resolved

no_child : last_child "ext:config" results ≡ none
unfolding last_child
no_child = refl

reflect_children-panics_example :
    (resolve_dependencies outside
      (reflect_children "ConfigStore" results (cons unresolved (cons linked nil)))
      composing).1
    ≡ panics
reflect_children-panics_example =
    reflect_children-panics outside "ConfigStore" results unresolved (cons linked nil) composing
      refl no_child

abbrev dependencies : Composing ℕ × Outcome
dependencies = resolve_dependencies outside (cons linked (cons linked nil)) composing

abbrev stored : State ℕ × Outcome
stored =
    resolve_repository externals ctx read_repository "RepositoryReady" "apps" repository
      dependencies.0.state

stored_done : stored.1 ≡ done
unfolding resolve_dependencies resolve_dependency detect_trace_cycle add_span synthesize_span
    resolve_repository
stored_done = refl

abbrev scripted : GenericCompositionSpec
scripted = spec "package app:shop;" false (cons linked (cons linked nil))

abbrev made : Composing ℕ × Outcome
made =
    compose_components outside (default_generic_composition_spec ctx scripted)
      (record dependencies.0 { state = record stored.0 { marks = [] } })

abbrev pushed : State ℕ × Outcome
pushed = push_component externals "ComponentPushed" made.0.state

composition_steps-fit_example :
    (made.1 ≢ panics)
    × (made.1 ≡ done
        → (pushed.1 ≢ panics)
          × (pushed.1 ≡ done → (reflect_componentable_status pushed.0).1 ≡ done))
composition_steps-fit_example =
    composition_steps-fit outside ctx scripted linked (cons linked nil) "apps" repository composing
      [] dependencies_resolved stored_done
