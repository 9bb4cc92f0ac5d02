-- ===== src/Controllers/Examples/Registries.antt =====
-- A container image, a copied image and a repository, with a keychain that is a number.
use wa8s.Prelude.{ℕ, String, ◌≡◌, ◌≢◌, ◌↔◌, refl, none, []}
use wa8s.Reconcile.{Outcome, done, panics, ok}
use wa8s.Apis.Registries.{Repository}
use wa8s.Trace.{detect_trace_cycle, add_span}
use wa8s.Controllers.{
  State, resolve_repository, resolve_keychain, reflect_componentable_status, synthesize_span,
}
use wa8s.Controllers.Images.{resolve_image}
use wa8s.Controllers.Composition.Resolving.{member}
use wa8s.Controllers.Containers.{Outside, resolve_component, append_component}
use wa8s.Controllers.Containers.Laws.{container_image_steps-fit}
use wa8s.Controllers.Registries.{Permissions, copy_image, sync_repository}
use wa8s.Controllers.Registries.Laws.{IsUsable, sync_repository-done_iff}
use wa8s.Controllers.Registries.Copied.{IsCopied, image_steps-copy_iff}
use wa8s.Controllers.Examples.{externals, start, ctx, repository, read_repository, to_lib}
use wa8s.Controllers.Examples.Steps.{request, to_image, read_lib}

abbrev outside : Outside ℕ
outside = record {
  ctx = ctx;
  uid = "uid-9";
  resolve = λ ref. member read_lib;
  get_repository = read_repository;
  externals = externals;
  for_member = λ m. externals;
  pull = λ image k. ok ("bytes", record { imports = []; exports = [] });
  append = λ image tag component k. ok "registry/app@sha256:3";
}

abbrev pulled : State ℕ
pulled = (resolve_component outside to_lib start).0

abbrev based : State ℕ
based = (resolve_image externals request to_image pulled).0

abbrev stored : State ℕ
stored =
    (resolve_repository externals ctx read_repository "RepositoryReady" "apps" repository based).0

pulls : (resolve_component outside to_lib start).1 ≡ done
unfolding resolve_component resolve_repository detect_trace_cycle add_span synthesize_span
pulls = refl

bases : (resolve_image externals request to_image pulled).1 ≡ done
unfolding resolve_component resolve_image resolve_repository detect_trace_cycle add_span
    synthesize_span
bases = refl

stores :
    (resolve_repository externals ctx read_repository "RepositoryReady" "apps" repository based).1
    ≡ done
unfolding resolve_component resolve_image resolve_repository detect_trace_cycle add_span
    synthesize_span
stores = refl

container_image_steps-fit_example :
    (pulled.keychain ≡ none)
    × ((append_component outside stored).1 ≢ panics)
    × ((append_component outside stored).1 ≡ done
        → (reflect_componentable_status (append_component outside stored).0).1 ≡ done)
container_image_steps-fit_example =
    container_image_steps-fit outside request to_lib to_image repository "apps" start pulls bases
      stores

abbrev resolved : State ℕ × Outcome
resolved =
    resolve_repository externals ctx read_repository "RepositoryReady" "apps" repository start

abbrev keyed : State ℕ × Outcome
keyed = resolve_keychain externals "ImageCopied" none resolved.0

abbrev copied : State ℕ × Outcome
copied = copy_image externals "ghcr.io/app:1" keyed.0

image_steps-copy_iff_example :
    (resolved.1 ≡ done → copied.1 ≢ panics)
    × ((resolved.1 ≡ done) × (keyed.1 ≡ done) × (copied.1 ≡ done)
        → IsCopied externals ctx read_repository "apps" "ghcr.io/app:1" repository none
            copied.0.image)
    × ((reported : String)
        → IsCopied externals ctx read_repository "apps" "ghcr.io/app:1" repository none reported
        → (resolved.1 ≡ done) × (keyed.1 ≡ done) × (copied.1 ≡ done) × (copied.0.image ≡ reported))
image_steps-copy_iff_example =
    image_steps-copy_iff externals ctx read_repository "apps" "ghcr.io/app:1" repository none start
      refl

abbrev permissions : Permissions ℕ
permissions = record { transport = ok tt; check_push = λ tag k. none }

abbrev stored_in : Repository
stored_in = record {
  metadata = record { namespace = ""; name = "default"; annotations = [] };
  spec = record {
    template = "registry/{{ .Name }}";
    service_account_ref = record { namespace = "apps"; name = "default" };
  };
}

sync_repository-done_iff_example :
    ((sync_repository externals permissions stored_in start).1 ≡ done)
    ↔ IsUsable externals permissions stored_in
sync_repository-done_iff_example = sync_repository-done_iff externals permissions stored_in start
