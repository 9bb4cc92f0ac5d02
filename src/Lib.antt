-- ===== src/Lib.antt =====
-- Verification of wa8s, the Kubernetes controllers that compose and run WebAssembly components.
--
-- The program has custom resources (apis/, integrations/*/apis/) with admission webhooks that
-- default and validate them, and controllers that reconcile them: components are copied to a
-- registry, images and repositories are resolved, compositions resolve their dependencies and are
-- composed, and the services integration provisions instances, binds them, renews and expires the
-- bindings, and hands out credentials over HTTP. Controllers are sequences of sub reconcilers
-- that pass values by stashers in a context; here a sub reconciler is a function from the status
-- and the stashed values to the new ones, the requests that it makes, and an outcome (done, an
-- error, a panic).
--
-- Prelude (with Prelude/Tests, Lists, Int) has Boolean tests, list helpers over the native
-- numbers, and the integers with the wrap-around of int64. Reconcile has what reconcilers share:
-- controllers/utils.go, marks of conditions as a log, and the answers of reads. Field has the
-- errors of k8s.io field validation as free constructors.
--
-- Apis/Meta: apis/annotations.go (ValidateCommonAnnotations), internal/defaults/kind.go and
-- namespace.go, validation/stash.go. Apis/Registries and Apis/Registries/Image:
-- repository_webhook.go and image_webhook.go of apis/registries/v1alpha1. Apis/Components with
-- ConfigStore and Composition: component_webhook.go, duck_webhook.go, configstore_webhook.go and
-- composition_webhook.go of apis/components/v1alpha1. Apis/Services with Instance and Definition:
-- the webhooks of integrations/services/apis/services/v1alpha1. Apis/Containers with Args: the
-- webhooks of apis/containers/v1alpha1 and the arguments of wasmtime of duck_types.go;
-- Apis/Services/Lifecycle: servicelifecycle_webhook.go; Apis/Services/Definition/Spec: the specs
-- of serviceresourcedefinition_webhook.go. Each `default_x` is `x.Default`, each `validate_x` is
-- `x.Validate` with the errors in the order of the code, each `validate_create_x` is
-- `x.ValidateCreate` or the update that is the same.
--
-- Trace: ComponentSpan of apis/components/v1alpha1/duck_types.go and DetectTraceCycle of
-- controllers/duck_controller.go. Controllers: ResolveRepository, ResolveKeychain, PushComponent,
-- ReflectComponentableStatus and SynthesizeSpan of the same file; Controllers/Child:
-- ComponentChildReconciler and ChildComponentShouldExist; Controllers/Images: ResolveImage;
-- Controllers/Copy: CopyComponent of internal/controllers/component_controller.go;
-- Controllers/Composition and Controllers/Composition/Resolving:
-- internal/controllers/composition_controller.go; Controllers/Config and
-- Controllers/Config/Steps: CollectConfig and ComponentizeConfig of
-- internal/controllers/configstore_controller.go; Controllers/Containers: ResolveComponent and
-- AppendComponent of internal/controllers/componentcontainerimage_controller.go;
-- Controllers/Registries: internal/controllers/image_controller.go and repository_controller.go,
-- with the three steps for an image together in Controllers/Registries/Copied.
--
-- Triggers: ComponentContainerImageChildReconciler of controllers/duck_controller.go;
-- Triggers/Workloads: the deployments and services of
-- internal/controllers/httptrigger_controller.go and wrpctrigger_controller.go, which differ in
-- the parameter `Protocol`, with `http` and `wrpc` as its two values; Triggers/Steps: their
-- sequence; Triggers/Jobs: internal/controllers/crontrigger_controller.go.
--
-- Registry: registry/operations.go (ResolveDigest, Push, Pull, PullConfig, Copy, ParseReference),
-- Registry/Append: AppendComponent of the same file; Registry/Image: registry/image.go and
-- wit/extract.go; Registry/Keychain: registry/keychain.go. A chain of calls that may fail is a do
-- block over `Result`.
--
-- Services/Binding: ManageServiceBinding and ExpirationRequeue of
-- integrations/services/internal/controllers/servicebinding_controller.go;
-- Services/Binding/Setup: ResolveServiceInstanceId and ServiceBindingSecret, and the first three
-- steps in sequence; Services/Binding/ClientComponent: ConfigureClientComponent;
-- Services/Binding/Sequence: all six steps in sequence. Services/Binding/Refinement has the
-- abstract life of a binding, as a step relation on three phases with the requests that each step
-- makes, which the steps of the reconciler implement. Services/Client:
-- serviceclient_controller.go, with a description of its loop in Services/Client/Stamping and one
-- by times and specs in Services/Client/Choosing; Services/Instance:
-- serviceinstance_controller.go; Services/Lifecycle: CheckForInstancesBeforeFinalizing of
-- servicelifecycle_controller.go, Services/Lifecycle/Children: the other three sub reconcilers of
-- that file, Services/Lifecycle/Children/Steps their sequence, and
-- Services/Lifecycle/Children/Misplaced the conditions that it leaves; Services/Definition and
-- Services/Definition/Steps: the reconciler of resource definitions in
-- serviceresourcedefinition_controller.go; Services/Ducks and Services/Ducks/Clients: its
-- reconcilers of the custom instances and clients; Services/Credentials: services_webhook.go.
--
-- Recursion is structural, on lists and on the two mutual types of traces and of compositions, so
-- there is no fuel. Times and durations are integers in nanoseconds; durations wrap as int64
-- does, times do not wrap, and the difference of two times does not saturate at the bounds of
-- int64. Numbers of generations are natural numbers.
--
-- The remote registry and its client, the parsing of names, keychains, templates, JSON, the API
-- server, reconciler.io/runtime and the WebAssembly tools are not part of this repository's
-- logic: they are parameters of the definitions, and theorems that need one of their documented
-- properties take it as a hypothesis (`KeepsUpdates` of the API and `IsSynced` of the informer
-- for the credential handlers, `equal_iff` of the update webhook, a registry that keeps under its
-- digest what was pushed). Messages of conditions and events of the recorder are left out, but
-- for the names of the events of bindings. The Knative trigger is not modelled; deep copies,
-- dies, list types and set-up code are generated or glue.
mod Prelude
pub mod Field
pub mod Apis
pub mod Trace
pub mod Reconcile
pub mod Registry
pub mod Triggers
pub mod Services
pub mod Controllers
