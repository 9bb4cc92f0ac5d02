-- ===== src/Services/Ducks/Laws.antt =====
-- How the ducks of a definition find each other: the labels that are written on the instance of a
-- duck and those by which a client looks for it.
use wa8s.Prelude.{
  ◌≡◌, ◌≢◌, ◌↔◌, ◌⊎◌, inl, inr, refl, String, Bool, true, false, List, [], ◌∷◌, none, some,
  if◌then◌else◌, ◌==◌, ◌&&◌, All,
}
use wa8s.Field.{new_path, child, nil_append}
use wa8s.Reconcile.{Result, ok, err}
use wa8s.Apis.Meta.{Context, lookup, validate_common_annotations-nil_iff}
use wa8s.Apis.Services.Instance.{
  ServiceInstanceRequest, validate_create_service_instance, validate_service_instance,
  default_service_instance, default_service_instance_spec, default_service_lifecycle_reference,
  validate_service_instance_spec-nil_iff,
}
use wa8s.Services.Lifecycle.Children.{MergeMaps}
use wa8s.Services.Definition.{Labels, definition_label}
use wa8s.Services.Ducks.{InstanceDuck, InstanceChild, kind_label, instance_child, desired_instance}
use wa8s.Services.Ducks.Clients.{ClientDuck, ClientChild, client_child, client_duck_label}

-- `reconcilers.MergeMaps`: keys in later maps overwrite those in earlier ones.
abbrev pub LaterWins : MergeMaps → Type 0
LaterWins merge_maps =
    (k : String) (a b : Labels)
    → lookup k (merge_maps a b) ≡ elim (lookup k b) [ some v ↦ some v | none ↦ lookup k a ]

-- `client.MatchingLabels`: each label of the selector is there with its value.
unfoldable pub matches : Labels → Labels → Bool
matches [] labels = true
matches ((k, v) ∷ selector) labels =
    elim (lookup k labels) [ none ↦ false | some w ↦ w == v ] && matches selector labels

-- An instance that was made for a duck of a definition, under the name that the server gave it.
pub record Made : Type 0 where
  pub definition : String
  pub duck : InstanceDuck
  pub lifecycle : String
  pub name : String

module _ (merge_maps : MergeMaps) (kebab_case : String → String) where
  abbrev pub labels_of : Made → Labels
  labels_of m = (instance_child merge_maps kebab_case m.definition m.duck m.lifecycle).labels

  -- The API server's list of the instances of a namespace with the labels, by their names.
  unfoldable pub listed : List Made → String → Labels → List String
  listed [] namespace selector = []
  listed (m ∷ ms) namespace selector =
      let rest = listed ms namespace selector in
      if m.duck.namespace == namespace && matches selector (labels_of m)
      then m.name ∷ rest
      else rest

  -- The same instances by reference: those whose duck has the definition, the namespace and the
  -- name that a client refers to.
  pub referred : List Made → String → ClientDuck → List String
  referred [] definition c = []
  referred (m ∷ ms) definition c =
      let rest = referred ms definition c in
      if m.duck.namespace == c.namespace
        && (m.definition == definition && m.duck.name == c.spec.ref.name)
      then m.name ∷ rest
      else rest

  -- What a client duck gets for the instance that it finds.
  abbrev pub client_for : ClientDuck → Result String → Result ClientChild
  client_for c (err e) = err e
  client_for c (ok instance_) = ok (client_child merge_maps kebab_case c instance_)

  -- The label of a kind is not the one that names the definition.
  abbrev pub HasOwnLabel : Made → Type 0
  HasOwnLabel m = (kind_label kebab_case m.duck.group m.duck.kind == definition_label) ≡ false

  -- The service client of a duck: it is made in the namespace of the duck, its spec is that of the
  -- duck but refers to the instance, and it has a label that names the duck.
  abbrev pub IsClientOf : ClientDuck → String → ClientChild → Type 0
  IsClientOf c instance_ made =
      ((made.namespace ≡ c.namespace)
        × (made.spec ≡ record c.spec { ref = record { name = instance_ } }))
      × (lookup client_duck_label made.labels ≡ some c.name)

  -- One instance is referred to and the client is for it, or none or several are, and it fails.
  abbrev pub FindsOne : ClientDuck → List String → Result ClientChild → Type 0
  FindsOne c names result =
      ((n : String) × (names ≡ n ∷ [])
        × ((made : ClientChild) × (result ≡ ok made) × IsClientOf c n made))
      ⊎ (((n : String) → names ≢ n ∷ []) × ((e : String) × (result ≡ err e)))

-- What the webhook of instances wants of a duck.
abbrev pub HasValidRequest : InstanceDuck → Type 0
HasValidRequest r =
    (r.type ≢ "") × All (λ (q : ServiceInstanceRequest). (q.key ≢ "") × (q.value ≢ "")) r.requests

instance_valid_iff :
    (merge_maps : MergeMaps) (kebab_case : String → String) (definition lifecycle : String)
    (ctx : Context) (r : InstanceDuck)
    → lifecycle ≢ ""
    → (validate_create_service_instance ctx
          (instance_child merge_maps kebab_case definition r lifecycle).instance_
        ≡ [])
      ↔ HasValidRequest r
unfolding validate_create_service_instance validate_service_instance default_service_instance
    default_service_instance_spec default_service_lifecycle_reference lookup
instance_valid_iff merge_maps kebab_case definition lifecycle ctx r named =
    let made = (instance_child merge_maps kebab_case definition r lifecycle).instance_ in
    let iff =
      nil_append (validate_common_annotations-nil_iff (new_path "") made.metadata)
        (validate_service_instance_spec-nil_iff (child (new_path "") "spec") made.spec) in
    (
      λ e. let (_, v) = iff.0 e in (v.0.1, v.1),
      λ h. iff.1 (inl refl, (((inr refl, named), h.0), h.1)),
    )

-- When one lifecycle has the label of the definition, an instance is asked for, and it is admitted
-- by the webhook of instances exactly when the duck, which no webhook checks, has a type and each of
-- its requests has a key and a value.
pub desired_instance-admitted_iff :
    (merge_maps : MergeMaps) (kebab_case : String → String) (list : Labels → Result (List String))
    (definition lifecycle : String) (ctx : Context) (r : InstanceDuck)
    → list ((definition_label, definition) ∷ []) ≡ ok (lifecycle ∷ [])
    → lifecycle ≢ ""
    → (c : InstanceChild) × (desired_instance merge_maps kebab_case list definition r ≡ ok c)
      × ((validate_create_service_instance ctx c.instance_ ≡ []) ↔ HasValidRequest r)
unfolding desired_instance
desired_instance-admitted_iff merge_maps kebab_case list definition lifecycle ctx r e named = (
  instance_child merge_maps kebab_case definition r lifecycle,
  rw (e, desired_instance) refl,
  instance_valid_iff merge_maps kebab_case definition lifecycle ctx r named,
)
