-- ===== src/Registry/Append.antt =====
-- registry/operations.go: `AppendComponent`, which puts a component on top of each image of an index.
use wa8s.Prelude.{String, Bool, not, List, [], ◌∷◌, Option, none, some, if◌then◌else◌}
use wa8s.Reconcile.{Result, ok, err}
use wa8s.Registry.{◌>>=◌, refuse_if, at_digest}

-- The calls of the tar writer for one component: the errors of `WriteHeader`, of `io.Copy` and of
-- `Close`, and what was written.
pub record Tar : Type 0 where
  pub header_error : Option String
  pub copy_error : Option String
  pub close_error : Option String
  pub written : String

-- `componentAsLayer`: the deferred function sets the error to that of `Close`, on each path.
unfoldable pub component_as_layer : Tar → Option String × Option String
component_as_layer t = elim t.header_error [
  | some e ↦ (none, t.close_error)
  | none ↦ elim t.copy_error [
    | some e ↦ (none, t.close_error)
    | none ↦ (some t.written, t.close_error)
  ]
]

-- An entry of the manifest of an index.
pub record Entry : Type 0 where
  pub digest : String
  pub media_type : String
  pub platform : Option String

pub record Index : Type 0 where
  pub media_type : String
  pub manifest : Result (List Entry)

-- An image of the new index with its platform.
pub record Addendum (I : Type 0) : Type 0 where
  pub add : I
  pub platform : Option String

-- The calls of other packages: the transport, the index under a reference with its images,
-- `mutate.AppendLayers` (whose layer may be nil), `remote.WriteIndex` with the digest of the index,
-- and the tests and names of `types` and `name`.
pub record Indices (St I : Type 0) : Type 0 where
  pub transport : Result (Unit {0})
  pub get : St → String → Result Index
  pub image : St → String → String → Result I
  pub append_layers : I → Option String → Result I
  pub write_index : St → String → List (Addendum I) → Result St
  pub index_digest : List (Addendum I) → Result String
  pub is_index : String → Bool
  pub is_image : String → Bool
  pub repository : String → String
  pub new_digest : String → Result String

abbrev pub or_error : Option String × Option String → Result (Option String)
or_error (layer, none) = ok layer
or_error (layer, some e) = err e

abbrev pub platform_of : {I : Type 0} → Addendum I → Option String
platform_of a = a.platform

-- The image under a digest, with the layer and before the others.
abbrev pub put :
    {I : Type 0}
    → Option String
    → Result I
    → (I → Result I)
    → Result (List (Addendum I))
    → Result (List (Addendum I))
put platform image f rest = do
  i ← image
  add ← f i
  adds ← rest
  ok (record { add = add; platform = platform } ∷ adds)

module _ {St I : Type 0} (r : Indices St I) where
  -- The loop over the entries: what is no image is left out.
  unfoldable pub append_all : St → String → Option String → List Entry → Result (List (Addendum I))
  append_all st base layer [] = ok []
  append_all st base layer (m ∷ ms) =
      let rest = append_all st base layer ms in
      if not (r.is_image m.media_type)
      then rest
      else put m.platform (r.image st base m.digest) (λ i. r.append_layers i layer) rest

  -- `AppendComponent`
  unfoldable pub append_component : St → String → String → Tar → Result (St × String)
  unfolding append_all component_as_layer
  append_component st base target tar = do
    t ← r.transport
    index ← r.get st base
    c ← refuse_if (not (r.is_index index.media_type)) "expected an index"
    entries ← index.manifest
    layer ← or_error (component_as_layer tar)
    adds ← append_all st base layer entries
    st' ← r.write_index st target adds
    d ← r.index_digest adds
    published ← r.new_digest (at_digest (r.repository target) d)
    ok (st', published)

  -- The platforms of the entries that are images, in their order.
  unfoldable pub platforms : List Entry → List (Option String)
  platforms [] = []
  platforms (m ∷ ms) =
      let rest = platforms ms in if r.is_image m.media_type then m.platform ∷ rest else rest
