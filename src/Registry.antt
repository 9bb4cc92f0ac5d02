-- ===== src/Registry.antt =====
-- registry/operations.go: pushing, pulling and copying components. The registry itself, the parsing of
-- names and JSON belong to other packages: they are the parameter `Remote`, whose calls that change
-- the registry return it.
pub mod Image
pub mod Chains
pub mod Append
pub mod Keychain
pub mod Laws
mod Examples
use Prim.Native.String
use wa8s.Prelude.{
  String, Bool, true, false, not, List, [], ◌∷◌, Option, none, some, if◌then◌else◌, ◌==◌,
}
use wa8s.Reconcile.{Result, ok, err}
use wa8s.Registry.Image.{
  WasmConfigFile, WasmImage, Codec, new_wasm_image, digest, wasm_layer_media_type, raw_config,
  image_manifest_media_type,
}

-- A layer and an image as they are read: each part is fetched by a call that may fail.
pub record RemoteLayer : Type 0 where
  pub media_type : Result String
  pub uncompressed : Result String

pub record RemoteImage : Type 0 where
  pub media_type : Result String
  pub layers : Result (List RemoteLayer)
  pub raw_config : Result String

-- The packages `name` and `remote`, with a registry of type `St`: parsing a digest and a tag, the
-- repository of a tag and the digest of a reference, `types.MediaType.IsImage`, `CustomTransport`,
-- the digest under a tag, `Get` with its `Image`, `Push` of an image of ours, making a pusher and a
-- puller, the puller's `Get` of a digest, and the pusher's `Push` of what is under one.
pub record Remote (St : Type 0) : Type 0 where
  pub new_digest : String → Result String
  pub new_tag : String → Result String
  pub repository : String → String
  pub digest_str : String → String
  pub is_image : String → Bool
  pub transport : Result (Unit {0})
  pub head : St → String → Result String
  pub get : St → String → Result RemoteImage
  pub push : St → String → WasmImage → Result St
  pub new_pusher : Result (Unit {0})
  pub new_puller : Result (Unit {0})
  pub descriptor : St → String → Result (Unit {0})
  pub copy : St → String → String → Result St

-- `fmt.Sprintf("%s@%s", a, d)`
abbrev pub at_digest : String → String → String
at_digest a d = String.◌++◌ a (String.◌++◌ "@" d)

infixl 5 ◌>>=◌
abbrev pub ◌>>=◌ {ℓ κ} : {A : Type ℓ} {B : Type κ} → Result A → (A → Result B) → Result B
ok a >>= f = f a
err e >>= f = err e

-- `if test { return ..., fmt.Errorf(...) }`
abbrev pub refuse_if : Bool → String → Result (Unit {0})
refuse_if true e = err e
refuse_if false e = ok tt

-- An image as the registry shows it to a reader: the methods of `wasmImage`.
abbrev pub view : Codec → WasmImage → RemoteImage
view j img = record {
  media_type = ok image_manifest_media_type;
  layers =
      ok (record { media_type = ok wasm_layer_media_type; uncompressed = ok img.component } ∷ []);
  raw_config = ok (raw_config j img);
}

abbrev pub the_layer : List RemoteLayer → Result RemoteLayer
the_layer [] = err "must be exactly 1 layer"
the_layer (l ∷ []) = ok l
the_layer (l ∷ m ∷ more) = err "must be exactly 1 layer"

module _ {St : Type 0} (r : Remote St) (j : Codec) where
  abbrev or_tag : St → String → Result String → Result String
  or_tag st image (ok d) = ok d
  or_tag st image (err e) = do
    tag ← r.new_tag image
    d ← r.head st tag
    r.new_digest (at_digest (r.repository tag) d)

  -- `ResolveDigest`
  unfoldable pub resolve_digest : St → String → Result String
  resolve_digest st image = do t ← r.transport; or_tag st image (r.new_digest image)

  -- `ParseReference`: a digest, or else a tag.
  unfoldable pub parse_reference : String → Result String
  parse_reference image = elim (r.new_digest image) [ ok d ↦ ok d | err e ↦ r.new_tag image ]

  -- `Push`
  unfoldable pub push : St → String → String → Result (St × String × WasmConfigFile)
  push st ref component = do
    t ← r.transport
    img ← new_wasm_image j component
    st' ← r.push st ref img
    published ← r.new_digest (at_digest ref (digest j img))
    ok (st', published, img.config)

  checked_media : RemoteImage → Result (Unit {0})
  checked_media image = do
    media ← image.media_type
    refuse_if (not (r.is_image media)) "expected image"

  -- The one layer of an image, checked and read.
  read_layer : RemoteImage → Result String
  read_layer image = do
    layers ← image.layers
    layer ← the_layer layers
    media ← layer.media_type
    c ← refuse_if (not (media == wasm_layer_media_type)) "layer must be of another media type"
    layer.uncompressed

  read_config : RemoteImage → Result WasmConfigFile
  read_config image = do raw ← image.raw_config; j.unmarshal_config raw

  -- `Pull`
  unfoldable pub pull : St → String → Result (String × WasmConfigFile)
  unfolding checked_media read_layer read_config
  pull st ref = do
    t ← r.transport
    image ← r.get st ref
    c ← checked_media image
    component ← read_layer image
    config ← read_config image
    ok (component, config)

  -- `PullConfig`: the layers are not looked at.
  unfoldable pub pull_config : St → String → Result WasmConfigFile
  unfolding checked_media read_config
  pull_config st ref = do
    t ← r.transport
    image ← r.get st ref
    c ← checked_media image
    read_config image

  -- `Copy`
  unfoldable pub copy : St → String → String → Result (St × String)
  unfolding resolve_digest
  copy st source to = do
    t ← r.transport
    pusher ← r.new_pusher
    puller ← r.new_puller
    d ← resolve_digest st source
    desc ← r.descriptor st d
    st' ← r.copy st to d
    published ← r.new_digest (at_digest (r.repository to) (r.digest_str d))
    ok (st', published)
