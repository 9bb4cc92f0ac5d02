-- ===== src/Registry/Image.antt =====
-- registry/image.go: images of a component, and the data of repository templates; wit/extract.go.
use wa8s.Prelude.{ℕ, String, List, [], ◌∷◌, Option, none, if◌then◌else◌, ◌==◌}
use wa8s.Reconcile.{Result, ok, err}

abbrev pub image_manifest_media_type : String
image_manifest_media_type = "application/vnd.oci.image.manifest.v1+json"

abbrev pub wasm_manifest_config_media_type : String
wasm_manifest_config_media_type = "application/vnd.wasm.config.v0+json"

abbrev pub wasm_layer_media_type : String
wasm_layer_media_type = "application/wasm"

pub record WasmConfigFileComponent : Type 0 where
  pub exports : List String
  pub imports : List String
  pub optional_imports : List String
  pub target : Option String

-- `created` is in seconds of the Unix epoch.
pub record WasmConfigFile : Type 0 where
  pub created : ℕ
  pub author : String
  pub architecture : String
  pub os : String
  pub layer_digests : List String
  pub component : WasmConfigFileComponent

pub record Descriptor : Type 0 where
  pub digest : String
  pub media_type : String
  pub size : ℕ

pub record Manifest : Type 0 where
  pub schema_version : ℕ
  pub media_type : String
  pub config : Descriptor
  pub layers : List Descriptor

-- The bytes of a component or of a JSON text are a text here. `extract_wit` is `wit.Extract`, a call
-- of the WebAssembly tools, and `matches` is the regular expression of `wit.ImportsExports` at work:
-- its matches in order, each with its two groups.
pub record Codec : Type 0 where
  pub extract_wit : String → Result String
  pub matches : String → List (String × String)
  pub sha256 : String → String
  pub size : String → ℕ
  pub marshal_config : WasmConfigFile → String
  pub unmarshal_config : String → Result WasmConfigFile
  pub marshal_manifest : Manifest → String

-- The groups of the matches of one kind: the two loops of `ImportsExports` in one.
unfoldable pub of_kind : String → List (String × String) → List String
of_kind kind [] = []
of_kind kind ((k, n) ∷ ms) = let rest = of_kind kind ms in if k == kind then n ∷ rest else rest

pub record WasmImage : Type 0 where
  pub component : String
  pub config : WasmConfigFile

module _ (j : Codec) where
  -- `wit.ImportsExports`
  unfoldable pub imports_exports : String → List String × List String
  unfolding of_kind
  imports_exports wit = (of_kind "import" (j.matches wit), of_kind "export" (j.matches wit))

  abbrev config_of : String → List String × List String → WasmConfigFile
  config_of component (imports, exports) = record {
    created = 1;
    author = "wa8s";
    architecture = "wasm";
    os = "wasip2";
    layer_digests = j.sha256 component ∷ [];
    component = record {
      exports = exports;
      imports = imports;
      optional_imports = [];
      target = none;
    };
  }

  abbrev pub image_with : String → Result String → Result WasmImage
  image_with component (ok wit) =
      ok (record { component = component; config = config_of component (imports_exports wit) })
  image_with component (err e) = err e

  -- `newWasmImage`; the second result of the code is the field `config` of the first.
  unfoldable pub new_wasm_image : String → Result WasmImage
  unfolding imports_exports
  new_wasm_image component = image_with component (j.extract_wit component)

  -- `RawConfigFile`
  abbrev pub raw_config : WasmImage → String
  raw_config img = j.marshal_config img.config

  -- `Manifest`, of an image with its one layer.
  unfoldable pub manifest : WasmImage → Manifest
  manifest img = record {
    schema_version = 2;
    media_type = image_manifest_media_type;
    config = record {
      digest = j.sha256 (raw_config img);
      media_type = wasm_manifest_config_media_type;
      size = j.size (raw_config img);
    };
    layers =
        record {
          digest = j.sha256 img.component;
          media_type = wasm_layer_media_type;
          size = j.size img.component;
        }
        ∷ [];
  }

  -- `RawManifest`, `Digest`, `Size` and `ConfigName`
  abbrev pub raw_manifest : WasmImage → String
  raw_manifest img = j.marshal_manifest (manifest img)

  abbrev pub digest : WasmImage → String
  digest img = j.sha256 (raw_manifest img)

  abbrev pub image_size : WasmImage → ℕ
  image_size img = j.size (raw_manifest img)

  abbrev pub config_name : WasmImage → String
  config_name img = j.sha256 (raw_config img)

  -- `LayerByDigest`; that by the digest of the uncompressed layer is the same.
  unfoldable pub layer_by_digest : WasmImage → String → Result String
  layer_by_digest img d =
      if d == j.sha256 img.component then ok img.component else err "no layer found"

-- `defaultValue`
abbrev pub default_value : String → String → String
default_value val default_val = if val == "" then default_val else val

-- What `newTemplateData` reads of an object, with its generation as text.
pub record Templated : Type 0 where
  pub namespace : String
  pub name : String
  pub uid : String
  pub generation : String
  pub resource_version : String
  pub group : String
  pub kind : String

-- `newTemplateData`; `to_lower` is `strings.ToLower`.
unfoldable pub new_template_data : (String → String) → Templated → List (String × String)
new_template_data to_lower o =
    ("Namespace", default_value o.namespace "unset-namespace")
    ∷ ("Name", default_value o.name "unset-name")
    ∷ ("UID", default_value o.uid "unset-uid")
    ∷ ("Generation", default_value o.generation "unset-generation")
    ∷ ("ResourceVersion", default_value o.resource_version "unset-resource-version")
    ∷ ("Group", default_value o.group "unset-group")
    ∷ ("Kind", default_value (to_lower o.kind) "unset-kind")
    ∷ []

-- `ApplyTemplate`: `execute` parses and executes a template, and `new_tag` parses a tag.
unfoldable pub apply_template :
    (String → List (String × String) → Result String)
    → (String → Result String)
    → (String → String)
    → String
    → Templated
    → Result String
unfolding new_template_data
apply_template execute new_tag to_lower template o =
    elim (execute template (new_template_data to_lower o)) [
      | err e ↦ err e
      | ok image ↦ new_tag image
    ]
