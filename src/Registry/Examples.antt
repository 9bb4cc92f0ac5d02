-- ===== src/Registry/Examples.antt =====
-- A registry that keeps the images under the names they are published by, and an index of two images.
use Prim.Native.String
use wa8s.Prelude.{◌≡◌, refl, sym, String, List, [], ◌∷◌, none, some, if◌then◌else◌, ◌==◌, eq_refl}
use wa8s.Reconcile.{Result, ok, err, ok_injective}
use wa8s.Registry.Image.{WasmConfigFile, WasmImage, Codec, digest, image_manifest_media_type}
use wa8s.Registry.{Remote, RemoteImage, push, pull, pull_config, view, at_digest}
use wa8s.Registry.Append.{Indices, Entry, Addendum}
use wa8s.Registry.Laws.{push-pull}

abbrev config : WasmConfigFile
config = record {
  created = 1;
  author = "wa8s";
  architecture = "wasm";
  os = "wasip2";
  layer_digests = "sha256:app" ∷ [];
  component = record {
    exports = "wasi:http/incoming-handler" ∷ [];
    imports = "wasi:keyvalue/store" ∷ [];
    optional_imports = [];
    target = none;
  };
}

abbrev codec : Codec
codec = record {
  extract_wit = λ component. if component == "" then err "no component" else ok component;
  matches =
      λ wit. ("import", "wasi:keyvalue/store") ∷ ("export", "wasi:http/incoming-handler") ∷ [];
  sha256 = λ s. String.◌++◌ "sha256:" s;
  size = λ s. 1;
  marshal_config = λ c. c.author;
  unmarshal_config = λ s. if s == "wa8s" then ok config else err "no config";
  marshal_manifest = λ m. "manifest";
}

abbrev Store : Type 0
Store = List (String × WasmImage)

abbrev find : Store → String → Result RemoteImage
find [] name = err "not found"
find ((n, img) ∷ st) name =
    let rest = find st name in if name == n then ok (view codec img) else rest

abbrev registry : Remote Store
registry = record {
  new_digest = λ s. ok s;
  new_tag = λ s. ok s;
  repository = λ s. s;
  digest_str = λ s. s;
  is_image = λ m. m == image_manifest_media_type;
  transport = ok tt;
  head = λ st tag. err "not found";
  get = find;
  push = λ st ref img. ok ((at_digest ref (digest codec img), img) ∷ st);
  new_pusher = ok tt;
  new_puller = ok tt;
  descriptor = λ st d. ok tt;
  copy = λ st to d. ok st;
}

keeps :
    (st st' : Store) (img : WasmImage) (ref name : String)
    → registry.push st ref img ≡ ok st'
    → registry.new_digest (at_digest ref (digest codec img)) ≡ ok name
    → registry.get st' name ≡ ok (view codec img)
keeps st st' img ref name h e =
    let h1 = ok_injective h in
    let e1 = ok_injective e in rw (sym h1, sym e1, eq_refl (at_digest ref (digest codec img))) refl

push-pull_example :
    (pull registry codec
        ((at_digest "ghcr.io/app" "sha256:manifest", record { component = "app"; config = config })
          ∷ [])
        (at_digest "ghcr.io/app" "sha256:manifest")
      ≡ ok ("app", config))
    × (pull_config registry codec
          ((
            at_digest "ghcr.io/app" "sha256:manifest",
            record { component = "app"; config = config },
          )
            ∷ [])
          (at_digest "ghcr.io/app" "sha256:manifest")
        ≡ ok config)
unfolding push wa8s.Registry.Image.new_wasm_image
push-pull_example =
    push-pull registry codec []
      ((at_digest "ghcr.io/app" "sha256:manifest", record { component = "app"; config = config })
        ∷ [])
      "ghcr.io/app" "app" (at_digest "ghcr.io/app" "sha256:manifest") config refl refl
      (λ img name.
        keeps []
          ((
            at_digest "ghcr.io/app" "sha256:manifest",
            record { component = "app"; config = config },
          )
            ∷ [])
          img "ghcr.io/app" name)
      refl

abbrev indices : Indices Store String
indices = record {
  transport = ok tt;
  get = λ st ref. err "not found";
  image = λ st base d. ok d;
  append_layers = λ image layer. ok image;
  write_index = λ st target adds. ok st;
  index_digest = λ adds. ok "sha256:index";
  is_index = λ m. m == "index";
  is_image = λ m. m == "image";
  repository = λ s. s;
  new_digest = λ s. ok s;
}

abbrev entries : List Entry
entries =
    record { digest = "sha256:a"; media_type = "image"; platform = some "linux/amd64" }
    ∷ record { digest = "sha256:b"; media_type = "attestation"; platform = none }
    ∷ record { digest = "sha256:c"; media_type = "image"; platform = some "linux/arm64" }
    ∷ []

abbrev added : List (Addendum String)
added =
    record { add = "sha256:a"; platform = some "linux/amd64" }
    ∷ record { add = "sha256:c"; platform = some "linux/arm64" }
    ∷ []
