-- ===== src/Registry/Laws.antt =====
-- registry/operations.go: what is pushed can be pulled, and the images of an index that get a component.
use wa8s.Prelude.{
  ◌≡◌, ◌∙◌, refl, ap, sym, String, true, List, [], ◌∷◌, Option, map, Bool-cases, inl, inr,
}
use wa8s.Reconcile.{Result, ok, err, ok_injective}
use wa8s.Registry.Image.{
  WasmConfigFile, WasmImage, Codec, new_wasm_image, image_with, digest, image_manifest_media_type,
}
use wa8s.Registry.{Remote, push, pull, pull_config, view, at_digest}
use wa8s.Registry.Chains.{bind_ok}
use wa8s.Registry.Append.{Indices, Entry, Addendum, append_all, platforms, platform_of, put}

abbrev component_of : WasmImage → String
component_of img = img.component

image_with-component :
    (j : Codec) (component : String) (wit : Result String) (img : WasmImage)
    → image_with j component wit ≡ ok img
    → img.component ≡ component
image_with-component j component (ok wit) img h = sym (ap component_of (ok_injective h))
image_with-component j component (err e) img h = absurd (cc)

pull_lem :
    {St : Type 0} (r : Remote St) (j : Codec) (st : St) (name : String) (img : WasmImage)
    → r.transport ≡ ok tt
    → r.is_image image_manifest_media_type ≡ true
    → j.unmarshal_config (j.marshal_config img.config) ≡ ok img.config
    → r.get st name ≡ ok (view j img)
    → (pull r j st name ≡ ok (img.component, img.config))
      × (pull_config r j st name ≡ ok img.config)
unfolding pull pull_config
pull_lem r j st name img transport is_image codec get =
    (rw (transport, get, is_image, codec) refl, rw (transport, get, is_image, codec) refl)

push-ok :
    {St : Type 0} (r : Remote St) (j : Codec) (st : St) (ref component : String)
    (out : St × String × WasmConfigFile)
    → push r j st ref component ≡ ok out
    → (img : WasmImage) × (new_wasm_image j component ≡ ok img)
      × (r.transport ≡ ok tt)
      × (r.push st ref img ≡ ok out.0)
      × (r.new_digest (at_digest ref (digest j img)) ≡ ok out.1)
      × (img.config ≡ out.2)
unfolding push
push-ok r j st ref component out h = bind_ok r.transport _ out h λ t transport h1.
    bind_ok (new_wasm_image j component) _ out h1 λ img built h2.
      bind_ok (r.push st ref img) _ out h2 λ st1 pushed h3.
        bind_ok (r.new_digest (at_digest ref (digest j img))) _ out h3 λ name named h4.
          let e = ok_injective h4 in
          (
            img,
            built,
            transport,
            pushed ∙ ap (λ o. ok o.0) e,
            named ∙ ap (λ o. ok o.1) e,
            ap (λ o. o.2) e,
          )

-- A component that was pushed is what is pulled by the digest `push` returns, and with it the config
-- `push` returns, which is also what is pulled alone. The registry must keep under its digest what was
-- pushed to it, and the JSON of the config must be read as the config.
pub push-pull :
    {St : Type 0} (r : Remote St) (j : Codec) (st st' : St) (ref component published : String)
    (config : WasmConfigFile)
    → r.is_image image_manifest_media_type ≡ true
    → j.unmarshal_config (j.marshal_config config) ≡ ok config
    → ((img : WasmImage) (name : String)
        → r.push st ref img ≡ ok st'
        → r.new_digest (at_digest ref (digest j img)) ≡ ok name
        → r.get st' name ≡ ok (view j img))
    → push r j st ref component ≡ ok (st', published, config)
    → (pull r j st' published ≡ ok (component, config))
      × (pull_config r j st' published ≡ ok config)
unfolding new_wasm_image
push-pull r j st st' ref component published config is_image codec law h =
    let (img, built, transport, pushed, named, e) =
      push-ok r j st ref component (st', published, config) h in
    let (p, q) =
      pull_lem r j st' published img transport is_image (rw e codec)
        (law img published pushed named) in
    let d = image_with-component j component (j.extract_wit component) img built in
    (p ∙ ap (λ c. ok (c, img.config)) d ∙ ap (λ c. ok (component, c)) e, q ∙ ap ok e)

put-platform :
    {I : Type 0} (platform : Option String) (image : Result I) (f : I → Result I)
    (rest : Result (List (Addendum I))) (adds : List (Addendum I))
    → put platform image f rest ≡ ok adds
    → (adds1 : List (Addendum I)) × (rest ≡ ok adds1)
      × (map platform_of adds ≡ platform ∷ map platform_of adds1)
put-platform platform image f rest adds h = bind_ok image _ adds h λ i a h1.
    bind_ok (f i) _ adds h1 λ add b h2.
      bind_ok rest _ adds h2 λ adds1 c h3. (adds1, c, ap (map platform_of) (sym (ok_injective h3)))

module _ {St I : Type 0} (r : Indices St I) (st : St) (base : String) (layer : Option String) where
  -- When the loop fails for no entry, the new index has an image for each entry that is an image, with
  -- its platform and in the order of the entries, and no other
  pub append_all-platforms :
      (ms : List Entry) (adds : List (Addendum I))
      → append_all r st base layer ms ≡ ok adds
      → map platform_of adds ≡ platforms r ms
  unfolding append_all platforms
  append_all-platforms [] adds h = ap (map platform_of) (sym (ok_injective h))
  append_all-platforms (m ∷ ms) adds h =
      let ih = append_all-platforms ms in
      elim (Bool-cases (r.is_image m.media_type)) [
        | inl e ↦
            let h1 = rw e at h in
            let (adds1, rest, p) =
              put-platform m.platform (r.image st base m.digest) (λ i. r.append_layers i layer)
                (append_all r st base layer ms) adds h1 in
            rw (e, p, ih adds1 rest) refl
        | inr e ↦ let h1 = rw e at h in rw (e, ih adds h1) refl
      ]
