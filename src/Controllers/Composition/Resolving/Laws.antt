-- ===== src/Controllers/Composition/Resolving/Laws.antt =====
-- internal/controllers/composition_controller.go: the stash of resolved dependencies.
use mathlib.Core.List.{append-nil, append_assoc}
use wa8s.Prelude.{
  ◌≡◌, inl, inr, refl, sym, ap, ◌∙◌, String, List, [], ◌∷◌, ◌++◌, Option, none, some, arith, ◌==◌,
  Bool-cases, Option-cases,
}
use wa8s.Reconcile.{Result-cases, Outcome, done, fails, panics}
use wa8s.Apis.Components.{ComponentReference}
use wa8s.Apis.Components.Composition.{Dependencies, CompositionDependency, nil, cons}
use wa8s.Trace.{add_span, detect_trace_cycle}
use wa8s.Controllers.{State, Wit, gate, synthesize_span}
use wa8s.Controllers.Composition.{ChildResult, component_of, sources_of, reflect_children}
use wa8s.Controllers.Composition.Children.{
  last_child, refer, refer_all, refer_all-cons, refer-none, reflect_children_lem,
}
use wa8s.Controllers.Composition.Resolving.{
  ResolvedComponent, Composing, Member, Resolution, member, not_component, component_not_found,
  resolution_error, Outside, or_nil, resolve_dependency, resolve_dependencies, use_member,
  ready_member, member_keychain, after_keychain, use_keychain, pull_member, add_member, continue,
}

unfoldable pub names : List ResolvedComponent → List String
names [] = []
names (r ∷ rs) = r.name ∷ names rs

unfoldable pub components : Dependencies → List String
components nil = []
components (cons d ds) = component_of d ∷ components ds

names-append : (xs ys : List ResolvedComponent) → names (xs ++ ys) ≡ names xs ++ names ys
unfolding names
names-append [] ys = refl
names-append (x ∷ xs) ys = ap (λ (t : List String). x.name ∷ t) (names-append xs ys)

module _ {K : Type 0} (w : Outside K) where
  -- A step that ends without an error adds one dependency of the name.
  abbrev Adds : String → Composing K → Composing K × Outcome → Type 0
  Adds name st end =
      end.1 ≡ done → names (or_nil end.0.resolved) ≡ names (or_nil st.resolved) ++ (name ∷ [])

  add_member_lem :
      (st : Composing K) (name image bytes : String) (o : Option Wit)
      → Adds name st (add_member w st name image bytes o)
  unfolding add_member names
  add_member_lem st name image bytes none h = absurd (ground (arith, h))
  add_member_lem st name image bytes (some wit) h = names-append (or_nil st.resolved) _

  pull_member_lem :
      (name : String) (m : Member) (st : Composing K) (k : K)
      → Adds name st (pull_member w name m st k)
  unfolding pull_member
  pull_member_lem name m st k = elim (Result-cases (w.externals.new_digest m.image)) [
    | inl (image, e) ↦ elim (Result-cases (w.pull image k)) [
      | inl (bytes, f) ↦
          let same : pull_member w name m st k ≡ add_member w st name image bytes m.wit =
            ground (arith, e, f) in
          rw same (add_member_lem st name image bytes m.wit)
      | inr (t, f) ↦ λ h. absurd (ground (arith, e, f, h))
    ]
    | inr (t, e) ↦ λ h. absurd (ground (arith, e, h))
  ]

  use_keychain_lem :
      (name : String) (m : Member) (st : Composing K) (s : State K)
      → Adds name st (use_keychain w name m st s)
  unfolding use_keychain
  use_keychain_lem name m st s = elim (Option-cases s.keychain) [
    | inl e ↦ λ h. absurd (ground (arith, e, h))
    | inr (k, e) ↦
        let st' = record st { state = s } in
        let same : use_keychain w name m st s ≡ pull_member w name m st' k = ground (arith, e) in
        rw same (pull_member_lem name m st' k)
  ]

  after_keychain_lem :
      (name : String) (m : Member) (st : Composing K) (s : State K) (o : Outcome)
      → Adds name st (after_keychain w name m st s o)
  unfolding after_keychain
  after_keychain_lem name m st s done h = use_keychain_lem name m st s h
  after_keychain_lem name m st s (fails e) h = absurd (ground (arith, h))
  after_keychain_lem name m st s panics h = absurd (ground (arith, h))

  ready_member_lem :
      (name : String) (m : Member) (st : Composing K) (s : State K)
      → Adds name st (ready_member w name m st s)
  unfolding ready_member
  ready_member_lem name m st s = elim (Bool-cases (m.image == "")) [
    | inl e ↦ rw e (λ h. absurd (ground (arith, h)))
    | inr e ↦ let (s', o) = member_keychain w m s in rw e (after_keychain_lem name m st s' o)
  ]

  use_member_lem :
      (name : String) (m : Member) (st : Composing K) → Adds name st (use_member w name m st)
  unfolding use_member
  use_member_lem name m st =
      let spans = add_span st.state.spans (synthesize_span w.externals m.subject) in
      let s = record st.state { spans = spans } in
      elim (Bool-cases (detect_trace_cycle w.uid spans).0) [
        | inl e ↦ rw e (λ h. absurd (ground (arith, h)))
        | inr e ↦ elim (Option-cases (gate "NotReady" m.observed)) [
          | inl g ↦ rw (e, g) (ready_member_lem name m st s)
          | inr (stop, g) ↦ rw (e, g) (λ h. absurd (ground (arith, h)))
        ]
      ]

  resolve_dependency_lem :
      (d : CompositionDependency) (st : Composing K)
      → Adds (component_of d) st (resolve_dependency w d st)
  unfolding resolve_dependency
  resolve_dependency_lem d st = elim (Option-cases (sources_of d).ref) [
    | inl e ↦ λ h. absurd (ground (arith, e, h))
    | inr (ref, e) ↦ resolved ref (w.resolve ref) e refl
  ]
    where
      resolved :
          (ref : ComponentReference) (r : Resolution)
          → (sources_of d).ref ≡ some ref
          → w.resolve ref ≡ r
          → Adds (component_of d) st (resolve_dependency w d st)
      resolved ref (member m) e f =
          let same : resolve_dependency w d st ≡ use_member w (component_of d) m st =
            ground (arith, e, f) in
          rw same (use_member_lem (component_of d) m st)
      resolved ref not_component e f = λ h. absurd (ground (arith, e, f, h))
      resolved ref component_not_found e f = λ h. absurd (ground (arith, e, f, h))
      resolved ref (resolution_error t) e f = λ h. absurd (ground (arith, e, f, h))

  continue-done :
      (q : Composing K × Outcome) (k : Composing K → Composing K × Outcome)
      → (continue w q k).1 ≡ done
      → (q.1 ≡ done) × (continue w q k ≡ k q.0)
  continue-done (st, done) k h = (refl, refl)
  continue-done (st, fails e) k h = absurd (ground (arith, h))
  continue-done (st, panics) k h = absurd (ground (arith, h))

  -- When all dependencies resolve without an error, the stash has grown by exactly one entry for
  -- each of them, under its name and in the order of the spec.
  pub resolve_dependencies-names :
      (ds : Dependencies) (st : Composing K)
      → let (st', o) = resolve_dependencies w ds st in
        o ≡ done → names (or_nil st'.resolved) ≡ names (or_nil st.resolved) ++ components ds
  unfolding resolve_dependencies components
  resolve_dependencies-names nil st h = sym (append-nil (names (or_nil st.resolved)))
  resolve_dependencies-names (cons d ds) st h =
      let first = resolve_dependency w d st in
      let (ok_, same) = continue-done first (λ st'. resolve_dependencies w ds st') h in
      let later =
        resolve_dependencies-names ds first.0
          (sym (ap (λ (q : Composing K × Outcome). q.1) same) ∙ h) in
      let grown = resolve_dependency_lem d st ok_ in
      let tail = ap (λ (t : List String). t ++ components ds) grown in
      ap (λ (q : Composing K × Outcome). names (or_nil q.0.resolved)) same
      ∙ later
      ∙ tail
      ∙ append_assoc (names (or_nil st.resolved)) (component_of d ∷ []) (components ds)

  panics_without_ref :
      (d : CompositionDependency) (ds : Dependencies) (st : Composing K)
      → (sources_of d).ref ≡ none
      → (resolve_dependencies w (cons d ds) st).1 ≡ panics
  unfolding resolve_dependencies resolve_dependency
  panics_without_ref d ds st e = ground (arith, e)

  -- Where the first dependency has no reference and no result has a child for its component,
  -- reflecting the children and then resolving the dependencies panics.
  pub reflect_children-panics :
      (kind : String) (rs : List ChildResult) (d : CompositionDependency) (ds : Dependencies)
      (st : Composing K)
      → (sources_of d).ref ≡ none
      → last_child (component_of d) rs ≡ none
      → (resolve_dependencies w (reflect_children kind rs (cons d ds)) st).1 ≡ panics
  reflect_children-panics kind rs d ds st e l =
      let kept : refer kind (last_child (component_of d) rs) d ≡ d = rw l (refer-none kind d) in
      rw (reflect_children_lem kind rs (cons d ds), refer_all-cons kind rs d ds, kept)
        (panics_without_ref d (refer_all kind rs ds) st e)
