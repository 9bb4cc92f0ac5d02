-- ===== src/Controllers/Composition/Children.antt =====
-- internal/controllers/composition_controller.go: the loops over children and dependencies.
use wa8s.Prelude.{
  ◌≡◌, inl, inr, refl, sym, ◌∙◌, ap, String, List, [], ◌∷◌, Option, none, some, if◌then◌else◌, ◌==◌,
  arith, Option-cases, eq_cases,
}
use wa8s.Apis.Components.Composition.{Dependencies, CompositionDependency, nil, cons, plain, nested}
use wa8s.Controllers.Composition.{
  ChildResult, component_of, set_ref, reference_to, reflect_one, reflect_result, reflect_children,
}

-- The last child that the results have for a component.
unfoldable pub last_child : String → List ChildResult → Option (String × String)
last_child name [] = none
last_child name (r ∷ rs) = elim (last_child name rs) [
  | some c ↦ some c
  | none ↦ if r.id == name then r.child else none
]

abbrev pub refer : String → Option (String × String) → CompositionDependency → CompositionDependency
refer kind none d = d
refer kind (some c) d = set_ref d (reference_to kind c)

-- Each dependency on its own: it takes the reference of its last child.
pub refer_all : String → List ChildResult → Dependencies → Dependencies
refer_all kind rs nil = nil
refer_all kind rs (cons d ds) =
    cons (refer kind (last_child (component_of d) rs) d) (refer_all kind rs ds)

pub refer-none : (kind : String) (d : CompositionDependency) → refer kind none d ≡ d
refer-none kind d = refl

pub refer_all-cons :
    (kind : String) (rs : List ChildResult) (d : CompositionDependency) (ds : Dependencies)
    → refer_all kind rs (cons d ds)
      ≡ cons (refer kind (last_child (component_of d) rs) d) (refer_all kind rs ds)
unfolding refer_all
refer_all-cons kind rs d ds = refl

refer_all_nil : (kind : String) (ds : Dependencies) → refer_all kind [] ds ≡ ds
unfolding refer_all last_child
refer_all_nil kind nil = refl
refer_all_nil kind (cons d ds) = ap (cons d) (refer_all_nil kind ds)

reflect_one-refer :
    (kind : String) (r : ChildResult) (rs : List ChildResult) (d : CompositionDependency)
    → let d' = reflect_one kind r d in
      refer kind (last_child (component_of d') rs) d'
      ≡ refer kind (last_child (component_of d) (r ∷ rs)) d
unfolding last_child
reflect_one-refer kind r rs (plain name s) = elim (eq_cases r.id name) [
  | inl (e, _) ↦ elim (Option-cases r.child) [
    | inl ec ↦ elim (Option-cases (last_child name rs)) [
      | inl el ↦ ground (arith, e, ec, el)
      | inr (k, el) ↦ ground (arith, e, ec, el)
    ]
    | inr (n, ec) ↦ elim (Option-cases (last_child name rs)) [
      | inl el ↦ ground (arith, e, ec, el)
      | inr (k, el) ↦ ground (arith, e, ec, el)
    ]
  ]
  | inr (e, _) ↦ elim (Option-cases (last_child name rs)) [
    | inl el ↦ ground (arith, e, el)
    | inr (k, el) ↦ ground (arith, e, el)
  ]
]
reflect_one-refer kind r rs (nested name s c) = elim (eq_cases r.id name) [
  | inl (e, _) ↦ elim (Option-cases r.child) [
    | inl ec ↦ elim (Option-cases (last_child name rs)) [
      | inl el ↦ ground (arith, e, ec, el)
      | inr (k, el) ↦ ground (arith, e, ec, el)
    ]
    | inr (n, ec) ↦ elim (Option-cases (last_child name rs)) [
      | inl el ↦ ground (arith, e, ec, el)
      | inr (k, el) ↦ ground (arith, e, ec, el)
    ]
  ]
  | inr (e, _) ↦ elim (Option-cases (last_child name rs)) [
    | inl el ↦ ground (arith, e, el)
    | inr (k, el) ↦ ground (arith, e, el)
  ]
]

reflect_result-refer :
    (kind : String) (r : ChildResult) (rs : List ChildResult) (ds : Dependencies)
    → refer_all kind rs (reflect_result kind r ds) ≡ refer_all kind (r ∷ rs) ds
unfolding refer_all reflect_result
reflect_result-refer kind r rs nil = refl
reflect_result-refer kind r rs (cons d ds) =
    rw (reflect_one-refer kind r rs d, reflect_result-refer kind r rs ds) refl

-- The two loops, over the results and over the dependencies, give every dependency the reference to
-- the last child that the results have for its component, and leave it alone if they have none.
pub reflect_children_lem :
    (kind : String) (rs : List ChildResult) (ds : Dependencies)
    → reflect_children kind rs ds ≡ refer_all kind rs ds
unfolding reflect_children
reflect_children_lem kind [] ds = sym (refer_all_nil kind ds)
reflect_children_lem kind (r ∷ rs) ds =
    reflect_children_lem kind rs (reflect_result kind r ds) ∙ reflect_result-refer kind r rs ds
