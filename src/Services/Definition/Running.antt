-- ===== src/Services/Definition/Running.antt =====
-- integrations/services/internal/controllers/serviceresourcedefinition_controller.go: when the manager
-- of a definition's custom types is started.
use wa8s.Prelude.{◌≡◌, ◌↔◌, refl, sym, String, true, ◌∙◌}
use wa8s.Services.Definition.{Definition, reflect_lifecycle, reflect_crd, reflect_duck}
use wa8s.Services.Definition.Conditions.{
  IsInvalid, IsSettled, IsEstablished, crd_lem, duck_lem, and_then_started, run_manager_started,
  lifecycle_done,
}
use wa8s.Services.Definition.Steps.{Turn, condition_is_true, and_then, run_manager, sync_definition}

-- The manager of the custom types of a definition is started in a run exactly when both custom
-- resource definitions have been written and the API server has established them, the lifecycle was
-- written or is invalid, and the component duck was written, is invalid or exists already: whatever
-- the conditions of the definition were before.
pub sync_definition-starts_iff :
    (t : Turn) (r : Definition)
    → ((sync_definition t r).started ≡ true) ↔ (
        (IsInvalid t.lifecycle_error × IsSettled t.duck_error)
        × (IsEstablished t.instance_error t.instance_crd
            × IsEstablished t.client_error t.client_crd))
unfolding sync_definition
sync_definition-starts_iff t r =
    let r1 = (reflect_lifecycle r t.lifecycle_error t.lifecycle).0 in
    let instance_ : String = "InstanceDefinitionReady" in
    let client : String = "ClientDefinitionReady" in
    let q2 = reflect_crd instance_ r1 t.instance_error t.instance_crd in
    let q3 = reflect_crd client q2.0 t.client_error t.client_crd in
    let q4 = reflect_duck q3.0 t.duck_error t.duck in
    let (made2, own2, others2) = crd_lem instance_ r1 t.instance_error t.instance_crd in
    let (made3, own3, others3) = crd_lem client q2.0 t.client_error t.client_crd in
    let (made4, others4) = duck_lem q3.0 t.duck_error t.duck in
    let k4 = λ (d : Definition). run_manager t.manager d in
    let k3 = λ (d : Definition). and_then (reflect_duck d t.duck_error t.duck) k4 in
    let k2 = λ (d : Definition). and_then (reflect_crd client d t.client_error t.client_crd) k3 in
    let s1 =
      and_then_started (reflect_lifecycle r t.lifecycle_error t.lifecycle)
        (λ d. and_then (reflect_crd instance_ d t.instance_error t.instance_crd) k2) in
    let s2 = and_then_started q2 k2 in
    let s3 = and_then_started q3 k3 in
    let s4 = and_then_started q4 k4 in
    let s5 = run_manager_started t.manager q4.0 in
    let instance_kept : condition_is_true instance_ q4.0 ≡ condition_is_true instance_ q2.0 =
      others4 instance_ refl ∙ others3 instance_ refl in
    let client_kept : condition_is_true client q4.0 ≡ condition_is_true client q3.0 =
      others4 client refl in
    (
      λ h.
          let a = s1.0 h in
          let b = s2.0 a.1 in
          let c = s3.0 b.1 in
          let d = s4.0 c.1 in
          let e = s5.0 d.1 in
          (
            ((lifecycle_done r t.lifecycle_error t.lifecycle).0 a.0, made4.0 d.0),
            (own2.0 (sym instance_kept ∙ e.0), own3.0 (sym client_kept ∙ e.1)),
          ),
      λ h.
          let ((l, d), (i, c)) = h in
          s1.1 (
            (lifecycle_done r t.lifecycle_error t.lifecycle).1 l,
            s2.1 (
              made2 i,
              s3.1 (
                made3 c,
                s4.1 (made4.1 d, s5.1 (instance_kept ∙ own2.1 i, client_kept ∙ own3.1 c)),
              ),
            ),
          ),
    )
