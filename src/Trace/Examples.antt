-- ===== src/Trace/Examples.antt =====
-- A trace in which the resource `a` occurs below another component.
use wa8s.Prelude.{◌≡◌, refl, String, true, false}
use wa8s.Trace.{Origin, Trace, span, nil, cons, detect_trace_cycle}
use wa8s.Trace.Laws.{Occurs, cut, IsCut, detect_trace_cycle-cut}

abbrev origin : String → Origin
origin u = record {
  digest = "sha256:1";
  uid = u;
  group = "wa8s.reconciler.io";
  kind = "Component";
  namespace = "apps";
  name = u;
}

abbrev looped : Trace
looped =
    cons
      (span (origin "b")
        (cons (span (origin "a") (cons (span (origin "c") nil false) nil) false) nil) false)
      nil

looped_sanitized :
    (detect_trace_cycle "a" looped).1
    ≡ cons (span (origin "b") (cons (span (origin "a") nil true) nil) false) nil
unfolding detect_trace_cycle
looped_sanitized = refl

detect_trace_cycle-cut_example :
    ((detect_trace_cycle "a" looped).1 ≡ cut "a" looped)
    × IsCut "a" (detect_trace_cycle "a" looped).1
    × (¬ Occurs "a" looped → (detect_trace_cycle "a" looped).1 ≡ looped)
detect_trace_cycle-cut_example = detect_trace_cycle-cut "a" looped
