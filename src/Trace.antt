-- ===== src/Trace.antt =====
-- The traces of components: `ComponentSpan` of apis/components/v1alpha1/duck_types.go and
-- `DetectTraceCycle` of controllers/duck_controller.go. A nil slice and an empty one are told apart
-- by nothing that reads a trace, so both are `nil`.
pub mod Laws
mod Examples
use wa8s.Prelude.{String, Bool, true, false, ◌||◌, if◌then◌else◌, ◌==◌}

-- The fields of a span but `Trace` and `CycleOmitted`.
pub record Origin : Type 0 where
  pub digest : String
  pub uid : String
  pub group : String
  pub kind : String
  pub namespace : String
  pub name : String

mutual
  -- `span origin trace cycle_omitted`
  pub data ComponentSpan : Type 0 where
    span : Origin → Trace → Bool → ComponentSpan

  pub data Trace : Type 0 where
    nil : Trace
    cons : ComponentSpan → Trace → Trace

-- `append(trace, s)`
unfoldable pub add_span : Trace → ComponentSpan → Trace
add_span nil s = cons s nil
add_span (cons x t) s = cons x (add_span t s)

-- The loop over a trace, and its body. A span with the resource's uid loses its own trace before
-- the recursive call, which then finds nothing; any other span takes the sanitized trace of the
-- call only if that found a cycle.
unfoldable mutual
  pub detect_trace_cycle : String → Trace → Bool × Trace
  detect_trace_cycle uid nil = (false, nil)
  detect_trace_cycle uid (cons s t) =
      let (here, s') = detect_span uid s in
      let (later, t') = detect_trace_cycle uid t in (here || later, cons s' t')

  pub detect_span : String → ComponentSpan → Bool × ComponentSpan
  detect_span uid (span o t omitted) =
      let (inner, t') = detect_trace_cycle uid t in
      if o.uid == uid
      then (true, span o nil true)
      else (inner, span o (if inner then t' else t) omitted)
