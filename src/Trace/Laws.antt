-- ===== src/Trace/Laws.antt =====
-- Cycle detection against an independent description of it.
use wa8s.Prelude.{
  ◌≡◌, ◌↔◌, ◌⊎◌, inl, inr, refl, ◌∙◌, String, true, false, if◌then◌else◌, ◌==◌, arith, eq_iff,
  eq_cases, Bool-cases,
}
use wa8s.Trace.{ComponentSpan, Trace, span, nil, cons, detect_trace_cycle, detect_span}

-- The uid occurs somewhere in a trace, at any depth.
abbrev mutual
  pub Occurs : String → Trace → Type 0
  Occurs uid nil = ⊥
  Occurs uid (cons s t) = OccursIn uid s ⊎ Occurs uid t

  pub OccursIn : String → ComponentSpan → Type 0
  OccursIn uid (span o t omitted) = (o.uid ≡ uid) ⊎ Occurs uid t

-- The trace cut at every span of the uid, which stays as a marked leaf.
unfoldable mutual
  pub cut : String → Trace → Trace
  cut uid nil = nil
  cut uid (cons s t) = cons (cut_span uid s) (cut uid t)

  pub cut_span : String → ComponentSpan → ComponentSpan
  cut_span uid (span o t omitted) =
      if o.uid == uid then span o nil true else span o (cut uid t) omitted

-- Nothing below a span of the uid, and the span is marked.
abbrev mutual
  pub IsCut : String → Trace → Type 0
  IsCut uid nil = Unit
  IsCut uid (cons s t) = IsCutSpan uid s × IsCut uid t

  pub IsCutSpan : String → ComponentSpan → Type 0
  IsCutSpan uid (span o t omitted) = (o.uid ≡ uid → (t ≡ nil) × (omitted ≡ true)) × IsCut uid t

mutual
  unfolding cut

  cut_trace-IsCut : (uid : String) (t : Trace) → IsCut uid (cut uid t)
  cut_trace-IsCut uid nil = tt
  cut_trace-IsCut uid (cons s t) = (cut_span-IsCut uid s, cut_trace-IsCut uid t)

  cut_span-IsCut : (uid : String) (s : ComponentSpan) → IsCutSpan uid (cut_span uid s)
  cut_span-IsCut uid (span o t omitted) = elim (eq_cases o.uid uid) [
    | inl (e, _) ↦ rw e ((λ _. (refl, refl)), tt)
    | inr (e, ne) ↦ rw e ((λ same. absurd (ne same)), cut_trace-IsCut uid t)
  ]

mutual
  unfolding detect_trace_cycle

  found_iff : (uid : String) (t : Trace) → ((detect_trace_cycle uid t).0 ≡ true) ↔ Occurs uid t
  found_iff uid nil = ground arith
  found_iff uid (cons s t) = ground (arith, found_span_iff uid s, found_iff uid t)

  found_span_iff :
      (uid : String) (s : ComponentSpan) → ((detect_span uid s).0 ≡ true) ↔ OccursIn uid s
  found_span_iff uid (span o t omitted) = ground (arith, eq_iff o.uid uid, found_iff uid t)

mutual
  unfolding detect_trace_cycle cut

  clean_cut : (uid : String) (t : Trace) → (detect_trace_cycle uid t).0 ≡ false → cut uid t ≡ t
  clean_cut uid nil h = refl
  clean_cut uid (cons s t) h = ground (arith, clean_cut_span uid s, clean_cut uid t)

  clean_cut_span :
      (uid : String) (s : ComponentSpan) → (detect_span uid s).0 ≡ false → cut_span uid s ≡ s
  clean_cut_span uid (span o t omitted) h = ground (arith, clean_cut uid t)

mutual
  unfolding detect_trace_cycle cut

  sanitized : (uid : String) (t : Trace) → (detect_trace_cycle uid t).1 ≡ cut uid t
  sanitized uid nil = refl
  sanitized uid (cons s t) = ground (arith, sanitized_span uid s, sanitized uid t)

  sanitized_span : (uid : String) (s : ComponentSpan) → (detect_span uid s).1 ≡ cut_span uid s
  sanitized_span uid (span o t omitted) = ground (arith, sanitized uid t, clean_cut uid t)

-- A cycle is reported exactly when the resource's uid occurs in the trace, at whatever depth.
pub detect_trace_cycle-Occurs_iff :
    (uid : String) (t : Trace) → ((detect_trace_cycle uid t).0 ≡ true) ↔ Occurs uid t
detect_trace_cycle-Occurs_iff uid t = found_iff uid t

-- The sanitized trace is the trace cut at the spans of the uid: such a span, at whatever depth, is a
-- leaf marked as omitted, and a trace without the uid comes back unchanged.
pub detect_trace_cycle-cut :
    (uid : String) (t : Trace)
    → ((detect_trace_cycle uid t).1 ≡ cut uid t)
      × IsCut uid (detect_trace_cycle uid t).1
      × (¬ Occurs uid t → (detect_trace_cycle uid t).1 ≡ t)
detect_trace_cycle-cut uid t = (
  sanitized uid t,
  rw (sanitized uid t) (cut_trace-IsCut uid t),
  λ absent.
      sanitized uid t
      ∙ clean_cut uid t (elim (Bool-cases (detect_trace_cycle uid t).0) [
        | inl found ↦ absurd (absent ((found_iff uid t).0 found))
        | inr clean ↦ clean
      ]),
)
