-- ===== src/Controllers/Config/Laws.antt =====
-- Which value a key of the collected configuration has.
use wa8s.Prelude.{
  ◌≡◌, inl, inr, refl, sym, ap, ◌∙◌, String, List, [], ◌∷◌, ◌++◌, Option, none, some, map, arith,
  if◌then◌else◌, ◌==◌, Option-cases, eq_cases,
}
use wa8s.Reconcile.{Read, Read-cases, found, not_found, read_error}
use wa8s.Apis.Meta.{lookup}
use wa8s.Apis.Components.ConfigStore.{ValuesFrom, Value, GenericConfigStoreSpec}
use wa8s.Controllers.Config.{
  Entries, Collected, collected, stopped, with_prefix, use_config_map, use_key, then_collect,
  collect_values_from, collect_value, collect_values, collect_config,
}

abbrev pub or_else {ℓ} : {A : Type ℓ} → Option A → Option A → Option A
or_else none b = b
or_else (some a) b = some a

or_else_assoc {ℓ} :
    {A : Type ℓ} (a b c : Option A) → or_else (or_else a b) c ≡ or_else a (or_else b c)
or_else_assoc none b c = refl
or_else_assoc (some x) b c = refl

or_else-none {ℓ} : {A : Type ℓ} (a : Option A) → or_else a none ≡ a
or_else-none none = refl
or_else-none (some x) = refl

abbrev pub data_of : Read Entries → Entries
data_of (found entries) = entries
data_of not_found = []
data_of (read_error e) = []

module _ (get : String → Read Entries) where
  -- The value that one entry of `values` gives.
  pub value_of : Value → Option String
  value_of v = elim v.value_from [
    | none ↦ some v.value
    | some f ↦ lookup f.key (data_of (get f.name))
  ]

  -- A key in the values: the last one of its name.
  pub in_values : String → List Value → Option String
  in_values key [] = none
  in_values key (v ∷ vs) = or_else (in_values key vs) (if v.name == key then value_of v else none)

  -- A key in the imported config maps, with their prefixes: the last one that has it.
  pub in_values_from : String → List ValuesFrom → Option String
  in_values_from key [] = none
  in_values_from key (f ∷ fs) =
      or_else (in_values_from key fs)
        (lookup key (map (with_prefix f.prefix) (data_of (get f.name))))

  lookup-append :
      (key : String) (xs ys : Entries)
      → lookup key (xs ++ ys) ≡ or_else (lookup key xs) (lookup key ys)
  unfolding lookup
  lookup-append key [] ys = refl
  lookup-append key ((k, v) ∷ xs) ys = elim (eq_cases k key) [
    | inl (e, _) ↦ rw e refl
    | inr (e, _) ↦ ground (arith, e, lookup-append key xs ys)
  ]

  abbrev entries_of : Collected → Entries
  entries_of (collected x) = x
  entries_of (stopped r o) = []

  -- A step that collects, and what comes after it.
  collecting :
      (q : Collected) (k : Entries → Collected) (c' : Entries)
      → then_collect get q k ≡ collected c'
      → (q ≡ collected (entries_of q)) × (k (entries_of q) ≡ collected c')
  collecting (collected x) k c' h = (refl, h)
  collecting (stopped r o) k c' h = absurd (ground (arith, h))

  -- A config map that is used was found.
  used :
      (k : Entries → Collected) (name : String) (c : Entries)
      → use_config_map get k name ≡ collected c
      → k (data_of (get name)) ≡ collected c
  used k name c h = elim (Read-cases (get name)) [
    | inl (entries, e) ↦ ground (arith, e, h)
    | inr (inl e) ↦ absurd (ground (arith, e, h))
    | inr (inr (m, e)) ↦ absurd (ground (arith, e, h))
  ]

  values_from_lem :
      (key : String) (fs : List ValuesFrom) (c c' : Entries)
      → collect_values_from get fs c ≡ collected c'
      → lookup key c' ≡ or_else (in_values_from key fs) (lookup key c)
  unfolding collect_values_from in_values_from
  values_from_lem key [] c c' h = ap (λ (x : Collected). lookup key (entries_of x)) (sym h)
  values_from_lem key (f ∷ fs) c c' h =
      let data' = map (with_prefix f.prefix) (data_of (get f.name)) in
      let first =
        use_config_map get (λ entries. collected (map (with_prefix f.prefix) entries ++ c))
          f.name in
      let (q, rest) = collecting first (λ x. collect_values_from get fs x) c' h in
      let here : data' ++ c ≡ entries_of first = ap entries_of (
        used (λ entries. collected (map (with_prefix f.prefix) entries ++ c)) f.name
          (entries_of first) q) in
      let looked = ap (lookup key) (sym here) ∙ lookup-append key data' c in
      values_from_lem key fs (entries_of first) c' rest
      ∙ ap (or_else (in_values_from key fs)) looked
      ∙ sym (or_else_assoc (in_values_from key fs) (lookup key data') (lookup key c))

  -- A name that is written with a value.
  written :
      (key name : String) (o : Option String) (x : String) (c c' : Entries)
      → o ≡ some x
      → (name, x) ∷ c ≡ c'
      → lookup key c' ≡ or_else (if name == key then o else none) (lookup key c)
  unfolding lookup
  written key name o x c c' e h = elim (eq_cases name key) [
    | inl (same, _) ↦ ap (lookup key) (sym h) ∙ rw (same, e) refl
    | inr (other, _) ↦ ap (lookup key) (sym h) ∙ rw other refl
  ]

  -- What one entry adds.
  collect_value_lem :
      (key : String) (v : Value) (c c' : Entries)
      → collect_value get v c ≡ collected c'
      → lookup key c' ≡ or_else (if v.name == key then value_of v else none) (lookup key c)
  unfolding value_of
  collect_value_lem key v c c' h = elim (Option-cases v.value_from) [
    | inl e ↦
        let there : collected ((v.name, v.value) ∷ c) ≡ collected c' = ground (arith, e, h) in
        written key v.name (value_of v) v.value c c' (ground (arith, e)) (ap entries_of there)
    | inr (f, e) ↦
        let direct : use_config_map get (use_key get v.name f.key c) f.name ≡ collected c' =
          ground (arith, e, h) in
        let keyed = used (use_key get v.name f.key c) f.name c' direct in
        elim (Option-cases (lookup f.key (data_of (get f.name)))) [
          | inl k ↦ absurd (ground (arith, k, keyed))
          | inr (x, k) ↦
              let there : collected ((v.name, x) ∷ c) ≡ collected c' = ground (arith, k, keyed) in
              written key v.name (value_of v) x c c' (ground (arith, e, k)) (ap entries_of there)
        ]
  ]

  values_lem :
      (key : String) (vs : List Value) (c c' : Entries)
      → collect_values get vs c ≡ collected c'
      → lookup key c' ≡ or_else (in_values key vs) (lookup key c)
  unfolding collect_values in_values
  values_lem key [] c c' h = ap (λ (x : Collected). lookup key (entries_of x)) (sym h)
  values_lem key (v ∷ vs) c c' h =
      let (q, rest) = collecting (collect_value get v c) (λ x. collect_values get vs x) c' h in
      let mid = entries_of (collect_value get v c) in
      values_lem key vs mid c' rest
      ∙ ap (or_else (in_values key vs)) (collect_value_lem key v c mid q)
      ∙ sym (
          or_else_assoc (in_values key vs) (if v.name == key then value_of v else none)
            (lookup key c))

  -- When the configuration is collected, a key has the value of the last entry of `values` with its
  -- name; without one, that of the last imported config map that has it under its prefix; and without
  -- one of these it is not there.
  pub collect_config-lookup :
      (key : String) (r : GenericConfigStoreSpec) (c : Entries)
      → collect_config get r ≡ collected c
      → lookup key c ≡ or_else (in_values key r.values) (in_values_from key r.values_from)
  unfolding collect_config lookup
  collect_config-lookup key r c h =
      let first = collect_values_from get r.values_from [] in
      let (q, rest) = collecting first (λ x. collect_values get r.values x) c h in
      let imported = values_from_lem key r.values_from [] (entries_of first) q in
      values_lem key r.values (entries_of first) c rest
      ∙ ap (or_else (in_values key r.values))
          (imported ∙ or_else-none (in_values_from key r.values_from))
