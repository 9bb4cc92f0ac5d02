-- ===== src/Services/Binding/Sequence/Settling.antt =====
-- integrations/services/internal/controllers/servicebinding_controller.go: a run in which nothing
-- outside of the reconciler stands in the way.
use wa8s.Prelude.{◌≡◌, ◌≢◌, refl, eqb, String, true, false, [], none, some, arith, eq_iff}
use wa8s.Reconcile.{done, found}
use wa8s.Apis.Services.Instance.{default_service_instance}
use wa8s.Services.Instance.{Lifecycle}
use wa8s.Services.Credentials.{Secret}
use wa8s.Services.Binding.{Binding, Stash, Call, World, Run, is_over, manage}
use wa8s.Services.Binding.Setup.{
  Provider, Resolved, Turn, resolve_service_instance_id, reflect_secret, set_up, lifecycle_key,
}

-- What the steps read of a binding that they do not write.
abbrev pub Given : Binding → Binding → Type 0
Given b b' =
    (b'.namespace ≡ b.namespace) × (b'.spec ≡ b.spec) × (b'.created ≡ b.created) × (b'.uid ≡ b.uid)

-- The instance and its lifecycle are read and are current, the instance is ready, the secret is
-- written, the service accepts every request, and the binding is not over.
pub record IsSteady (t : Turn) (b : Binding) (p : Provider) (l : Lifecycle) (c : Secret)
    : Type 0 where
  pub reads_instance : t.get_instance b.namespace b.spec.ref.name ≡ found p
  pub current : eqb p.observed.generation p.observed.observed_generation ≡ true
  pub ready : p.observed.ready_is_true ≡ true
  pub reads_lifecycle :
      t.get_lifecycle (lifecycle_key b (default_service_instance t.ctx p.instance_).spec.ref)
      ≡ found l
  pub current_lifecycle : eqb l.observed.generation l.observed.observed_generation ≡ true
  pub no_error : t.secret_error ≡ none
  pub written : t.secret ≡ some c
  pub accepts : (call : Call) → t.world.answer call ≡ none
  pub not_over : is_over t.world.now b ≡ false

-- The resolving step stashes an address and an instance id, and keeps what was given.
abbrev Resolves : Binding → Resolved → Type 0
Resolves b r =
    (r.outcome ≡ done)
    × ((a : String) × (r.address ≡ some a))
    × ((i : String) × (r.instance_id ≡ some i))
    × Given b r.binding
    × (r.binding.service_binding_id ≡ b.service_binding_id)
    × (r.binding.expired ≡ b.expired)

resolves :
    (t : Turn) (b : Binding) (p : Provider) (l : Lifecycle) (c : Secret)
    → IsSteady t b p l c
    → Resolves b (resolve_service_instance_id t.ctx t.get_instance t.get_lifecycle b)
unfolding resolve_service_instance_id
resolves t b p l c s =
    let i = default_service_instance t.ctx p.instance_ in
    let e1 = s.reads_instance in
    let e2 = s.reads_lifecycle in
    let e3 = s.current in
    let e4 = s.ready in
    let e5 = s.current_lifecycle in
    (
      ground (arith, e1, e2, e3, e4, e5),
      (l.url, ground (arith, e1, e2, e3, e4, e5)),
      (i.service_instance_id, ground (arith, e1, e2, e3, e4, e5)),
      ground (arith, e1, e2, e3, e4, e5),
      ground (arith, e1, e2, e3, e4, e5),
      ground (arith, e1, e2, e3, e4, e5),
    )

-- The steps before `ManageServiceBinding` end, and give it all that it needs.
abbrev pub Manages : Turn → Binding → Type 0
Manages t b =
    (b' : Binding) × (a : String) × (i : String) × (set_up t b
      ≡ manage t.world (record { address = some a; binding_id = some b.uid; instance_id = some i })
          b')
    × Given b b'
    × (b'.service_binding_id ≡ b.service_binding_id)
    × (b'.expired ≡ b.expired)

pub manages :
    (t : Turn) (b : Binding) (p : Provider) (l : Lifecycle) (c : Secret)
    → IsSteady t b p l c
    → Manages t b
unfolding set_up reflect_secret
manages t b p l c s =
    let r = resolve_service_instance_id t.ctx t.get_instance t.get_lifecycle b in
    let (d, (a, ea), (i, ei), (n, sp, cr, u), id, x) = resolves t b p l c s in
    let b' = (reflect_secret r.binding none (some c)).0 in
    (b', a, i, rw (d, s.no_error, s.written, ea, ei, u) refl, (n, sp, cr, u), id, x)

pub IsSteady-Given :
    (t : Turn) (b b' : Binding) (p : Provider) (l : Lifecycle) (c : Secret)
    → IsSteady t b p l c
    → Given b b'
    → IsSteady t b' p l c
IsSteady-Given t b b' p l c s (n, sp, cr, u) = record {
  reads_instance = rw (n, sp) s.reads_instance;
  current = s.current;
  ready = s.ready;
  reads_lifecycle = rw n s.reads_lifecycle;
  current_lifecycle = s.current_lifecycle;
  no_error = s.no_error;
  written = s.written;
  accepts = s.accepts;
  not_over = rw (cr, sp) s.not_over;
}

-- A bound binding that is not over is left alone.
abbrev pub Rests : Binding → Run → Type 0
Rests b run =
    (run.calls ≡ [])
    × (run.outcome ≡ done)
    × Given b run.binding
    × (run.binding.service_binding_id ≡ b.service_binding_id)
    × (run.binding.expired ≡ b.expired)

pub manage-Rests :
    (w : World) (s : Stash) (b : Binding)
    → b.service_binding_id ≢ ""
    → b.expired ≡ false
    → is_over w.now b ≡ false
    → Rests b (manage w s b)
unfolding manage
manage-Rests w s b named x early = ground (arith, early, eq_iff b.service_binding_id "")
